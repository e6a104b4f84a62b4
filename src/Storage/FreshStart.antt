-- ===== src/Storage/FreshStart.antt =====
-- storage/src/storage_fresh_start.c, and the end of `init` of storage_init.c: the disk that a start
-- with FRESH_START leaves, by the FS_SIZE and the BLOCK_SIZE that it ends up with (`tamanos` of Storage.Start).
pub mod Coherent
use Prim.Native.String.{String}
use tp_ssoo_2c.Base.{ℕ, ◌+◌, ◌/◌, Bool, true, false, some, List, [], ◌∷◌, set, replicate}
use tp_ssoo_2c.Storage.{
  FileTag, MetadataFile, work_in_progress, Directorio, Fs, M, ◌>>=◌, ◌>>◌, listo, pure, get,
}
use tp_ssoo_2c.Storage.Bitmap.{max_bit}
use tp_ssoo_2c.Storage.Hashes.{get_hash_from_content, load_hash_in_index}

abbrev pub initial_file : FileTag
initial_file = ("initial_file", "BASE")

-- string_repeat('0', BLOCK_SIZE).
unfoldable pub zero_block : ℕ → List ℕ
zero_block block_size = replicate block_size b'0'

-- files/initial_file/BASE, with its one block linked to the physical block 0.
abbrev pub directorio_base : Directorio
directorio_base = record {
  nombre = initial_file;
  metadata = some (record { tamanio = 0; blocks = 0 ∷ []; estado = work_in_progress });
  logical_blocks = (0, 0) ∷ [];
}

-- All blocks hold zeros and are free, but block 0; there is no lock yet.
unfoldable pub storage_fresh_start : ℕ → ℕ → Fs
unfolding zero_block
storage_fresh_start fs_size block_size =
    let blocks_count = fs_size / block_size in
    record {
      block_size = block_size;
      blocks_count = blocks_count;
      bitmap = set (replicate (max_bit blocks_count) false) 0 true;
      physical_blocks = replicate blocks_count (zero_block block_size);
      files = directorio_base ∷ [];
      hash_index = [];
      locks_index = [];
    }

-- The hash of the block of zeros is loaded for block 0.
unfoldable pub init_hash_index : (List ℕ → String) → M (Unit {0})
init_hash_index crypto_md5 = do
  s ← get
  hash ← get_hash_from_content crypto_md5 (zero_block s.block_size)
  load_hash_in_index hash 0
