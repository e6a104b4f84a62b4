-- ===== src/Storage/Frame/Calls.antt =====
-- The parts of the operations of storage/src/sotrage_files.c, against the frame: calls of the operating
-- system, of the bitmap and of the index of hashes.
use Prim.Native.String.{String}
use tp_ssoo_2c.Base.{
  ℕ, ◌≡◌, refl, Bool, true, false, Option, none, some, List, ◌∷◌, set, ltb, length-set, arith,
  if◌then◌else◌,
}
use tp_ssoo_2c.Storage.{FileTag, MetadataFile, Directorio, Fs, Res, listo, fallo}
use tp_ssoo_2c.Storage.FileSystem.{
  cambiar, unlink, link, enlazable, storage_metadata_read, storage_metadata_write, blk_mutex,
  leer_bloque, escribir_bloque, leer_logico,
}
use tp_ssoo_2c.Storage.FileSystem.Lookup.{buscar-cambiar_ne, buscar-cambiar_self}
use tp_ssoo_2c.Storage.Hashes.{
  get_hash_from_block, get_hash_from_content, block_asocied_to, load_hash_in_index, remove_hash,
  sin_clave,
}
use tp_ssoo_2c.Storage.Bitmap.{find_free_block, mark_block_free, reservar}
use tp_ssoo_2c.Storage.Frame.{
  o_fallo_marco, Marco, Marco_refl, Conserva, Conserva-bind, listo_marco, Conserva-get,
  Conserva-o_fallo, conserva,
}

-- A change of the own directory.
cambiar_marco :
    (ft : FileTag) (f : Directorio → Directorio) (keep : (d : Directorio) → (f d).nombre ≡ d.nombre)
    (s : Fs)
    → Marco ft s (record s { files = cambiar ft f s.files })
cambiar_marco ft f keep s = record {
  locks = refl;
  size = refl;
  count = refl;
  bits = refl;
  blocks = refl;
  others = λ g h. buscar-cambiar_ne ft f keep g s.files h;
  own = λ d h. (f d, buscar-cambiar_self ft f keep s.files d h);
}

pub unlink-Conserva : (ft : FileTag) (i : ℕ) → Conserva ft (unlink ft i)
unfolding unlink
unlink-Conserva ft i =
    conserva λ s s' b h. listo_marco ft s _ s' _ b (cambiar_marco ft _ (λ d. refl) s) h

pub metadata_write-Conserva :
    (ft : FileTag) (meta : MetadataFile) → Conserva ft (storage_metadata_write ft meta)
unfolding storage_metadata_write
metadata_write-Conserva ft meta =
    conserva λ s s' b h. listo_marco ft s _ s' _ b (cambiar_marco ft _ (λ d. refl) s) h

link_marco :
    (ft : FileTag) (p i : ℕ) (s s' : Fs) (c b : Bool)
    → ◌≡◌ {A = Res Bool}
        (if c
          then listo true (record s {
            files =
                cambiar ft (λ d. record d { logical_blocks = (i, p) ∷ d.logical_blocks }) s.files;
          })
          else listo false s)
        (listo b s')
    → Marco ft s s'
link_marco ft p i s s' true b h =
    listo_marco ft s _ s' _ b
      (cambiar_marco ft (λ d. record d { logical_blocks = (i, p) ∷ d.logical_blocks }) (λ d. refl)
        s)
      h
link_marco ft p i s s' false b h = listo_marco ft s s s' _ b (Marco_refl ft s) h

pub link-Conserva : (ft : FileTag) (p i : ℕ) → Conserva ft (link p ft i)
unfolding link
link-Conserva ft p i = conserva λ s s' b h. link_marco ft p i s s' (enlazable p ft i s) b h

pub metadata_read-Conserva : (ft g : FileTag) → Conserva ft (storage_metadata_read g)
unfolding storage_metadata_read
metadata_read-Conserva ft g = conserva λ s s' b h. listo_marco ft s s s' _ b (Marco_refl ft s) h

blk_mutex_marco :
    (ft : FileTag) (s s' : Fs) (c : Bool) (b : Unit {0})
    → ◌≡◌ {A = Res (Unit {0})} (if c then listo tt s else fallo) (listo b s')
    → Marco ft s s'
blk_mutex_marco ft s s' true b h = listo_marco ft s s s' _ b (Marco_refl ft s) h
blk_mutex_marco ft s s' false b h = ground arith

pub blk_mutex-Conserva : (ft : FileTag) (p : ℕ) → Conserva ft (blk_mutex p)
unfolding blk_mutex
blk_mutex-Conserva ft p = conserva λ s s' b h. blk_mutex_marco ft s s' (ltb p s.blocks_count) b h

pub leer_bloque-Conserva : (ft : FileTag) (p : ℕ) → Conserva ft (leer_bloque p)
unfolding leer_bloque
leer_bloque-Conserva ft p = conserva λ s s' b h. o_fallo_marco ft _ s s' b h

pub leer_logico-Conserva : (ft g : FileTag) (i : ℕ) → Conserva ft (leer_logico g i)
unfolding leer_logico
leer_logico-Conserva ft g i =
    Conserva-bind ft _ _ (Conserva-get ft)
      λ s. Conserva-bind ft _ _ (Conserva-o_fallo ft _) λ p. leer_bloque-Conserva ft p

escribir_marco :
    (ft : FileTag) (p : ℕ) (v : List ℕ) (s : Fs)
    → Marco ft s (record s { physical_blocks = set s.physical_blocks p v })
escribir_marco ft p v s = record {
  locks = refl;
  size = refl;
  count = refl;
  bits = refl;
  blocks = length-set s.physical_blocks p v;
  others = λ g h. refl;
  own = λ d h. (d, h);
}

pub escribir_bloque-Conserva :
    (ft : FileTag) (p : ℕ) (v : List ℕ) → Conserva ft (escribir_bloque p v)
unfolding escribir_bloque
escribir_bloque-Conserva ft p v =
    conserva λ s s' b h. listo_marco ft s _ s' _ b (escribir_marco ft p v s) h

bit_marco :
    (ft : FileTag) (p : ℕ) (v : Bool) (s : Fs) → Marco ft s (record s { bitmap = set s.bitmap p v })
bit_marco ft p v s = record {
  locks = refl;
  size = refl;
  count = refl;
  bits = length-set s.bitmap p v;
  blocks = refl;
  others = λ g h. refl;
  own = λ d h. (d, h);
}

pub mark_block_free-Conserva : (ft : FileTag) (p : ℕ) → Conserva ft (mark_block_free p)
unfolding mark_block_free
mark_block_free-Conserva ft p =
    conserva λ s s' b h. listo_marco ft s _ s' _ b (bit_marco ft p false s) h

reservar_marco : (ft : FileTag) (r : Option ℕ) (s : Fs) → Marco ft s (reservar r s)
unfolding reservar
reservar_marco ft none s = Marco_refl ft s
reservar_marco ft (some p) s = bit_marco ft p true s

pub find_free_block-Conserva : (ft : FileTag) → Conserva ft find_free_block
unfolding find_free_block
find_free_block-Conserva ft =
    conserva λ s s' b h. listo_marco ft s _ s' _ b (reservar_marco ft _ s) h

hash_marco :
    (ft : FileTag) (ix : List (String × ℕ)) (s : Fs) → Marco ft s (record s { hash_index = ix })
hash_marco ft ix s = record {
  locks = refl;
  size = refl;
  count = refl;
  bits = refl;
  blocks = refl;
  others = λ g h. refl;
  own = λ d h. (d, h);
}

remove_hash_marco :
    (ft : FileTag) (h : String) (s : Fs) (c : Bool)
    → Marco ft s (if c then record s { hash_index = sin_clave h s.hash_index } else s)
remove_hash_marco ft h s true = hash_marco ft _ s
remove_hash_marco ft h s false = Marco_refl ft s

pub remove_hash-Conserva : (ft : FileTag) (k : String) → Conserva ft (remove_hash k)
unfolding remove_hash
remove_hash-Conserva ft k =
    conserva λ s s' b h. listo_marco ft s _ s' _ b (remove_hash_marco ft k s _) h

pub load_hash-Conserva : (ft : FileTag) (k : String) (p : ℕ) → Conserva ft (load_hash_in_index k p)
unfolding load_hash_in_index
load_hash-Conserva ft k p =
    Conserva-bind ft _ _ (remove_hash-Conserva ft k)
      λ _. conserva λ s s' b h. listo_marco ft s _ s' _ b (hash_marco ft _ s) h

pub block_asocied_to-Conserva : (ft : FileTag) (k : String) → Conserva ft (block_asocied_to k)
unfolding block_asocied_to
block_asocied_to-Conserva ft k = conserva λ s s' b h. listo_marco ft s s s' _ b (Marco_refl ft s) h

pub get_hash_from_block-Conserva :
    (crypto_md5 : List ℕ → String) (ft g : FileTag) (i : ℕ)
    → Conserva ft (get_hash_from_block crypto_md5 g i)
unfolding get_hash_from_block get_hash_from_content
get_hash_from_block-Conserva crypto_md5 ft g i =
    Conserva-bind ft _ _ (leer_logico-Conserva ft g i)
      λ c. conserva λ s s' b h. listo_marco ft s s s' _ b (Marco_refl ft s) h
