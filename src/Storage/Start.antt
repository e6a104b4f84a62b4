-- ===== src/Storage/Start.antt =====
-- storage/src/storage_init.c: `init`, from the values of the configuration to the state with which the
-- storage serves its workers. The disk below PUNTO_MONTAJE, `open` and `mmap` are parameters, and so are
-- those of init_locks_index. A C number that is divided by 0 faults.
use Prim.Native.String.{String}
use text.Mathlib.TextEquality.{eq_iff}
use tp_ssoo_2c.Base.{
  ℕ, ◌/◌, ◌<◌, ◌≡◌, ◌≢◌, refl, sym, ap, ◌∙◌, Bool, true, false, not, Option, none, some, List, [],
  ◌∷◌, ◌==◌, length, take, replicate, length-replicate, length-set, take-length, ne→==,
  if◌then◌else◌,
}
use tp_ssoo_2c.Storage.{Fs, Res, listo, bloqueado}
use tp_ssoo_2c.Storage.Bitmap.{max_bit}
use tp_ssoo_2c.Storage.Hashes.{valor, load_hash_in_index-vacio, get_hash_from_content}
use tp_ssoo_2c.Storage.FreshStart.{storage_fresh_start, zero_block, init_hash_index}
use tp_ssoo_2c.Storage.FreshStart.Coherent.{storage_fresh_start-Coherente}
use tp_ssoo_2c.Storage.Contents.RoundTrip.{Coherente}
use tp_ssoo_2c.Storage.Locks.Start.{
  Tipo, Arranque, hecho, exit_failure, fallo, ◌>>=◌, init_locks_index, NingunoArriba,
  init_locks_index-NingunoArriba,
}

-- The values of storage.config that the state depends on.
pub record Config : Type 0 where
  pub fresh_start : String
  pub fs_size : ℕ
  pub block_size : ℕ
  pub punto_montaje : String

-- What is below PUNTO_MONTAJE: FS_SIZE and BLOCK_SIZE of a superblock.config, if there is one, and the
-- disk.
pub record Montaje : Type 0 where
  pub superblock : Option (ℕ × ℕ)
  pub disco : Fs

-- FS_SIZE and BLOCK_SIZE of a new disk: those of a superblock.config that is there already, and those of
-- storage.config otherwise, with which one is written.
unfoldable pub tamanos : Config → Option (ℕ × ℕ) → ℕ × ℕ
tamanos config none = (config.fs_size, config.block_size)
tamanos config (some t) = t

-- The disk that is there, of the size that its superblock.config tells, without which it ends.
unfoldable pub encontrado : Fs → Option (ℕ × ℕ) → Arranque Fs
encontrado disco none = exit_failure
encontrado disco (some (fs_size, block_size)) =
    hecho (record disco { block_size = block_size; blocks_count = fs_size / block_size })

unfoldable pub montar : (String → String → Bool) → Config → Montaje → Arranque Fs
unfolding tamanos encontrado
montar ic config montaje =
    if ic config.fresh_start "TRUE"
    then (let t = tamanos config montaje.superblock in hecho (storage_fresh_start t.0 t.1))
    else encontrado montaje.disco montaje.superblock

-- The bits of the first (blocks_count + 7) / 8 bytes of bitmap.bin; -1 is `none`.
unfoldable pub bitmap_init : Bool → Bool → ℕ → List Bool → Option (List Bool)
bitmap_init abre mapea blocks_count bits =
    if not abre then none else if not mapea then none else some (take (max_bit blocks_count) bits)

abbrev pub o_salir : {A : Type 0} → Option A → Arranque A
o_salir none = exit_failure
o_salir (some a) = hecho a

abbrev pub al_terminar : Res (Unit {0}) → Arranque Fs
al_terminar (listo _ s) = hecho s
al_terminar bloqueado = fallo
al_terminar Res.fallo = fallo

module _ (unir : String → String → String) (opendir : String → Option (List String))
    (stat : String → Option Tipo) (ic : String → String → Bool) (crypto_md5 : List ℕ → String)
    (abre mapea : Bool) where
  unfoldable pub init : Config → Montaje → Arranque Fs
  unfolding montar bitmap_init
  init config montaje = do
    s ← montar ic config montaje
    t ← al_terminar (init_hash_index crypto_md5 s)
    bits ←
        (if t.block_size == 0
          then fallo
          else o_salir (bitmap_init abre mapea t.blocks_count t.bitmap))
    locks ← init_locks_index unir opendir stat config.punto_montaje
    hecho (record t { bitmap = bits; locks_index = locks })

  module _ (config : Config) (montaje : Montaje) (fs_size block_size : ℕ) (entradas : List String)
      (fresca : ic config.fresh_start "TRUE" ≡ true)
      (de_donde : tamanos config montaje.superblock ≡ (fs_size, block_size))
      (hay : 0 < fs_size / block_size) (tam : block_size ≢ 0)
      (llena : max_bit (fs_size / block_size) ≡ fs_size / block_size) (abierto : abre ≡ true)
      (mapeado : mapea ≡ true)
      (leidas : opendir (unir config.punto_montaje "files") ≡ some entradas)
      (ninguno : NingunoArriba unir opendir stat config.punto_montaje entradas) where
    abbrev disco : Fs
    disco = storage_fresh_start fs_size block_size

    abbrev hash : String
    hash = crypto_md5 (take block_size (zero_block block_size))

    abbrev listo_para_servir : Fs
    listo_para_servir = record disco { hash_index = (hash, 0) ∷ [] }

    con_hash : init_hash_index crypto_md5 disco ≡ listo tt listo_para_servir
    unfolding init_hash_index get_hash_from_content storage_fresh_start
    con_hash = load_hash_in_index-vacio hash 0 disco refl

    tamano : disco.block_size ≢ 0
    unfolding storage_fresh_start
    tamano = tam

    bits_enteros : take (max_bit disco.blocks_count) disco.bitmap ≡ disco.bitmap
    unfolding storage_fresh_start
    bits_enteros =
        let l : length disco.bitmap ≡ max_bit disco.blocks_count =
          length-set (replicate (max_bit disco.blocks_count) false) 0 true
          ∙ length-replicate (max_bit disco.blocks_count) false in
        ap (λ n. take n disco.bitmap) (sym l) ∙ take-length disco.bitmap

    iniciado : init config montaje ≡ hecho (record listo_para_servir { locks_index = [] })
    unfolding init
    iniciado =
        rw
          (
            fresca,
            de_donde,
            con_hash,
            ne→== disco.block_size 0 tamano,
            abierto,
            mapeado,
            bits_enteros,
            (init_locks_index-NingunoArriba unir opendir stat config.punto_montaje entradas leidas
                ninguno).0,
          )
          refl

    de_bloque : disco.block_size ≡ block_size
    unfolding storage_fresh_start
    de_bloque = refl

    de_cantidad : disco.blocks_count ≡ fs_size / block_size
    unfolding storage_fresh_start
    de_cantidad = refl

    hash_cargado : valor hash ((hash, 0) ∷ []) ≡ some 0
    unfolding valor
    hash_cargado = rw ((eq_iff hash hash).1 refl) refl

    -- A start with FRESH_START, where FS_SIZE and BLOCK_SIZE are those of the superblock.config that is
    -- there already, or those of storage.config where none is, and make at least one block, whose number
    -- of blocks fills the bytes of its bitmap, where bitmap.bin is opened and mapped and no directory
    -- right below PUNTO_MONTAJE has the name of an entry of files/, ends with a coherent disk of blocks of
    -- that size and number, with the block of zeros as the block 0 of its content in the index of hashes,
    -- and with no lock.
    pub init-Coherente :
        (s : Fs) × (init config montaje ≡ hecho s)
        × Coherente s
        × (s.block_size ≡ block_size)
        × (s.blocks_count ≡ fs_size / block_size)
        × (valor hash s.hash_index ≡ some 0)
        × (s.locks_index ≡ [])
    init-Coherente =
        let c : Coherente disco = storage_fresh_start-Coherente fs_size block_size hay llena in
        (
          record listo_para_servir { locks_index = [] },
          iniciado,
          record {
            bloques = c.bloques;
            bits = c.bits;
            marcados = c.marcados;
            acordes = c.acordes;
            unicos = c.unicos;
          },
          de_bloque,
          de_cantidad,
          hash_cargado,
          refl,
        )
