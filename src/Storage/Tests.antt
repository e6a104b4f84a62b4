-- ===== src/Storage/Tests.antt =====
-- Runs on a disk of eight blocks of two bytes after a fresh start, and the theorems at such inputs.
use Prim.Native.String.{String}
use tp_ssoo_2c.Base.{
  ◌/◌, ℕ, ◌≡◌, refl, ◌⊎◌, take, inl, inr, true, false, Option, none, some, List, [], ◌∷◌, length,
  ◌==◌, if◌then◌else◌, arith,
}
use text.Mathlib.Text.{◌==◌ as str_eq}
use tp_ssoo_2c.Storage.Locks.Start.{
  Tipo, directorio, hecho, init_locks_index, NingunoArriba, init_locks_index-NingunoArriba,
}
use tp_ssoo_2c.Worker.Peer.{storage_almacen}
use tp_ssoo_2c.Worker.Kept.{Vuelve, storage_almacen-Vuelve}
use tp_ssoo_2c.Codes.{op_exitosa, err_fuera_limite, err_write_commited}
use tp_ssoo_2c.Storage.{
  FileTag, mismo, MetadataFile, work_in_progress, Fs, Res, listo, bloqueado, fallo,
}
use tp_ssoo_2c.Storage.FileSystem.{
  buscar, cambiar, destino, desenlazar, unlink, enlazable, link, storage_metadata_read,
  storage_metadata_write, blk_mutex, leer_bloque, destino_en, leer_logico,
}
use tp_ssoo_2c.Storage.Bitmap.{test_bit, find_free_block, mark_block_free}
use tp_ssoo_2c.Storage.Bitmap.Search.{Ocupados, Hallado, find_free_block-Hallado}
use tp_ssoo_2c.Storage.Hashes.{
  get_hash_from_block, get_hash_from_content, block_asocied_to, load_hash_in_index, remove_hash,
  valor,
}
use tp_ssoo_2c.Storage.Locks.{get_lock_of, storage_wait, storage_signal}
use tp_ssoo_2c.Storage.Locks.Balance.{Libre, sin_lock}
use tp_ssoo_2c.Storage.Files.{
  storage_write, storage_read, storage_truncate, truncate_meta, ajustar, crecer, dividir,
}
use tp_ssoo_2c.Storage.Commit.{storage_commit, commit_bloques, commit_bloque, reasignar}
use tp_ssoo_2c.Storage.Frame.{Marco}
use tp_ssoo_2c.Storage.Isolation.{truncate, ejecutar, ejecutar-Marco}
use tp_ssoo_2c.Storage.Contents.{metadata_de}
use tp_ssoo_2c.Storage.Contents.RoundTrip.{Coherente, Escrito, storage_write-Escrito}
use tp_ssoo_2c.Storage.Contents.Resized.{storage_truncate-redimensionar}
use tp_ssoo_2c.Storage.Contents.Refusals.{rechazo, storage_write-rechazo}
use tp_ssoo_2c.Storage.Contents.Sealed.{nada, y_luego, storage_commit_seals}
use tp_ssoo_2c.Storage.Contents.Read.{storage_read_limite}
use tp_ssoo_2c.Storage.Contents.Shared.{reasignar_libera_compartido}
use tp_ssoo_2c.Storage.FreshStart.{storage_fresh_start, initial_file, zero_block}
use tp_ssoo_2c.Storage.Start.{Config, Montaje, tamanos, init, init-Coherente}
use tp_ssoo_2c.Storage.Hashes.{valor}
use tp_ssoo_2c.Storage.FreshStart.Coherent.{storage_fresh_start-Coherente}

abbrev disco : Fs
disco = storage_fresh_start 16 2

abbrev base : MetadataFile
base = record { tamanio = 0; blocks = 0 ∷ []; estado = work_in_progress }

-- A stand-in for `crypto_md5` that tells the block of zeros from the others.
abbrev md5 : List ℕ → String
md5 [] = "vacio"
md5 (b ∷ _) = if b == b'0' then "ceros" else "otros"

-- The state in which a run ended.
abbrev estado_de : {A : Type 0} → Res A → Fs
estado_de (listo _ s) = s
estado_de bloqueado = disco
estado_de fallo = disco

disco-Libre : Libre initial_file disco.locks_index
unfolding storage_fresh_start get_lock_of
disco-Libre = sin_lock refl

disco-Coherente : Coherente disco
disco-Coherente = storage_fresh_start-Coherente 16 2 (omega arith) refl

disco-base : metadata_de initial_file disco ≡ some base
unfolding storage_fresh_start metadata_de buscar mismo
disco-base = refl

storage_write-Escrito_example :
    ((s' : Fs) × Escrito initial_file disco (65 ∷ 66 ∷ []) 0 s')
    ⊎ ((storage_write initial_file 0 (65 ∷ 66 ∷ []) disco ≡ fallo)
        × Ocupados disco.bitmap 1 (length disco.bitmap))
unfolding storage_fresh_start
storage_write-Escrito_example =
    storage_write-Escrito initial_file disco base (65 ∷ 66 ∷ []) 0 disco-Libre disco-Coherente
      disco-base refl refl (omega arith)

storage_write-rechazo_example :
    storage_write initial_file 3 (65 ∷ []) disco ≡ listo err_fuera_limite disco
unfolding rechazo metadata_de buscar mismo storage_fresh_start
storage_write-rechazo_example =
    storage_write-rechazo initial_file disco 3 (65 ∷ []) err_fuera_limite disco-Libre refl

storage_read_limite_example : storage_read initial_file 1 disco ≡ fallo
storage_read_limite_example =
    storage_read_limite initial_file disco disco-Libre base disco-base 1 refl

abbrev truncado : Fs
truncado = estado_de (ejecutar md5 initial_file (truncate 6) disco)

ejecutar-Marco_example : Marco initial_file disco truncado
unfolding ejecutar storage_truncate storage_wait get_lock_of storage_fresh_start
    storage_metadata_read buscar mismo truncate_meta dividir ajustar crecer blk_mutex link enlazable
    destino cambiar storage_metadata_write storage_signal
ejecutar-Marco_example =
    ejecutar-Marco md5 initial_file (truncate 6) disco truncado op_exitosa disco-Libre refl

find_free_block-Hallado_example :
    (r : Option ℕ) × (s' : Fs) × (find_free_block disco ≡ listo r s') × Hallado disco r s'
find_free_block-Hallado_example = find_free_block-Hallado disco

abbrev sellado : Fs
sellado = estado_de (storage_commit md5 initial_file disco)

sellado-Libre : Libre initial_file sellado.locks_index
unfolding storage_commit storage_wait get_lock_of storage_fresh_start storage_metadata_read buscar
    mismo commit_bloques commit_bloque blk_mutex get_hash_from_block get_hash_from_content
    leer_logico destino_en destino leer_bloque block_asocied_to load_hash_in_index cambiar
    storage_metadata_write storage_signal valor remove_hash
sellado-Libre = sin_lock refl

truncado_de_nuevo :
    ejecutar md5 initial_file (truncate 8) sellado ≡ listo err_write_commited sellado
unfolding ejecutar storage_truncate truncate_meta storage_commit storage_wait get_lock_of
    storage_fresh_start storage_metadata_read buscar mismo commit_bloques commit_bloque blk_mutex
    get_hash_from_block get_hash_from_content leer_logico destino_en destino leer_bloque
    block_asocied_to load_hash_in_index cambiar storage_metadata_write storage_signal valor
    remove_hash
truncado_de_nuevo = refl

storage_commit_seals_example :
    (op_exitosa ≡ op_exitosa)
    × (storage_write initial_file 0 (65 ∷ 66 ∷ []) sellado ≡ listo err_write_commited sellado)
    × (storage_truncate initial_file 4 sellado ≡ listo err_write_commited sellado)
unfolding storage_commit storage_wait get_lock_of storage_fresh_start storage_metadata_read buscar
    mismo commit_bloques commit_bloque blk_mutex get_hash_from_block get_hash_from_content
    leer_logico destino_en destino leer_bloque block_asocied_to load_hash_in_index cambiar
    storage_metadata_write storage_signal valor remove_hash
storage_commit_seals_example =
    storage_commit_seals md5 initial_file disco sellado sellado base op_exitosa 0 4 (65 ∷ 66 ∷ [])
      disco-Libre disco-base refl
      (y_luego initial_file (truncate 8) err_write_commited nada sellado-Libre truncado_de_nuevo)

abbrev archivo_a : FileTag
archivo_a = ("a", "uno")

abbrev archivo_b : FileTag
archivo_b = ("b", "uno")

abbrev en_bloque_1 : MetadataFile
en_bloque_1 = record { tamanio = 2; blocks = 1 ∷ []; estado = work_in_progress }

-- Two File:Tags, the second tagged from the first, share the block 1; block 2 has its content too.
abbrev compartido : Fs
compartido = record {
  block_size = 2;
  blocks_count = 8;
  bitmap = true ∷ true ∷ true ∷ false ∷ false ∷ false ∷ false ∷ false ∷ [];
  physical_blocks =
      (48 ∷ 48 ∷ [])
      ∷ (65 ∷ 66 ∷ [])
      ∷ (65 ∷ 66 ∷ [])
      ∷ (48 ∷ 48 ∷ [])
      ∷ (48 ∷ 48 ∷ [])
      ∷ (48 ∷ 48 ∷ [])
      ∷ (48 ∷ 48 ∷ [])
      ∷ (48 ∷ 48 ∷ [])
      ∷ [];
  files =
      record { nombre = archivo_a; metadata = some en_bloque_1; logical_blocks = (0, 1) ∷ [] }
      ∷ record { nombre = archivo_b; metadata = some en_bloque_1; logical_blocks = (0, 1) ∷ [] }
      ∷ [];
  hash_index = ("otros", 2) ∷ [];
  locks_index = [];
}

abbrev movido : Fs
movido = estado_de (reasignar archivo_a 0 1 2 en_bloque_1 compartido)

reasignar_libera_compartido_example :
    (test_bit movido.bitmap 1 ≡ false) × (destino_en archivo_b 0 movido ≡ some 1)
unfolding reasignar unlink cambiar mismo desenlazar blk_mutex link enlazable buscar destino
    mark_block_free storage_metadata_write destino_en
reasignar_libera_compartido_example =
    reasignar_libera_compartido archivo_a archivo_b 0 0 1 2 en_bloque_1
      (record en_bloque_1 { blocks = 2 ∷ [] }) compartido movido refl (omega arith) (omega arith)
      refl refl

storage_truncate-redimensionar_example :
    (s' : Fs) × (storage_truncate initial_file 6 disco ≡ listo op_exitosa s')
    × (metadata_de initial_file s' ≡ some (record base { tamanio = 6; blocks = 0 ∷ 0 ∷ 0 ∷ [] }))
    × (s'.locks_index ≡ disco.locks_index)
    × ((g : FileTag) → mismo initial_file g ≡ false → buscar g s'.files ≡ buscar g disco.files)
unfolding storage_fresh_start
storage_truncate-redimensionar_example =
    storage_truncate-redimensionar initial_file disco base 6 disco-Libre disco-Coherente
      (omega arith) (omega arith) disco-base refl

storage_almacen-Vuelve_example :
    Vuelve (storage_almacen str_eq md5) initial_file 0 (65 ∷ 66 ∷ []) disco
    ⊎ Ocupados disco.bitmap 1 (length disco.bitmap)
unfolding storage_fresh_start
storage_almacen-Vuelve_example =
    storage_almacen-Vuelve str_eq md5 initial_file disco base (65 ∷ 66 ∷ []) 0 disco-Libre
      disco-Coherente disco-base refl refl (omega arith)

-- The mount point of a fresh start, whose directory files/ has one entry.
abbrev abrir : String → Option (List String)
abrir path = if str_eq path "mnt/files" then some ("." ∷ "initial_file" ∷ []) else none

abbrev consultar : String → Option Tipo
consultar path =
    if str_eq path "mnt/files"
    then some directorio
    else if str_eq path "mnt/."
    then some directorio
    else none

abbrev unir : String → String → String
unir path nombre =
    if str_eq nombre "files"
    then "mnt/files"
    else if str_eq nombre "."
    then "mnt/."
    else "mnt/initial_file"

init_locks_index-NingunoArriba_example :
    (init_locks_index unir abrir consultar "mnt" ≡ hecho [])
    × ((s : Fs) (ft : FileTag)
        → storage_wait ft (record s { locks_index = [] })
          ≡ listo tt (record s { locks_index = [] }))
unfolding NingunoArriba
init_locks_index-NingunoArriba_example =
    init_locks_index-NingunoArriba unir abrir consultar "mnt" ("." ∷ "initial_file" ∷ []) refl
      (inl refl, (inr refl, tt))

abbrev config : Config
config = record { fresh_start = "TRUE"; fs_size = 64; block_size = 8; punto_montaje = "mnt" }

-- A superblock.config of an earlier start, with other sizes.
abbrev con_superblock : Montaje
con_superblock = record { superblock = some (32, 4); disco = disco }

init-Coherente_example :
    (s : Fs) × (init unir abrir consultar str_eq md5 true true config con_superblock ≡ hecho s)
    × Coherente s
    × (s.block_size ≡ 4)
    × (s.blocks_count ≡ 32 / 4)
    × (valor (md5 (take 4 (zero_block 4))) s.hash_index ≡ some 0)
    × (s.locks_index ≡ [])
unfolding NingunoArriba tamanos
init-Coherente_example =
    init-Coherente unir abrir consultar str_eq md5 true true config con_superblock 32 4
      ("." ∷ "initial_file" ∷ []) refl refl (omega arith) (ground arith) refl refl refl refl
      (inl refl, (inr refl, tt))
