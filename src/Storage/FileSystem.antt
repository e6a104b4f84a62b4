-- ===== src/Storage/FileSystem.antt =====
-- The calls of the operating system that the storage makes on its tree: mkdir, link, unlink, stat,
-- rmdir, fopen on a block; and metadata.config read and written (storage_metadata_read,
-- storage_metadata_write of storage/src/sotrage_files.c).
pub mod Lookup
use tp_ssoo_2c.Base.{
  ℕ, zero, suc, ◌+◌, ◌-◌, Bool, true, false, not, ◌&&◌, Option, none, some, List, [], ◌∷◌, ◌++◌,
  ltb, ◌==◌, length, get_elem?, set, if◌then◌else◌,
}
use tp_ssoo_2c.Storage.{
  FileTag, mismo, MetadataFile, Directorio, Fs, Res, listo, fallo, bloqueado, M, ◌>>=◌, ◌>>◌, pure,
  get, put, o_fallo,
}

-- The directory of a File:Tag, and a change to it.
unfoldable pub buscar : FileTag → List Directorio → Option Directorio
buscar ft [] = none
buscar ft (d ∷ ds) = if mismo d.nombre ft then some d else buscar ft ds

unfoldable pub cambiar : FileTag → (Directorio → Directorio) → List Directorio → List Directorio
cambiar ft f [] = []
cambiar ft f (d ∷ ds) = if mismo d.nombre ft then f d ∷ ds else d ∷ cambiar ft f ds

unfoldable pub quitar : FileTag → List Directorio → List Directorio
quitar ft [] = []
quitar ft (d ∷ ds) = if mismo d.nombre ft then ds else d ∷ quitar ft ds

-- The hard links of one directory.
unfoldable pub destino : ℕ → List (ℕ × ℕ) → Option ℕ
destino i [] = none
destino i ((j, p) ∷ ls) = if j == i then some p else destino i ls

unfoldable pub desenlazar : ℕ → List (ℕ × ℕ) → List (ℕ × ℕ)
desenlazar i [] = []
desenlazar i ((j, p) ∷ ls) = if j == i then ls else (j, p) ∷ desenlazar i ls

unfoldable pub contar : ℕ → List (ℕ × ℕ) → ℕ
contar p [] = 0
contar p ((j, q) ∷ ls) = (if q == p then 1 else 0) + contar p ls

unfoldable pub enlaces : ℕ → List Directorio → ℕ
enlaces p [] = 0
enlaces p (d ∷ ds) = contar p d.logical_blocks + enlaces p ds

-- `stat(…).st_nlink` of a physical block: its own name, and the logical blocks.
unfoldable pub st_nlink : ℕ → Fs → ℕ
st_nlink p s = 1 + enlaces p s.files

-- `unlink` of logical_blocks/<i>.dat; its result is not looked at.
unfoldable pub unlink : FileTag → ℕ → M (Unit {0})
unlink ft i s = listo tt (record s {
  files = cambiar ft (λ d. record d { logical_blocks = desenlazar i d.logical_blocks }) s.files;
})

es_libre : Option ℕ → Bool
es_libre none = true
es_libre (some _) = false

-- Whether `link` of a physical block as logical_blocks/<i>.dat is possible: the block is there, the
-- directory is there, and the name is free.
unfoldable pub enlazable : ℕ → FileTag → ℕ → Fs → Bool
unfolding es_libre
enlazable p ft i s = elim (buscar ft s.files) [
  | none ↦ false
  | some d ↦ ltb p (length s.physical_blocks) && es_libre (destino i d.logical_blocks)
]

-- `link`: true for the result 0.
unfoldable pub link : ℕ → FileTag → ℕ → M Bool
link p ft i s =
    if enlazable p ft i s
    then listo true (record s {
      files = cambiar ft (λ d. record d { logical_blocks = (i, p) ∷ d.logical_blocks }) s.files;
    })
    else listo false s

-- NULL where metadata.config cannot be opened.
unfoldable pub storage_metadata_read : FileTag → M (Option MetadataFile)
storage_metadata_read ft s =
    listo (elim (buscar ft s.files) [ none ↦ none | some d ↦ d.metadata ]) s

-- Nothing is written where the directory is not there.
unfoldable pub storage_metadata_write : FileTag → MetadataFile → M (Unit {0})
storage_metadata_write ft meta s =
    listo tt (record s { files = cambiar ft (λ d. record d { metadata = some meta }) s.files })

-- `list_get(blk_mutex_list, p)`, `sem_wait` and the later `sem_post`: in one operation at a time the
-- mutex is free, and what remains is that a block beyond the list has no mutex.
unfoldable pub blk_mutex : ℕ → M (Unit {0})
blk_mutex p s = if ltb p s.blocks_count then listo tt s else fallo

-- `fopen` and `fread` on physical_blocks/block<p>.dat, and on logical_blocks/<i>.dat.
unfoldable pub leer_bloque : ℕ → M (List ℕ)
leer_bloque p s = o_fallo (get_elem? s.physical_blocks p) s

unfoldable pub escribir_bloque : ℕ → List ℕ → M (Unit {0})
escribir_bloque p contenido s =
    listo tt (record s { physical_blocks = set s.physical_blocks p contenido })

unfoldable pub destino_en : FileTag → ℕ → Fs → Option ℕ
destino_en ft i s = elim (buscar ft s.files) [ none ↦ none | some d ↦ destino i d.logical_blocks ]

unfoldable pub leer_logico : FileTag → ℕ → M (List ℕ)
leer_logico ft i = do s ← get; p ← o_fallo (destino_en ft i s); leer_bloque p
