-- ===== src/Storage/Commit.antt =====
-- storage/src/sotrage_files.c: storage_commit, storage_tag, storage_delete.
use Prim.Native.String.{String}
use tp_ssoo_2c.Base.{
  ℕ, zero, suc, ◌+◌, Bool, true, false, ◌&&◌, none, some, List, [], ◌∷◌, ltb, ◌==◌, length,
  get_elem?, set, if◌then◌else◌,
}
use tp_ssoo_2c.Codes.{RtaStorage, op_exitosa, not_def_err, err_inexistencia}
use tp_ssoo_2c.Storage.{
  FileTag, MetadataFile, work_in_progress, commited, listo, M, ◌>>=◌, ◌>>◌, pure, get, o_fallo,
}
use tp_ssoo_2c.Storage.FileSystem.{
  buscar, cambiar, quitar, st_nlink, unlink, link, storage_metadata_read, storage_metadata_write,
  blk_mutex,
}
use tp_ssoo_2c.Storage.Bitmap.{mark_block_free}
use tp_ssoo_2c.Storage.Hashes.{
  get_hash_from_block, block_asocied_to, load_hash_in_index, remove_hash,
}
use tp_ssoo_2c.Storage.Locks.{storage_wait, storage_signal, remove_lock}
use tp_ssoo_2c.Storage.Files.{storage_create}

-- The logical block is moved to the block that already holds its content.
unfoldable pub reasignar : FileTag → ℕ → ℕ → ℕ → MetadataFile → M MetadataFile
reasignar ft i actual_blk phys_blk meta = do
  unlink ft i
  blk_mutex phys_blk
  _ ← link phys_blk ft i
  if actual_blk == 0 then pure tt else mark_block_free actual_blk
  storage_metadata_write ft (record meta { blocks = set meta.blocks i phys_blk })
  pure (record meta { blocks = set meta.blocks i phys_blk })

module _ (crypto_md5 : List ℕ → String) where
  -- One round of the `for` of storage_commit.
  unfoldable pub commit_bloque : FileTag → ℕ → MetadataFile → M MetadataFile
  unfolding reasignar
  commit_bloque ft i meta = do
    actual_blk ← o_fallo (get_elem? meta.blocks i)
    blk_mutex actual_blk
    hash ← get_hash_from_block crypto_md5 ft i
    phys_blk ← block_asocied_to hash
    elim phys_blk [
      | none ↦ do load_hash_in_index hash actual_blk; pure meta
      | some p ↦ if p == actual_blk then pure meta else reasignar ft i actual_blk p meta
    ]

  unfoldable pub commit_bloques : FileTag → ℕ → ℕ → MetadataFile → M MetadataFile
  commit_bloques ft zero i meta = pure meta
  commit_bloques ft (suc n) i meta = do
    meta' ← commit_bloque ft i meta
    commit_bloques ft n (i + 1) meta'

  unfoldable pub storage_commit : FileTag → M RtaStorage
  storage_commit ft = do
    storage_wait ft
    metadata ← storage_metadata_read ft
    elim metadata [
      | none ↦ do storage_signal ft; pure err_inexistencia
      | some meta ↦ do
        meta' ← commit_bloques ft (length meta.blocks) 0 meta
        storage_metadata_write ft (record meta' { estado = commited })
        storage_signal ft
        pure op_exitosa
    ]

  -- One round of the `for` of storage_delete.
  unfoldable pub delete_bloque : FileTag → ℕ → List ℕ → M (Unit {0})
  delete_bloque ft i blocks = do
    blk_num ← o_fallo (get_elem? blocks i)
    blk_mutex blk_num
    hash ← get_hash_from_block crypto_md5 ft i
    unlink ft i
    s ← get
    if blk_num == 0
        then pure tt
        else if ltb (st_nlink blk_num s) 2
        then (do remove_hash hash; mark_block_free blk_num)
        else pure tt

  unfoldable pub delete_bloques : FileTag → ℕ → ℕ → List ℕ → M (Unit {0})
  delete_bloques ft zero i blocks = pure tt
  delete_bloques ft (suc n) i blocks = do
    delete_bloque ft i blocks
    delete_bloques ft n (i + 1) blocks

-- `remove` of metadata.config, then `rmdir`, which only takes away what is empty.
unfoldable pub borrar_directorio : FileTag → M (Unit {0})
borrar_directorio ft s = elim (buscar ft s.files) [
  | none ↦ listo tt s
  | some d ↦ elim d.logical_blocks [
    | [] ↦ listo tt (record s { files = quitar ft s.files })
    | _ ∷ _ ↦ listo tt (record s { files = cambiar ft (λ e. record e { metadata = none }) s.files })
  ]
]

module _ (string_equals_ignore_case : String → String → Bool) (crypto_md5 : List ℕ → String) where
  unfoldable pub storage_delete : FileTag → M RtaStorage
  storage_delete ft =
      if string_equals_ignore_case ft.0 "initial_file" && string_equals_ignore_case ft.1 "BASE"
      then pure not_def_err
      else (do
        storage_wait ft
        meta ← storage_metadata_read ft
        elim meta [
          | none ↦ do storage_signal ft; pure err_inexistencia
          | some meta ↦ do
            delete_bloques crypto_md5 ft (length meta.blocks) 0 meta.blocks
            borrar_directorio ft
            remove_lock ft
            storage_signal ft
            pure op_exitosa
        ])

-- The `for` of storage_tag: false where a `link` fails.
unfoldable pub enlazar_todos : FileTag → ℕ → List ℕ → M Bool
enlazar_todos ft i [] = pure true
enlazar_todos ft i (blk_num ∷ blks) = do
  blk_mutex blk_num
  r ← link blk_num ft i
  elim r [ false ↦ pure false | true ↦ enlazar_todos ft (i + 1) blks ]

unfoldable pub tag_meta : FileTag → MetadataFile → M RtaStorage
tag_meta ft_n meta = do
  storage_wait ft_n
  storage_metadata_write ft_n (record meta { estado = work_in_progress })
  r ← enlazar_todos ft_n 0 meta.blocks
  elim r [ false ↦ pure not_def_err | true ↦ do storage_signal ft_n; pure op_exitosa ]

unfoldable pub storage_tag : Bool → FileTag → FileTag → M RtaStorage
unfolding tag_meta
storage_tag meta_abre ft_o ft_n = do
  result ← storage_create meta_abre ft_n
  elim result [
    | op_exitosa ↦ do
      storage_wait ft_o
      meta ← storage_metadata_read ft_o
      storage_signal ft_o
      elim meta [ none ↦ pure err_inexistencia | some meta ↦ tag_meta ft_n meta ]
    | error ↦ pure error
  ]
