-- ===== src/Storage/Files.antt =====
-- storage/src/sotrage_files.c: storage_create, storage_truncate, storage_write, storage_read. Sizes,
-- logical and physical block numbers are natural numbers (the workers send none below zero), and
-- the pauses and the log are left out.
use tp_ssoo_2c.Base.{
  ℕ, zero, suc, ◌-◌, ◌/◌, Bool, true, false, ◌||◌, Option, none, some, List, [], ◌∷◌, ◌++◌, ltb,
  leb, ◌==◌, length, get_elem?, set, take, if◌then◌else◌,
}
use tp_ssoo_2c.Codes.{
  RtaStorage, op_exitosa, not_def_err, err_inexistencia, err_preexistencia, err_write_commited,
  err_fuera_limite,
}
use tp_ssoo_2c.Storage.{
  FileTag, MetadataFile, work_in_progress, commited, listo, fallo, M, ◌>>=◌, ◌>>◌, pure, get,
  o_fallo,
}
use tp_ssoo_2c.Storage.FileSystem.{
  buscar, st_nlink, unlink, link, storage_metadata_read, storage_metadata_write, blk_mutex,
  leer_bloque, escribir_bloque,
}
use tp_ssoo_2c.Storage.Bitmap.{find_free_block, mark_block_free}
use tp_ssoo_2c.Storage.Locks.{storage_wait, storage_signal, add_lock}

-- `mkdir` of the directory of the File:Tag and of logical_blocks; false where it exists.
unfoldable pub mkdir : FileTag → M Bool
mkdir ft s = elim (buscar ft s.files) [
  | some _ ↦ listo false s
  | none ↦
      listo true (record s {
        files = record { nombre = ft; metadata = none; logical_blocks = [] } ∷ s.files;
      })
]

abbrev pub metadata_vacia : MetadataFile
metadata_vacia = record { tamanio = 0; blocks = []; estado = work_in_progress }

-- `meta_abre` is the answer of the operating system to `fopen` of the new metadata.config.
unfoldable pub storage_create : Bool → FileTag → M RtaStorage
storage_create meta_abre ft = do
  nuevo ← mkdir ft
  elim nuevo [
    | false ↦ pure err_preexistencia
    | true ↦ elim meta_abre [
      | false ↦ pure not_def_err
      | true ↦ do storage_metadata_write ft metadata_vacia; add_lock ft; pure op_exitosa
    ]
  ]

-- The `for` of storage_truncate that adds blocks: rounds left, and the blocks so far.
unfoldable pub crecer : FileTag → ℕ → List ℕ → M (List ℕ)
crecer ft zero blocks = pure blocks
crecer ft (suc n) blocks = do
  blk_mutex 0
  _ ← link 0 ft (length blocks)
  crecer ft n (blocks ++ 0 ∷ [])

-- After the `unlink` of a logical block of `p`.
unfoldable pub liberar_si_ultimo : ℕ → M (Unit {0})
liberar_si_ultimo p = do
  s ← get
  if p == 0 then pure tt else if ltb (st_nlink p s) 2 then mark_block_free p else pure tt

-- The `for` that takes blocks off the end.
unfoldable pub encoger : FileTag → ℕ → List ℕ → M (List ℕ)
encoger ft zero blocks = pure blocks
encoger ft (suc n) blocks = do
  let last_index = length blocks - 1
  block_to_free ← o_fallo (get_elem? blocks last_index)
  blk_mutex block_to_free
  unlink ft last_index
  liberar_si_ultimo block_to_free
  encoger ft n (take last_index blocks)

-- The two `if`s of storage_truncate over the number of blocks.
unfoldable pub ajustar : FileTag → ℕ → List ℕ → M (List ℕ)
ajustar ft needed_blocks blocks =
    if ltb (length blocks) needed_blocks
    then crecer ft (needed_blocks - length blocks) blocks
    else if ltb needed_blocks (length blocks)
    then encoger ft (length blocks - needed_blocks) blocks
    else pure blocks

-- Division by a BLOCK_SIZE of 0 faults.
unfoldable pub dividir : ℕ → M ℕ
dividir n s = if s.block_size == 0 then fallo else listo (n / s.block_size) s

unfoldable pub truncate_meta : FileTag → ℕ → MetadataFile → M RtaStorage
truncate_meta ft new_size meta = elim meta.estado [
  | commited ↦ do storage_signal ft; pure err_write_commited
  | work_in_progress ↦ do
    needed_blocks ← dividir new_size
    blocks ← ajustar ft needed_blocks meta.blocks
    storage_metadata_write ft (record meta { tamanio = new_size; blocks = blocks })
    storage_signal ft
    pure op_exitosa
]

unfoldable pub storage_truncate : FileTag → ℕ → M RtaStorage
unfolding truncate_meta
storage_truncate ft new_size = do
  storage_wait ft
  meta ← storage_metadata_read ft
  elim meta [
    | none ↦ do storage_signal ft; pure err_inexistencia
    | some meta ↦ truncate_meta ft new_size meta
  ]

-- The copy of storage_write to a new block, where others share the old one. Without a free block it
-- frees `phys_path` a second time, which ends in a fault and not in ERR_ESP_INSUFICIENTE.
unfoldable pub escribir_en_nuevo : FileTag → ℕ → MetadataFile → List ℕ → M RtaStorage
escribir_en_nuevo ft l_block_num meta buffer = do
  libre ← find_free_block
  elim libre [
    | none ↦ o_fallo none
    | some p_block_num ↦ do
      unlink ft l_block_num
      storage_metadata_write ft (record meta { blocks = set meta.blocks l_block_num p_block_num })
      blk_mutex p_block_num
      _ ← link p_block_num ft l_block_num
      escribir_bloque p_block_num buffer
      storage_signal ft
      pure op_exitosa
  ]

unfoldable pub write_meta : FileTag → ℕ → List ℕ → MetadataFile → M RtaStorage
unfolding escribir_en_nuevo
write_meta ft l_block_num buffer meta = elim meta.estado [
  | commited ↦ do storage_signal ft; pure err_write_commited
  | work_in_progress ↦
      if leb (length meta.blocks) l_block_num
      then (do storage_signal ft; pure err_fuera_limite)
      else (do
        p_block_num ← o_fallo (get_elem? meta.blocks l_block_num)
        blk_mutex p_block_num
        s ← get
        if p_block_num == 0 || ltb 2 (st_nlink p_block_num s)
            then escribir_en_nuevo ft l_block_num meta buffer
            else (do escribir_bloque p_block_num buffer; storage_signal ft; pure op_exitosa))
]

-- `buffer` is read up to BLOCK_SIZE.
unfoldable pub storage_write : FileTag → ℕ → List ℕ → M RtaStorage
unfolding write_meta
storage_write ft l_block_num buffer = do
  storage_wait ft
  meta ← storage_metadata_read ft
  s ← get
  elim meta [
    | none ↦ do storage_signal ft; pure err_inexistencia
    | some meta ↦ write_meta ft l_block_num (take s.block_size buffer) meta
  ]

-- The result, and what was read into the buffer.
unfoldable pub read_meta : FileTag → ℕ → MetadataFile → M (RtaStorage × Option (List ℕ))
read_meta ft l_block_num meta =
    if ltb (length meta.blocks) l_block_num
    then (do storage_signal ft; pure (err_fuera_limite, none))
    else (do
      p_block_num ← o_fallo (get_elem? meta.blocks l_block_num)
      storage_signal ft
      blk_mutex p_block_num
      s ← get
      contenido ← leer_bloque p_block_num
      pure (op_exitosa, some (take s.block_size contenido)))

unfoldable pub storage_read : FileTag → ℕ → M (RtaStorage × Option (List ℕ))
unfolding read_meta
storage_read ft l_block_num = do
  storage_wait ft
  meta ← storage_metadata_read ft
  elim meta [
    | none ↦ do storage_signal ft; pure (err_inexistencia, none)
    | some meta ↦ read_meta ft l_block_num meta
  ]
