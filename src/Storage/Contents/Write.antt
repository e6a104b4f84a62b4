-- ===== src/Storage/Contents/Write.antt =====
-- storage_write and storage_read (storage/src/sotrage_files.c) from a free lock, by their branches.
use tp_ssoo_2c.Base.{
  ℕ, ◌-◌, ◌≤◌, ◌<◌, ◌≡◌, refl, ◌∙◌, true, false, ◌||◌, none, some, List, ◌∷◌, length, get_elem?,
  set, take, ltb, ◌==◌, lt→ltb, le→leb, lt→leb-false, if◌then◌else◌,
}
use tp_ssoo_2c.Codes.{op_exitosa, err_inexistencia, err_write_commited, err_fuera_limite}
use tp_ssoo_2c.Storage.{
  FileTag, MetadataFile, Directorio, work_in_progress, commited, Fs, listo, fallo, ◌>>◌, pure,
  bind_listo,
}
use tp_ssoo_2c.Storage.Bitmap.{find_free_block, buscar_libre}
use tp_ssoo_2c.Storage.Bitmap.Search.{find_free_block-none, find_free_block-some}
use tp_ssoo_2c.Storage.FileSystem.{
  cambiar, desenlazar, st_nlink, enlazable, link, unlink, storage_metadata_write, blk_mutex,
  escribir_bloque,
}
use tp_ssoo_2c.Storage.Locks.{storage_signal}
use tp_ssoo_2c.Storage.Locks.Balance.{Libre}
use tp_ssoo_2c.Storage.Files.{escribir_en_nuevo, write_meta, storage_write}
use tp_ssoo_2c.Storage.Contents.{metadata_de, tomar, abrir, soltar}

pub blk_mutex_ok : (p : ℕ) (s : Fs) → p < s.blocks_count → blk_mutex p s ≡ listo tt s
unfolding blk_mutex
blk_mutex_ok p s h = rw (lt→ltb p s.blocks_count h)

pub link_ok :
    (p : ℕ) (ft : FileTag) (i : ℕ) (s : Fs)
    → enlazable p ft i s ≡ true
    → link p ft i s
      ≡ listo true (record s {
        files = cambiar ft (λ d. record d { logical_blocks = (i, p) ∷ d.logical_blocks }) s.files;
      })
unfolding link
link_ok p ft i s h = rw h

module _ (ft : FileTag) (s : Fs) (libre : Libre ft s.locks_index) where
  write_abierto :
      (i : ℕ) (buffer : List ℕ) (meta : MetadataFile)
      → metadata_de ft s ≡ some meta
      → storage_write ft i buffer s ≡ write_meta ft i (take s.block_size buffer) meta (tomar ft s)
  unfolding storage_write
  write_abierto i buffer meta e = abrir ft _ s (some meta) libre e

  pub write_inexistente :
      (i : ℕ) (buffer : List ℕ)
      → metadata_de ft s ≡ none
      → storage_write ft i buffer s ≡ listo err_inexistencia s
  unfolding storage_write
  write_inexistente i buffer e =
      abrir ft _ s none libre e ∙ soltar ft _ s.locks_index (tomar ft s) libre refl

  module _ (meta : MetadataFile) (e : metadata_de ft s ≡ some meta) where
    pub write_commited :
        (i : ℕ) (buffer : List ℕ)
        → meta.estado ≡ commited
        → storage_write ft i buffer s ≡ listo err_write_commited s
    unfolding write_meta
    write_commited i buffer c =
        write_abierto i buffer meta e
        ∙ rw (c, write_meta) (soltar ft _ s.locks_index (tomar ft s) libre refl)

    pub write_fuera :
        (i : ℕ) (buffer : List ℕ)
        → meta.estado ≡ work_in_progress
        → length meta.blocks ≤ i
        → storage_write ft i buffer s ≡ listo err_fuera_limite s
    unfolding write_meta
    write_fuera i buffer c h =
        write_abierto i buffer meta e
        ∙ rw (c, write_meta, le→leb (length meta.blocks) i h)
            (soltar ft _ s.locks_index (tomar ft s) libre refl)

    -- Up to the choice of the block to write to.
    write_elegir :
        (i p : ℕ) (buffer : List ℕ)
        → meta.estado ≡ work_in_progress
        → get_elem? meta.blocks i ≡ some p
        → i < length meta.blocks
        → p < s.blocks_count
        → storage_write ft i buffer s
          ≡ (if p == 0 || ltb 2 (st_nlink p s)
                then escribir_en_nuevo ft i meta (take s.block_size buffer)
                else (do
                  escribir_bloque p (take s.block_size buffer)
                  storage_signal ft
                  pure op_exitosa))
              (tomar ft s)
    unfolding write_meta st_nlink
    write_elegir i p buffer c g b h =
        write_abierto i buffer meta e
        ∙ rw (c, write_meta, lt→leb-false i (length meta.blocks) b, g)
            (bind_listo (blk_mutex p) _ (tomar ft s) (tomar ft s) tt
              (blk_mutex_ok p (tomar ft s) h))

    -- A block of its own, used by nobody else, is written in place.
    pub write_propio :
        (i p : ℕ) (buffer : List ℕ)
        → meta.estado ≡ work_in_progress
        → get_elem? meta.blocks i ≡ some p
        → i < length meta.blocks
        → p < s.blocks_count
        → (p == 0 || ltb 2 (st_nlink p s)) ≡ false
        → storage_write ft i buffer s
          ≡ listo op_exitosa
              (record s { physical_blocks = set s.physical_blocks p (take s.block_size buffer) })
    unfolding escribir_bloque
    write_propio i p buffer c g b h n =
        write_elegir i p buffer c g b h
        ∙ rw n (
            soltar ft (pure op_exitosa) s.locks_index
              (record (tomar ft s) {
                physical_blocks = set s.physical_blocks p (take s.block_size buffer);
              })
              libre refl)

    write_compartido :
        (i p : ℕ) (buffer : List ℕ)
        → meta.estado ≡ work_in_progress
        → get_elem? meta.blocks i ≡ some p
        → i < length meta.blocks
        → p < s.blocks_count
        → (p == 0 || ltb 2 (st_nlink p s)) ≡ true
        → storage_write ft i buffer s
          ≡ escribir_en_nuevo ft i meta (take s.block_size buffer) (tomar ft s)
    write_compartido i p buffer c g b h n = write_elegir i p buffer c g b h ∙ rw n

    -- Without a free block it faults.
    pub write_lleno :
        (i p : ℕ) (buffer : List ℕ)
        → meta.estado ≡ work_in_progress
        → get_elem? meta.blocks i ≡ some p
        → i < length meta.blocks
        → p < s.blocks_count
        → (p == 0 || ltb 2 (st_nlink p s)) ≡ true
        → buscar_libre (length s.bitmap - 1) 1 s.bitmap ≡ none
        → storage_write ft i buffer s ≡ fallo
    unfolding escribir_en_nuevo
    write_lleno i p buffer c g b h n f =
        write_compartido i p buffer c g b h n
        ∙ (bind_listo find_free_block _ (tomar ft s) (tomar ft s) none
            (find_free_block-none (tomar ft s) f))

    -- The directories without the old link and with the new block in metadata.config.
    unfoldable pub sin_enlace : ℕ → ℕ → List Directorio
    sin_enlace i q =
        cambiar ft
          (λ d. record d { metadata = some (record meta { blocks = set meta.blocks i q }) })
          (cambiar ft (λ d. record d { logical_blocks = desenlazar i d.logical_blocks }) s.files)

    -- The state after the copy to the free block `q`.
    abbrev pub copiado : ℕ → ℕ → List ℕ → Fs
    copiado i q contenido = record s {
      bitmap = set s.bitmap q true;
      files =
          cambiar ft (λ d. record d { logical_blocks = (i, q) ∷ d.logical_blocks })
            (sin_enlace i q);
      physical_blocks = set s.physical_blocks q contenido;
    }

    -- A shared block, or block 0, is left as it is: the content goes to the lowest free block.
    pub write_copia :
        (i p q : ℕ) (buffer : List ℕ)
        → meta.estado ≡ work_in_progress
        → get_elem? meta.blocks i ≡ some p
        → i < length meta.blocks
        → p < s.blocks_count
        → (p == 0 || ltb 2 (st_nlink p s)) ≡ true
        → buscar_libre (length s.bitmap - 1) 1 s.bitmap ≡ some q
        → q < s.blocks_count
        → enlazable q ft i (record s { files = sin_enlace i q }) ≡ true
        → storage_write ft i buffer s ≡ listo op_exitosa (copiado i q (take s.block_size buffer))
    unfolding escribir_en_nuevo sin_enlace unlink storage_metadata_write escribir_bloque enlazable
    write_copia i p q buffer c g b h n f hq en =
        let contenido = take s.block_size buffer in
        let s1 : Fs = record (tomar ft s) { bitmap = set s.bitmap q true } in
        let s2 : Fs = record s1 { files = sin_enlace i q } in
        let s3 : Fs = record s2 {
          files =
              cambiar ft (λ d. record d { logical_blocks = (i, q) ∷ d.logical_blocks })
                (sin_enlace i q);
        } in
        let s4 : Fs = record s3 { physical_blocks = set s.physical_blocks q contenido } in
        write_compartido i p buffer c g b h n
        ∙ (bind_listo find_free_block _ (tomar ft s) s1 (some q)
              (find_free_block-some (tomar ft s) q f)
            ∙ (bind_listo (blk_mutex q) _ s2 s2 tt (blk_mutex_ok q s2 hq)
                ∙ (bind_listo (link q ft i) _ s2 s3 true (link_ok q ft i s2 en)
                    ∙ soltar ft (pure op_exitosa) s.locks_index s4 libre refl)))
