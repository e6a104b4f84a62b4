-- ===== src/Storage/Frame/Operations.antt =====
-- The operations of storage/src/sotrage_files.c and their loops, against the frame.
use Prim.Native.String.{String}
use tp_ssoo_2c.Base.{
  ℕ, zero, suc, ◌+◌, ◌/◌, ◌≡◌, Bool, true, false, ◌||◌, Option, none, some, List, [], ◌∷◌, ◌++◌,
  length, set, ltb, leb, ◌==◌, if◌then◌else◌, arith,
}
use tp_ssoo_2c.Codes.{RtaStorage, op_exitosa, err_write_commited, err_fuera_limite}
use tp_ssoo_2c.Storage.{
  FileTag, MetadataFile, Situacion, work_in_progress, commited, Fs, Res, listo, fallo, ◌>>=◌, ◌>>◌,
  pure, o_fallo,
}
use tp_ssoo_2c.Storage.FileSystem.{
  st_nlink, unlink, link, blk_mutex, storage_metadata_write, escribir_bloque,
}
use tp_ssoo_2c.Storage.Hashes.{load_hash_in_index}
use tp_ssoo_2c.Storage.Locks.{storage_signal}
use tp_ssoo_2c.Storage.Files.{
  crecer, liberar_si_ultimo, encoger, ajustar, dividir, truncate_meta, escribir_en_nuevo,
  write_meta,
}
use tp_ssoo_2c.Storage.Commit.{reasignar, commit_bloque, commit_bloques}
use tp_ssoo_2c.Storage.Frame.{
  Marco, Marco_refl, Conserva, conserva, Conserva-bind, Conserva-pure, Conserva-get,
  Conserva-o_fallo, Conserva-if, listo_marco,
}
use tp_ssoo_2c.Storage.Frame.Calls.{
  unlink-Conserva, metadata_write-Conserva, link-Conserva, blk_mutex-Conserva,
  escribir_bloque-Conserva, mark_block_free-Conserva, find_free_block-Conserva, load_hash-Conserva,
  block_asocied_to-Conserva, get_hash_from_block-Conserva,
}
use tp_ssoo_2c.Storage.Frame.Locked.{Cierra-fallo, Cierra, Cierra-bind, Cierra-signal, Cierra-if}

module _ (ft : FileTag) where
  pub crecer-Conserva : (n : ℕ) (blocks : List ℕ) → Conserva ft (crecer ft n blocks)
  unfolding crecer
  crecer-Conserva zero blocks = Conserva-pure ft blocks
  crecer-Conserva (suc n) blocks = Conserva-bind ft _ _ (blk_mutex-Conserva ft 0) λ _.
      Conserva-bind ft _ _ (link-Conserva ft 0 (length blocks))
        λ _. crecer-Conserva n (blocks ++ 0 ∷ [])

  liberar_si_ultimo-Conserva : (p : ℕ) → Conserva ft (liberar_si_ultimo p)
  unfolding liberar_si_ultimo
  liberar_si_ultimo-Conserva p = Conserva-bind ft _ _ (Conserva-get ft) λ s.
      Conserva-if ft (p == 0) _ _ (Conserva-pure ft tt) (
        Conserva-if ft (ltb (st_nlink p s) 2) _ _ (mark_block_free-Conserva ft p)
          (Conserva-pure ft tt))

  pub encoger-Conserva : (n : ℕ) (blocks : List ℕ) → Conserva ft (encoger ft n blocks)
  unfolding encoger
  encoger-Conserva zero blocks = Conserva-pure ft blocks
  encoger-Conserva (suc n) blocks = Conserva-bind ft _ _ (Conserva-o_fallo ft _) λ p.
      Conserva-bind ft _ _ (blk_mutex-Conserva ft p) λ _.
        Conserva-bind ft _ _ (unlink-Conserva ft _)
          λ _. Conserva-bind ft _ _ (liberar_si_ultimo-Conserva p) λ _. encoger-Conserva n _

  pub ajustar-Conserva : (n : ℕ) (blocks : List ℕ) → Conserva ft (ajustar ft n blocks)
  unfolding ajustar
  ajustar-Conserva n blocks =
      Conserva-if ft (ltb (length blocks) n) _ _ (crecer-Conserva _ blocks) (
        Conserva-if ft (ltb n (length blocks)) _ _ (encoger-Conserva _ blocks)
          (Conserva-pure ft blocks))

  dividir_marco :
      (s s' : Fs) (c : Bool) (q b : ℕ)
      → ◌≡◌ {A = Res ℕ} (if c then fallo else listo q s) (listo b s')
      → Marco ft s s'
  dividir_marco s s' true q b h = ground arith
  dividir_marco s s' false q b h = listo_marco ft s s s' q b (Marco_refl ft s) h

  dividir-Conserva : (n : ℕ) → Conserva ft (dividir n)
  unfolding dividir
  dividir-Conserva n =
      conserva λ s s' b h. dividir_marco s s' (s.block_size == 0) (n / s.block_size) b h

  pub truncate_meta-Cierra :
      (n : ℕ) (meta : MetadataFile) (e : Situacion)
      → meta.estado ≡ e
      → Cierra ft (truncate_meta ft n meta)
  unfolding truncate_meta
  truncate_meta-Cierra n meta commited e =
      rw (e, truncate_meta) (Cierra-signal ft _ (Conserva-pure ft err_write_commited))
  truncate_meta-Cierra n meta work_in_progress e =
      rw (e, truncate_meta)
        (Cierra-bind ft _ _ (dividir-Conserva n) λ q.
          Cierra-bind ft _ _ (ajustar-Conserva q meta.blocks) λ bs.
            Cierra-bind ft _ _ (metadata_write-Conserva ft _)
              λ _. Cierra-signal ft _ (Conserva-pure ft op_exitosa))

  escribir_en_nuevo-Cierra :
      (i : ℕ) (meta : MetadataFile) (buffer : List ℕ)
      → Cierra ft (escribir_en_nuevo ft i meta buffer)
  unfolding escribir_en_nuevo
  escribir_en_nuevo-Cierra i meta buffer = Cierra-bind ft _ _ (find_free_block-Conserva ft) resto
    where
      resto :
          (libre : Option ℕ)
          → Cierra ft {A = RtaStorage} (elim libre [
            | none ↦ o_fallo none
            | some p ↦ do
              unlink ft i
              storage_metadata_write ft (record meta { blocks = set meta.blocks i p })
              blk_mutex p
              _ ← link p ft i
              escribir_bloque p buffer
              storage_signal ft
              pure op_exitosa
          ])
      resto none = Cierra-fallo ft
      resto (some p) = Cierra-bind ft _ _ (unlink-Conserva ft i) λ _.
          Cierra-bind ft _ _ (metadata_write-Conserva ft _) λ _.
            Cierra-bind ft _ _ (blk_mutex-Conserva ft p) λ _.
              Cierra-bind ft _ _ (link-Conserva ft p i) λ _.
                Cierra-bind ft _ _ (escribir_bloque-Conserva ft p buffer)
                  λ _. Cierra-signal ft _ (Conserva-pure ft op_exitosa)

  pub write_meta-Cierra :
      (i : ℕ) (buffer : List ℕ) (meta : MetadataFile) (e : Situacion)
      → meta.estado ≡ e
      → Cierra ft (write_meta ft i buffer meta)
  unfolding write_meta
  write_meta-Cierra i buffer meta commited e =
      rw (e, write_meta) (Cierra-signal ft _ (Conserva-pure ft err_write_commited))
  write_meta-Cierra i buffer meta work_in_progress e =
      rw (e, write_meta)
        (Cierra-if ft (leb (length meta.blocks) i) _ _
          (Cierra-signal ft _ (Conserva-pure ft err_fuera_limite))
          (Cierra-bind ft _ _ (Conserva-o_fallo ft _) λ p.
            Cierra-bind ft _ _ (blk_mutex-Conserva ft p) λ _.
              Cierra-bind ft _ _ (Conserva-get ft) λ s.
                Cierra-if ft (p == 0 || ltb 2 (st_nlink p s)) _ _
                  (escribir_en_nuevo-Cierra i meta buffer)
                  (Cierra-bind ft _ _ (escribir_bloque-Conserva ft p buffer)
                    λ _. Cierra-signal ft _ (Conserva-pure ft op_exitosa))))

  pub reasignar-Conserva : (i a p : ℕ) (meta : MetadataFile) → Conserva ft (reasignar ft i a p meta)
  unfolding reasignar
  reasignar-Conserva i a p meta = Conserva-bind ft _ _ (unlink-Conserva ft i) λ _.
      Conserva-bind ft _ _ (blk_mutex-Conserva ft p) λ _.
        Conserva-bind ft _ _ (link-Conserva ft p i) λ _.
          Conserva-bind ft _ _
            (Conserva-if ft (a == 0) _ _ (Conserva-pure ft tt) (mark_block_free-Conserva ft a))
            λ _. Conserva-bind ft _ _ (metadata_write-Conserva ft _) λ _. Conserva-pure ft _

  module _ (crypto_md5 : List ℕ → String) where
    pub commit_bloque-Conserva :
        (i : ℕ) (meta : MetadataFile) → Conserva ft (commit_bloque crypto_md5 ft i meta)
    unfolding commit_bloque
    commit_bloque-Conserva i meta = Conserva-bind ft _ _ (Conserva-o_fallo ft _) λ a.
        Conserva-bind ft _ _ (blk_mutex-Conserva ft a) λ _.
          Conserva-bind ft _ _ (get_hash_from_block-Conserva crypto_md5 ft ft i)
            λ hash. Conserva-bind ft _ _ (block_asocied_to-Conserva ft hash) (resto a hash)
      where
        resto :
            (a : ℕ) (hash : String) (phys_blk : Option ℕ)
            → Conserva ft (elim phys_blk [
              | none ↦ do load_hash_in_index hash a; pure meta
              | some p ↦ if p == a then pure meta else reasignar ft i a p meta
            ])
        resto a hash none =
            Conserva-bind ft _ _ (load_hash-Conserva ft hash a) λ _. Conserva-pure ft meta
        resto a hash (some p) =
            Conserva-if ft (p == a) _ _ (Conserva-pure ft meta) (reasignar-Conserva i a p meta)

    pub commit_bloques-Conserva :
        (n i : ℕ) (meta : MetadataFile) → Conserva ft (commit_bloques crypto_md5 ft n i meta)
    unfolding commit_bloques
    commit_bloques-Conserva zero i meta = Conserva-pure ft meta
    commit_bloques-Conserva (suc n) i meta =
        Conserva-bind ft _ _ (commit_bloque-Conserva i meta)
          λ meta'. commit_bloques-Conserva n (i + 1) meta'
