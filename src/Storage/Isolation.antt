-- ===== src/Storage/Isolation.antt =====
-- The operations on one File:Tag of storage/src/sotrage_files.c, as the calls of the workers.
use Prim.Native.String.{String}
use tp_ssoo_2c.Base.{ℕ, ◌≡◌, refl, Option, none, some, List, length, take, ltb}
use tp_ssoo_2c.Codes.{RtaStorage, op_exitosa, err_inexistencia}
use tp_ssoo_2c.Storage.{
  FileTag, MetadataFile, commited, Fs, listo, M, ◌>>=◌, ◌>>◌, pure, bind-eq-listo,
}
use tp_ssoo_2c.Storage.FileSystem.{storage_metadata_write}
use tp_ssoo_2c.Storage.Locks.{storage_signal}
use tp_ssoo_2c.Storage.Locks.Balance.{Libre}
use tp_ssoo_2c.Storage.Files.{
  truncate_meta, storage_truncate, write_meta, storage_write, read_meta, storage_read,
}
use tp_ssoo_2c.Storage.Commit.{commit_bloques, storage_commit}
use tp_ssoo_2c.Storage.Frame.{Marco, Conserva-bind, Conserva-pure, Conserva-get, Conserva-o_fallo}
use tp_ssoo_2c.Storage.Frame.Calls.{
  metadata_read-Conserva, metadata_write-Conserva, blk_mutex-Conserva, leer_bloque-Conserva,
}
use tp_ssoo_2c.Storage.Frame.Locked.{
  Cierra, Cierra-bind, Cierra-signal, Cierra-if, storage_wait-Marco,
}
use tp_ssoo_2c.Storage.Frame.Operations.{
  truncate_meta-Cierra, write_meta-Cierra, commit_bloques-Conserva,
}

-- TRUNCATE, MODIFICACIONES_STORAGE, SOLICITUD_STORAGE and COMMIT.
pub data Operacion : Type 0 where
  truncate : ℕ → Operacion
  write : ℕ → List ℕ → Operacion
  read : ℕ → Operacion
  commit : Operacion

module _ (crypto_md5 : List ℕ → String) (ft : FileTag) where
  unfoldable pub ejecutar : Operacion → M RtaStorage
  ejecutar (truncate size) = storage_truncate ft size
  ejecutar (write i buffer) = storage_write ft i buffer
  ejecutar (read i) = do r ← storage_read ft i; pure r.0
  ejecutar commit = storage_commit crypto_md5 ft

  truncate_opt-Cierra :
      (size : ℕ) (meta : Option MetadataFile)
      → Cierra ft (elim meta [
        | none ↦ do storage_signal ft; pure err_inexistencia
        | some meta ↦ truncate_meta ft size meta
      ])
  truncate_opt-Cierra size none = Cierra-signal ft _ (Conserva-pure ft _)
  truncate_opt-Cierra size (some meta) = truncate_meta-Cierra ft size meta meta.estado refl

  write_opt-Cierra :
      (i : ℕ) (buffer : List ℕ) (meta : Option MetadataFile)
      → Cierra ft (elim meta [
        | none ↦ do storage_signal ft; pure err_inexistencia
        | some meta ↦ write_meta ft i buffer meta
      ])
  write_opt-Cierra i buffer none = Cierra-signal ft _ (Conserva-pure ft _)
  write_opt-Cierra i buffer (some meta) = write_meta-Cierra ft i buffer meta meta.estado refl

  read_opt-Cierra :
      (i : ℕ) (meta : Option MetadataFile)
      → Cierra ft {A = RtaStorage × Option (List ℕ)} (elim meta [
        | none ↦ do storage_signal ft; pure (err_inexistencia, none)
        | some meta ↦ read_meta ft i meta
      ])
  unfolding read_meta
  read_opt-Cierra i none = Cierra-signal ft _ (Conserva-pure ft _)
  read_opt-Cierra i (some meta) =
      Cierra-if ft (ltb (length meta.blocks) i) _ _ (Cierra-signal ft _ (Conserva-pure ft _)) (
        Cierra-bind ft _ _ (Conserva-o_fallo ft _) λ p. Cierra-signal ft _ (
          Conserva-bind ft _ _ (blk_mutex-Conserva ft p) λ _.
            Conserva-bind ft _ _ (Conserva-get ft)
              λ s. Conserva-bind ft _ _ (leer_bloque-Conserva ft p) λ c. Conserva-pure ft _))

  commit_opt-Cierra :
      (meta : Option MetadataFile)
      → Cierra ft (elim meta [
        | none ↦ do storage_signal ft; pure err_inexistencia
        | some meta ↦ do
          meta' ← commit_bloques crypto_md5 ft (length meta.blocks) 0 meta
          storage_metadata_write ft (record meta' { estado = commited })
          storage_signal ft
          pure op_exitosa
      ])
  commit_opt-Cierra none = Cierra-signal ft _ (Conserva-pure ft _)
  commit_opt-Cierra (some meta) =
      Cierra-bind ft _ _ (commit_bloques-Conserva ft crypto_md5 (length meta.blocks) 0 meta)
        λ meta'.
          Cierra-bind ft _ _ (metadata_write-Conserva ft _)
            λ _. Cierra-signal ft _ (Conserva-pure ft op_exitosa)

  listo_marco_de :
      (s t s' : Fs) (r : RtaStorage) {q : RtaStorage}
      → Marco ft s t
      → listo q t ≡ listo r s'
      → Marco ft s s'
  listo_marco_de s t s' r {q} m h = let e : t ≡ s' = cc in rw (← e) m

  -- From a free lock, an operation that returns, with any result, has given the lock back as it was,
  -- has changed no directory (metadata and hard links) of any other File:Tag and no other lock, and
  -- the disk has as many blocks and bits as before.
  pub ejecutar-Marco :
      (op : Operacion) (s s' : Fs) (r : RtaStorage)
      → Libre ft s.locks_index
      → ejecutar op s ≡ listo r s'
      → Marco ft s s'
  unfolding ejecutar storage_truncate storage_write storage_read storage_commit
  ejecutar-Marco (truncate size) s s' r l h =
      storage_wait-Marco ft _ s s' r
        (Cierra-bind ft _ _ (metadata_read-Conserva ft ft) (truncate_opt-Cierra size)) l h
  ejecutar-Marco (write i buffer) s s' r l h =
      storage_wait-Marco ft _ s s' r
        (Cierra-bind ft _ _ (metadata_read-Conserva ft ft) λ meta.
          Cierra-bind ft _ _ (Conserva-get ft)
            λ t. write_opt-Cierra i (take t.block_size buffer) meta)
        l h
  ejecutar-Marco (read i) s s' r l h =
      let (a, t, e, f) = bind-eq-listo (storage_read ft i) (λ r. pure r.0) s s' r h in
      let m =
        storage_wait-Marco ft _ s t a
          (Cierra-bind ft _ _ (metadata_read-Conserva ft ft) (read_opt-Cierra i)) l e in
      listo_marco_de s t s' r m f
  ejecutar-Marco commit s s' r l h =
      storage_wait-Marco ft _ s s' r
        (Cierra-bind ft _ _ (metadata_read-Conserva ft ft) commit_opt-Cierra) l h
