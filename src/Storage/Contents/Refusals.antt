-- ===== src/Storage/Contents/Refusals.antt =====
-- The errors of storage_write (storage/src/sotrage_files.c).
use tp_ssoo_2c.Base.{
  ℕ, ◌≡◌, refl, Option, none, some, List, length, arith, leb, leb→le, if◌then◌else◌, Bool-cases,
  inl, inr, Option-cases,
}
use tp_ssoo_2c.Codes.{RtaStorage, err_inexistencia, err_write_commited, err_fuera_limite}
use tp_ssoo_2c.Storage.{FileTag, MetadataFile, Situacion, work_in_progress, commited, Fs, listo}
use tp_ssoo_2c.Storage.Locks.Balance.{Libre}
use tp_ssoo_2c.Storage.Files.{storage_write}
use tp_ssoo_2c.Storage.Contents.{metadata_de}
use tp_ssoo_2c.Storage.Contents.Write.{write_inexistente, write_commited, write_fuera}

-- What a client may expect to be refused: `i` is the logical block to be written.
pub rechazo_estado : Situacion → Option RtaStorage → Option RtaStorage
rechazo_estado commited r = some err_write_commited
rechazo_estado work_in_progress r = r

unfoldable pub rechazo : Option MetadataFile → ℕ → Option RtaStorage
unfolding rechazo_estado
rechazo none i = some err_inexistencia
rechazo (some meta) i =
    rechazo_estado meta.estado (if leb (length meta.blocks) i then some err_fuera_limite else none)

rechazado :
    (ft : FileTag) (s : Fs) (i : ℕ) (buffer : List ℕ) (libre : Libre ft s.locks_index)
    (meta : MetadataFile) (e : metadata_de ft s ≡ some meta) (w : Situacion) (r : RtaStorage)
    → meta.estado ≡ w
    → rechazo_estado w (if leb (length meta.blocks) i then some err_fuera_limite else none) ≡ some r
    → storage_write ft i buffer s ≡ listo r s
unfolding rechazo_estado
rechazado ft s i buffer libre meta e commited r c h =
    let q : err_write_commited ≡ r = cc in rw (← q) (write_commited ft s libre meta e i buffer c)
rechazado ft s i buffer libre meta e work_in_progress r c h =
    elim (Bool-cases (leb (length meta.blocks) i)) [
      | inl t ↦
          let q : err_fuera_limite ≡ r = ground arith in
          rw (← q) (write_fuera ft s libre meta e i buffer c (leb→le _ _ t))
      | inr n ↦ absurd (ground arith)
    ]

-- A write to a File:Tag that is not there, that is committed, or behind its last block is refused
-- with the error for it, from a free lock, and leaves the whole storage as it was.
pub storage_write-rechazo :
    (ft : FileTag) (s : Fs) (i : ℕ) (buffer : List ℕ) (r : RtaStorage)
    → Libre ft s.locks_index
    → rechazo (metadata_de ft s) i ≡ some r
    → storage_write ft i buffer s ≡ listo r s
unfolding rechazo
storage_write-rechazo ft s i buffer r libre h = elim (Option-cases (metadata_de ft s)) [
  | inl n ↦
      let q : err_inexistencia ≡ r = ground arith in
      rw (← q) (write_inexistente ft s libre i buffer n)
  | inr (meta, e) ↦ rechazado ft s i buffer libre meta e meta.estado r refl (rw e at h)
]
