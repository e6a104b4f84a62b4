-- ===== src/Storage/Contents/Sealed.antt =====
-- What storage_commit does to the state of a File:Tag (storage/src/sotrage_files.c).
use Prim.Native.String.{String}
use mathlib.Core.Path.{subst}
use tp_ssoo_2c.Base.{
  ℕ, ◌≡◌, refl, sym, ap, false, Bool-cases, inl, inr, ◌∙◌, some, List, length, arith,
}
use tp_ssoo_2c.Codes.{RtaStorage, op_exitosa, err_write_commited}
use tp_ssoo_2c.Storage.{
  FileTag, mismo, eq_of_mismo, MetadataFile, Directorio, commited, Fs, listo, pure, bind-eq-listo,
}
use tp_ssoo_2c.Storage.FileSystem.{buscar, cambiar, storage_metadata_write}
use tp_ssoo_2c.Storage.FileSystem.Lookup.{buscar-cambiar_self}
use tp_ssoo_2c.Storage.Locks.Balance.{Libre}
use tp_ssoo_2c.Storage.Files.{storage_read, storage_write, storage_truncate, truncate_meta}
use tp_ssoo_2c.Storage.Commit.{commit_bloques, storage_commit}
use tp_ssoo_2c.Storage.Frame.{Marco, usar}
use tp_ssoo_2c.Storage.Isolation.{
  Operacion, truncate, write, read, commit, ejecutar, ejecutar-Marco,
}
use tp_ssoo_2c.Storage.Frame.Operations.{commit_bloques-Conserva}
use tp_ssoo_2c.Storage.Contents.{metadata_de, tomar, abrir, soltar}
use tp_ssoo_2c.Storage.Contents.Write.{write_commited}
use tp_ssoo_2c.Storage.Contents.Read.{read-estado}

-- A File:Tag that can no longer change: its lock is free, and its state is COMMITED.
pub record Sellado (ft : FileTag) (s : Fs) : Type 0 where
  pub libre : Libre ft s.locks_index
  pub metadata : MetadataFile
  pub leida : metadata_de ft s ≡ some metadata
  pub sellada : metadata.estado ≡ commited

pub truncate_commited :
    (ft : FileTag) (s : Fs) (size : ℕ)
    → Sellado ft s
    → storage_truncate ft size s ≡ listo err_write_commited s
unfolding storage_truncate truncate_meta
truncate_commited ft s size c =
    abrir ft _ s (some c.metadata) c.libre c.leida
    ∙ rw (c.sellada, truncate_meta)
        (soltar ft (pure err_write_commited) s.locks_index (tomar ft s) c.libre refl)

pub escrita :
    (ft : FileTag) (meta : MetadataFile) (d : Directorio) (s : Fs)
    → buscar ft s.files ≡ some d
    → metadata_de ft
        (record s { files = cambiar ft (λ d. record d { metadata = some meta }) s.files })
      ≡ some meta
unfolding metadata_de
escrita ft meta d s h = rw (
  buscar-cambiar_self ft (λ d. record d { metadata = some meta }) (λ x. refl) s.files d h,
  metadata_de,
)

pub presente :
    (ft : FileTag) (s : Fs) (meta : MetadataFile)
    → metadata_de ft s ≡ some meta
    → (d : Directorio) × (buscar ft s.files ≡ some d)
unfolding metadata_de
presente ft s meta h = ground arith

-- What is truncated, written, read or committed, of any File:Tag, one operation behind the other; each
-- starts from a free lock and returns, with any result.
pub data Despues (crypto_md5 : List ℕ → String) (s : Fs) : Fs → Type 0 where
  nada : Despues crypto_md5 s s
  y_luego :
      {t u : Fs} (g : FileTag) (op : Operacion) (r : RtaStorage)
      → Despues crypto_md5 s t
      → Libre g t.locks_index
      → ejecutar crypto_md5 g op t ≡ listo r u
      → Despues crypto_md5 s u

metadata_de-buscar_ne :
    (ft : FileTag) (s t : Fs)
    → buscar ft t.files ≡ buscar ft s.files
    → metadata_de ft t ≡ metadata_de ft s
unfolding metadata_de
metadata_de-buscar_ne ft s t h = rw (h, metadata_de)

-- An operation on another File:Tag leaves it sealed.
Sellado-Marco :
    (ft g : FileTag) (s t : Fs) → mismo g ft ≡ false → Marco g s t → Sellado ft s → Sellado ft t
Sellado-Marco ft g s t n m c = record {
  libre = rw m.locks c.libre;
  metadata = c.metadata;
  leida = metadata_de-buscar_ne ft s t (m.others ft n) ∙ c.leida;
  sellada = c.sellada;
}

igual_estado : {A : Type 0} (a b : A) (s t : Fs) → listo a s ≡ listo b t → s ≡ t
igual_estado a b s t h = cc

module _ (crypto_md5 : List ℕ → String) (ft : FileTag) (s s' : Fs) (meta : MetadataFile)
    (libre : Libre ft s.locks_index) (e : metadata_de ft s ≡ some meta) where
  -- A commit that returns has succeeded, and the File:Tag is sealed.
  pub storage_commit-Sellado :
      (r : RtaStorage)
      → storage_commit crypto_md5 ft s ≡ listo r s'
      → (r ≡ op_exitosa) × Sellado ft s'
  unfolding storage_commit storage_metadata_write
  storage_commit-Sellado r h =
      let h' = sym (abrir ft _ s (some meta) libre e) ∙ h in
      let (meta', t, c, k) =
        bind-eq-listo (commit_bloques crypto_md5 ft (length meta.blocks) 0 meta) _ (tomar ft s) s' r
          h' in
      let m =
        usar (commit_bloques-Conserva ft crypto_md5 (length meta.blocks) 0 meta) (tomar ft s) t
          meta' c in
      let (d, b) = presente ft s meta e in
      let (d', b') = m.own d b in
      let fin : MetadataFile = record meta' { estado = commited } in
      let u : Fs = record t {
        files = cambiar ft (λ x. record x { metadata = some fin }) t.files;
      } in
      let v : Fs = record u { locks_index = s.locks_index } in
      let k' : listo op_exitosa v ≡ listo r s' =
        sym (soltar ft (pure op_exitosa) s.locks_index u libre m.locks) ∙ k in
      let q : v ≡ s' = cc in
      (
        cc,
        subst (Sellado ft) q (record {
          libre = libre;
          metadata = fin;
          leida = escrita ft fin d' (record t { locks_index = s.locks_index }) b';
          sellada = refl;
        }),
      )

module _ (crypto_md5 : List ℕ → String) (ft : FileTag) where
  propia-Sellado :
      (op : Operacion) (s t : Fs) (r : RtaStorage)
      → Sellado ft s
      → ejecutar crypto_md5 ft op s ≡ listo r t
      → Sellado ft t
  unfolding ejecutar
  propia-Sellado (truncate size) s t r c h =
      subst (Sellado ft)
        (igual_estado err_write_commited r s t (sym (truncate_commited ft s size c) ∙ h)) c
  propia-Sellado (write i buffer) s t r c h =
      subst (Sellado ft)
        (igual_estado err_write_commited r s t
          (sym (write_commited ft s c.libre c.metadata c.leida i buffer c.sellada) ∙ h))
        c
  propia-Sellado (read i) s t r c h =
      let (a, u, e, f) = bind-eq-listo (storage_read ft i) (λ r. pure r.0) s t r h in
      subst (Sellado ft)
        (read-estado ft s c.libre c.metadata c.leida i a u e ∙ igual_estado a.0 r u t f) c
  propia-Sellado commit s t r c h =
      (storage_commit-Sellado crypto_md5 ft s t c.metadata c.libre c.leida r h).1

  Despues-Sellado : {s t : Fs} → Despues crypto_md5 s t → Sellado ft s → Sellado ft t
  Despues-Sellado nada c = c
  Despues-Sellado (y_luego {t} {u} g op r d l h) c =
      let b = Despues-Sellado d c in
      elim (Bool-cases (mismo g ft)) [
        | inl m ↦
            propia-Sellado op t u r b
              (ap (λ f. ejecutar crypto_md5 f op t) (sym (eq_of_mismo g ft m)) ∙ h)
        | inr n ↦ Sellado-Marco ft g t u n (ejecutar-Marco crypto_md5 g op t u r l h) b
      ]

  -- Once a commit of a File:Tag has returned, it has succeeded; and behind any truncates, writes, reads
  -- and commits of any File:Tags that follow and return, each from a free lock, a write of a block and a
  -- truncation of the File:Tag are refused as those of a committed one, and change nothing.
  pub storage_commit_seals :
      (s s' t : Fs) (meta : MetadataFile) (r : RtaStorage) (i size : ℕ) (buffer : List ℕ)
      → Libre ft s.locks_index
      → metadata_de ft s ≡ some meta
      → storage_commit crypto_md5 ft s ≡ listo r s'
      → Despues crypto_md5 s' t
      → (r ≡ op_exitosa)
        × (storage_write ft i buffer t ≡ listo err_write_commited t)
        × (storage_truncate ft size t ≡ listo err_write_commited t)
  storage_commit_seals s s' t meta r i size buffer libre e h d =
      let (a, b) = storage_commit-Sellado crypto_md5 ft s s' meta libre e r h in
      let c = Despues-Sellado d b in
      (
        a,
        write_commited ft t c.libre c.metadata c.leida i buffer c.sellada,
        truncate_commited ft t size c,
      )
