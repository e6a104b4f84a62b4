-- ===== src/Storage/Contents/Read.antt =====
-- storage_read (storage/src/sotrage_files.c) from a free lock, by its branches.
use tp_ssoo_2c.Base.{
  false, sym, Option, Bool-cases, inl, inr, ltb, ltb→lt, ℕ, ◌<◌, ◌≡◌, refl, ◌∙◌, none, some, List,
  length, get_elem?, take, arith, lt→ltb, le→ltb-false, lt_of_get_elem?, get_elem?-none,
}
use tp_ssoo_2c.Codes.{RtaStorage, op_exitosa, err_inexistencia, err_fuera_limite}
use tp_ssoo_2c.Storage.{
  FileTag, MetadataFile, Fs, M, o_fallo, bind-eq-listo, listo, fallo, ◌>>=◌, ◌>>◌, pure, get,
  bind_listo,
}
use tp_ssoo_2c.Storage.FileSystem.{blk_mutex, leer_bloque}
use tp_ssoo_2c.Storage.Locks.{storage_signal}
use tp_ssoo_2c.Storage.Locks.Balance.{Libre}
use tp_ssoo_2c.Storage.Files.{read_meta, storage_read}
use tp_ssoo_2c.Storage.Contents.{metadata_de, tomar, abrir, soltar}
use tp_ssoo_2c.Storage.Contents.Write.{blk_mutex_ok}

leer_bloque_ok :
    (p : ℕ) (c : List ℕ) (s : Fs)
    → get_elem? s.physical_blocks p ≡ some c
    → leer_bloque p s ≡ listo c s
unfolding leer_bloque
leer_bloque_ok p c s h = rw h

-- A step that changes nothing where it returns.
pub data Quieta {A : Type 0} (m : M A) : Type 0 where
  quieta : ((s t : Fs) (a : A) → m s ≡ listo a t → s ≡ t) → Quieta m

abbrev aquietar : {A : Type 0} {m : M A} → Quieta m → (s t : Fs) (a : A) → m s ≡ listo a t → s ≡ t
aquietar (quieta f) = f

Quieta-bind :
    {A B : Type 0} (m : M A) (f : A → M B) → Quieta m → ((a : A) → Quieta (f a)) → Quieta (m >>= f)
Quieta-bind m f q k = quieta λ s u b h.
    let (a, t, e, r) = bind-eq-listo m f s u b h in aquietar q s t a e ∙ aquietar (k a) t u b r

Quieta-pure : {A : Type 0} (a : A) → Quieta (pure a)
Quieta-pure a = quieta λ s t b h. cc

Quieta-get : Quieta get
Quieta-get = quieta λ s t b h. cc

o_fallo-estado : {A : Type 0} (o : Option A) (s t : Fs) (a : A) → o_fallo o s ≡ listo a t → s ≡ t
o_fallo-estado none s t a h = absurd (ground arith)
o_fallo-estado (some b) s t a h = cc

blk_mutex-Quieta : (p : ℕ) → Quieta (blk_mutex p)
unfolding blk_mutex
blk_mutex-Quieta p = quieta λ s t a h. ground arith

leer_bloque-Quieta : (p : ℕ) → Quieta (leer_bloque p)
unfolding leer_bloque
leer_bloque-Quieta p = quieta λ s. o_fallo-estado (get_elem? s.physical_blocks p) s

leido : ℕ → M (RtaStorage × Option (List ℕ))
leido p = do
  blk_mutex p
  t ← get
  contenido ← leer_bloque p
  pure (op_exitosa, some (take t.block_size contenido))

leido-Quieta : (p : ℕ) → Quieta (leido p)
unfolding leido
leido-Quieta p = Quieta-bind (blk_mutex p) _ (blk_mutex-Quieta p) λ _.
    Quieta-bind get _ Quieta-get
      λ t. Quieta-bind (leer_bloque p) _ (leer_bloque-Quieta p) λ c. Quieta-pure _

module _ (ft : FileTag) (s : Fs) (libre : Libre ft s.locks_index) where
  pub read_inexistente :
      (i : ℕ) → metadata_de ft s ≡ none → storage_read ft i s ≡ listo (err_inexistencia, none) s
  unfolding storage_read
  read_inexistente i e =
      abrir ft _ s none libre e ∙ soltar ft _ s.locks_index (tomar ft s) libre refl

  module _ (meta : MetadataFile) (e : metadata_de ft s ≡ some meta) where
    read_abierto : (i : ℕ) → storage_read ft i s ≡ read_meta ft i meta (tomar ft s)
    unfolding storage_read
    read_abierto i = abrir ft _ s (some meta) libre e

    pub read_fuera :
        (i : ℕ) → length meta.blocks < i → storage_read ft i s ≡ listo (err_fuera_limite, none) s
    unfolding read_meta
    read_fuera i h =
        read_abierto i
        ∙ rw (lt→ltb (length meta.blocks) i h, read_meta)
            (soltar ft _ s.locks_index (tomar ft s) libre refl)

    -- From a free lock, a read of the first index behind the last block of a File:Tag passes the guard,
    -- and faults.
    pub storage_read_limite : (i : ℕ) → i ≡ length meta.blocks → storage_read ft i s ≡ fallo
    unfolding read_meta
    storage_read_limite i h =
        read_abierto i
        ∙ rw
            (
              le→ltb-false i (length meta.blocks) (omega arith),
              read_meta,
              get_elem?-none meta.blocks i (omega arith),
            )
            refl

    pub read_ok :
        (i p : ℕ) (c : List ℕ)
        → get_elem? meta.blocks i ≡ some p
        → p < s.blocks_count
        → get_elem? s.physical_blocks p ≡ some c
        → storage_read ft i s ≡ listo (op_exitosa, some (take s.block_size c)) s
    unfolding read_meta
    read_ok i p c g h l =
        read_abierto i
        ∙ rw
            (
              le→ltb-false i (length meta.blocks)
                  (omega (arith, lt_of_get_elem? meta.blocks i p g)),
              read_meta,
              g,
            )
            (soltar ft
                (do
                  blk_mutex p
                  t ← get
                  contenido ← leer_bloque p
                  pure (op_exitosa, some (take t.block_size contenido)))
                s.locks_index (tomar ft s) libre refl
              ∙ (bind_listo (blk_mutex p) _ s s tt (blk_mutex_ok p s h)
                  ∙ bind_listo (leer_bloque p) _ s s c (leer_bloque_ok p c s l)))

    leer_hallado :
        (i : ℕ) (o : Option ℕ) (a : RtaStorage × Option (List ℕ)) (u : Fs)
        → ltb (length meta.blocks) i ≡ false
        → get_elem? meta.blocks i ≡ o
        → storage_read ft i s ≡ listo a u
        → s ≡ u
    unfolding read_meta leido
    leer_hallado i none a u l g h =
        let h' : fallo ≡ listo a u = rw (read_abierto i, read_meta, l, g) at h in
        absurd (ground arith)
    leer_hallado i (some p) a u l g h =
        let h' : (storage_signal ft >> leido p) (tomar ft s) ≡ listo a u =
          rw (read_abierto i, read_meta, l, g) at h in
        aquietar (leido-Quieta p) s u a
          (sym (soltar ft (leido p) s.locks_index (tomar ft s) libre refl) ∙ h')

    -- A read that returns, with any result, changes nothing.
    pub read-estado :
        (i : ℕ) (a : RtaStorage × Option (List ℕ)) (u : Fs)
        → storage_read ft i s ≡ listo a u
        → s ≡ u
    read-estado i a u h = elim (Bool-cases (ltb (length meta.blocks) i)) [
      | inl l ↦
          aquietar (Quieta-pure (err_fuera_limite, none)) s u a
            (sym (read_fuera i (ltb→lt (length meta.blocks) i l)) ∙ h)
      | inr l ↦ leer_hallado i (get_elem? meta.blocks i) a u l refl h
    ]
