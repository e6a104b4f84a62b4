-- ===== src/Storage/Contents/RoundTrip.antt =====
-- storage_write as a client of the storage sees it.
use tp_ssoo_2c.Base.{
  ℕ, ◌+◌, ◌-◌, ◌<◌, ◌≡◌, ◌≢◌, refl, sym, some_inj, ap, ◌∙◌, ◌⊎◌, inl, inr, true, false, ◌||◌, none,
  some, List, ◌∷◌, length, get_elem?, set, take, arith, ltb, lt→ltb, ◌==◌, Bool-cases, Option-cases,
  take-length, get_elem?-set_self, get_elem?-set_ne, get_elem?-some_of_lt, lt_of_get_elem?,
}
use tp_ssoo_2c.Codes.{op_exitosa}
use tp_ssoo_2c.Storage.{
  FileTag, mismo, MetadataFile, Directorio, work_in_progress, Fs, listo, fallo,
}
use tp_ssoo_2c.Storage.FileSystem.{
  buscar, destino, desenlazar, destino_en, enlaces, st_nlink, enlazable,
}
use tp_ssoo_2c.Storage.FileSystem.Lookup.{buscar-cambiar_self, dos_enlaces, dos_enlaces_propios}
use tp_ssoo_2c.Storage.Bitmap.{test_bit, buscar_libre}
use tp_ssoo_2c.Storage.Bitmap.Search.{Ocupados, buscar_libre-Hallado}
use tp_ssoo_2c.Storage.Locks.Balance.{Libre}
use tp_ssoo_2c.Storage.Files.{storage_write, storage_read}
use tp_ssoo_2c.Storage.Contents.{metadata_de}
use tp_ssoo_2c.Storage.Contents.Write.{write_propio, write_lleno, write_copia, copiado, sin_enlace}
use tp_ssoo_2c.Storage.Contents.Read.{read_ok}

-- The disk is coherent: each block has a file, a mutex and a bit; what is linked exists and is marked
-- in the bitmap; metadata.config and the hard links agree; a logical block has one link.
pub record Coherente (s : Fs) : Type 0 where
  pub bloques : length s.physical_blocks ≡ s.blocks_count
  pub bits : length s.bitmap ≡ s.blocks_count
  pub marcados :
      (g : FileTag) (d : Directorio) (j p : ℕ)
      → buscar g s.files ≡ some d
      → destino j d.logical_blocks ≡ some p
      → (p < s.blocks_count) × (test_bit s.bitmap p ≡ true)
  pub acordes :
      (g : FileTag) (d : Directorio) (meta : MetadataFile) (j p : ℕ)
      → buscar g s.files ≡ some d
      → d.metadata ≡ some meta
      → get_elem? meta.blocks j ≡ some p
      → destino j d.logical_blocks ≡ some p
  pub unicos :
      (g : FileTag) (d : Directorio) (j : ℕ)
      → buscar g s.files ≡ some d
      → destino j (desenlazar j d.logical_blocks) ≡ none

pub directorio_de :
    (ft : FileTag) (s : Fs) (meta : MetadataFile)
    → metadata_de ft s ≡ some meta
    → (d : Directorio) × (buscar ft s.files ≡ some d) × (d.metadata ≡ some meta)
unfolding metadata_de
directorio_de ft s meta h = elim (Option-cases (buscar ft s.files)) [
  | inl n ↦ absurd (ground arith)
  | inr (d, e) ↦ (d, e, ground arith)
]

enlace_de :
    (g : FileTag) (j q : ℕ) (s : Fs)
    → destino_en g j s ≡ some q
    → (d : Directorio) × (buscar g s.files ≡ some d) × (destino j d.logical_blocks ≡ some q)
unfolding destino_en
enlace_de g j q s h = elim (Option-cases (buscar g s.files)) [
  | inl n ↦ absurd (ground arith)
  | inr (d, e) ↦ (d, e, ground arith)
]

module _ (ft : FileTag) (s : Fs) (buffer : List ℕ) (i : ℕ) where
  -- The logical block `j` of `g` is another one than the block `i` of `ft`.
  abbrev pub Otro : FileTag → ℕ → Type 0
  Otro g j = (mismo ft g ≡ false) ⊎ ((g ≡ ft) × (i ≢ j))

  -- The write succeeded: the block can be read back, and the blocks behind every other hard link, of any
  -- other File:Tag or of another logical block of this one, hold what they held.
  pub record Escrito (s' : Fs) : Type 0 where
    pub escrito : storage_write ft i buffer s ≡ listo op_exitosa s'
    pub leido : storage_read ft i s' ≡ listo (op_exitosa, some buffer) s'
    pub ajenos :
        (g : FileTag) (j q : ℕ)
        → Otro g j
        → destino_en g j s ≡ some q
        → get_elem? s'.physical_blocks q ≡ get_elem? s.physical_blocks q

metadata_de_files :
    (ft : FileTag) (s t : Fs) → t.files ≡ s.files → metadata_de ft t ≡ metadata_de ft s
unfolding metadata_de
metadata_de_files ft s t h = rw (h, metadata_de)

metadata_de-buscar :
    (ft : FileTag) (s : Fs) (d : Directorio)
    → buscar ft s.files ≡ some d
    → metadata_de ft s ≡ d.metadata
unfolding metadata_de
metadata_de-buscar ft s d h = rw (h, metadata_de)

nlink_lem : (p : ℕ) (s : Fs) → st_nlink p s ≡ 1 + enlaces p s.files
unfolding st_nlink
nlink_lem p s = refl

module _ (ft : FileTag) (s : Fs) (libre : Libre ft s.locks_index) (co : Coherente s)
    (meta : MetadataFile) (e : metadata_de ft s ≡ some meta) (w : meta.estado ≡ work_in_progress)
    (buffer : List ℕ) (len : length buffer ≡ s.block_size) (i p : ℕ)
    (g : get_elem? meta.blocks i ≡ some p) where
  entero : take s.block_size buffer ≡ buffer
  entero = rw (← len) (take-length buffer)

  enlace_propio :
      (d : Directorio) × (buscar ft s.files ≡ some d)
      × (destino i d.logical_blocks ≡ some p)
      × (p < s.blocks_count)
  enlace_propio =
      let (d, b, m) = directorio_de ft s meta e in
      let k = co.acordes ft d meta i p b m g in (d, b, k, (co.marcados ft d i p b k).0)

  ajeno_distinto :
      (f : FileTag) (j q : ℕ)
      → ltb 2 (st_nlink p s) ≡ false
      → Otro ft s buffer i f j
      → destino_en f j s ≡ some q
      → p ≢ q
  ajeno_distinto f j q n (inr (m, x)) h pq =
      let (d, b, k, lt) = enlace_propio in
      let h' : destino_en ft j s ≡ some q = rw (← m) h in
      let (c, u, v) = enlace_de ft j q s h' in
      let v' : destino j c.logical_blocks ≡ some p = rw pq v in
      let z : d ≡ c = some_inj _ _ (sym b ∙ u) in
      let k' : destino i c.logical_blocks ≡ some p = rw (← z) k in
      let two = dos_enlaces_propios ft i j p s.files c x u k' v' in ground (arith, nlink_lem p s)
  ajeno_distinto f j q n (inl m) h pq =
      let (d, b, k, lt) = enlace_propio in
      let (c, u, v) = enlace_de f j q s h in
      let v' : destino j c.logical_blocks ≡ some p = rw pq v in
      let two = dos_enlaces ft f i j p s.files d c m b u k v' in ground (arith, nlink_lem p s)

  en_lugar : Fs
  en_lugar = record s { physical_blocks = set s.physical_blocks p buffer }

  propio-Escrito : (p == 0 || ltb 2 (st_nlink p s)) ≡ false → Escrito ft s buffer i en_lugar
  unfolding en_lugar
  propio-Escrito n =
      let (d, b, k, lt) = enlace_propio in
      record {
        escrito =
            write_propio ft s libre meta e i p buffer w g (lt_of_get_elem? meta.blocks i p g) lt n
            ∙ ap (λ c. listo op_exitosa (record s { physical_blocks = set s.physical_blocks p c }))
                entero;
        leido =
            read_ok ft en_lugar libre meta (metadata_de_files ft s en_lugar refl ∙ e) i p buffer g
              lt (get_elem?-set_self s.physical_blocks p buffer (rw co.bloques lt))
            ∙ ap (λ c. listo (op_exitosa, some c) en_lugar) entero;
        ajenos = λ f j q m h.
            get_elem?-set_ne s.physical_blocks p q buffer (ajeno_distinto f j q (ground arith) m h);
      }

  module _ (d : Directorio) (b : buscar ft s.files ≡ some d) (q : ℕ)
      (f : buscar_libre (length s.bitmap - 1) 1 s.bitmap ≡ some q) where
    q_lt : q < s.blocks_count
    q_lt = let h = buscar_libre-Hallado s (some q) f in rw (← co.bits) h.1

    ajeno_marcado : (h : FileTag) (j r : ℕ) → destino_en h j s ≡ some r → q ≢ r
    ajeno_marcado h j r k qr =
        let (c, u, v) = enlace_de h j r s k in
        let t : test_bit s.bitmap r ≡ true = (co.marcados h c j r u v).1 in
        let n : test_bit s.bitmap q ≡ false = (buscar_libre-Hallado s (some q) f).2 in
        let n' : test_bit s.bitmap r ≡ false = rw (← qr) n in ground arith

    -- The directory on the way: the old link taken away, the metadata written, the link made.
    tras_unlink : Directorio
    tras_unlink = record d { logical_blocks = desenlazar i d.logical_blocks }

    tras_metadata : Directorio
    tras_metadata = record tras_unlink {
      metadata = some (record meta { blocks = set meta.blocks i q });
    }

    tras_link : Directorio
    tras_link = record tras_metadata { logical_blocks = (i, q) ∷ tras_metadata.logical_blocks }

    sin_enlace-buscar : buscar ft (sin_enlace ft s libre meta e i q) ≡ some tras_metadata
    unfolding sin_enlace tras_unlink tras_metadata
    sin_enlace-buscar =
        buscar-cambiar_self ft _ (λ x. refl) _ tras_unlink
          (buscar-cambiar_self ft _ (λ x. refl) s.files d b)

    enlazable_q : enlazable q ft i (record s { files = sin_enlace ft s libre meta e i q }) ≡ true
    unfolding enlazable tras_metadata tras_unlink
    enlazable_q = rw (
      sin_enlace-buscar,
      enlazable,
      co.unicos ft d i b,
      lt→ltb q (length s.physical_blocks) (rw co.bloques q_lt),
    )

    copia : Fs
    copia = copiado ft s libre meta e i q buffer

    copia-buscar : buscar ft copia.files ≡ some tras_link
    unfolding tras_link copia
    copia-buscar = buscar-cambiar_self ft _ (λ x. refl) _ tras_metadata sin_enlace-buscar

    copia-Escrito : (p == 0 || ltb 2 (st_nlink p s)) ≡ true → Escrito ft s buffer i copia
    unfolding copia tras_link tras_metadata tras_unlink
    copia-Escrito n =
        let (d', b', k, lt) = enlace_propio in
        record {
          escrito =
              write_copia ft s libre meta e i p q buffer w g (lt_of_get_elem? meta.blocks i p g) lt
                n f q_lt enlazable_q
              ∙ ap (λ c. listo op_exitosa (copiado ft s libre meta e i q c)) entero;
          leido =
              read_ok ft copia libre (record meta { blocks = set meta.blocks i q })
                (metadata_de-buscar ft copia tras_link copia-buscar) i q buffer
                (get_elem?-set_self meta.blocks i q (lt_of_get_elem? meta.blocks i p g)) q_lt
                (get_elem?-set_self s.physical_blocks q buffer (rw co.bloques q_lt))
              ∙ ap (λ c. listo (op_exitosa, some c) copia) entero;
          ajenos =
              λ h j r m k. get_elem?-set_ne s.physical_blocks q r buffer (ajeno_marcado h j r k);
        }

-- A write of a whole block to an existing logical block of a File:Tag in progress, from a free lock
-- on a coherent disk, succeeds, and then a read returns what was written, and the block behind every
-- other hard link keeps its contents, shared ones too, whether the link is of another File:Tag or of
-- another logical block of the same; or else every block above 0 is taken, and then it faults.
pub storage_write-Escrito :
    (ft : FileTag) (s : Fs) (meta : MetadataFile) (buffer : List ℕ) (i : ℕ)
    → Libre ft s.locks_index
    → Coherente s
    → metadata_de ft s ≡ some meta
    → meta.estado ≡ work_in_progress
    → length buffer ≡ s.block_size
    → i < length meta.blocks
    → ((s' : Fs) × Escrito ft s buffer i s')
      ⊎ ((storage_write ft i buffer s ≡ fallo) × Ocupados s.bitmap 1 (length s.bitmap))
storage_write-Escrito ft s meta buffer i libre co e w len lt =
    let (p, g) = get_elem?-some_of_lt meta.blocks i lt in
    let (d, b, k, ltp) = enlace_propio ft s libre co meta e w buffer len i p g in
    elim (Bool-cases (p == 0 || ltb 2 (st_nlink p s))) [
      | inr n ↦ inl (
        en_lugar ft s libre co meta e w buffer len i p g,
        propio-Escrito ft s libre co meta e w buffer len i p g n,
      )
      | inl n ↦ elim (Option-cases (buscar_libre (length s.bitmap - 1) 1 s.bitmap)) [
        | inl f ↦ inr (
          write_lleno ft s libre meta e i p buffer w g lt ltp n f,
          (buscar_libre-Hallado s none f).1,
        )
        | inr (q, f) ↦ inl (
          copia ft s libre co meta e w buffer len i p g d b q f,
          copia-Escrito ft s libre co meta e w buffer len i p g d b q f n,
        )
      ]
    ]
