-- ===== src/Storage/Contents/Resized.antt =====
-- storage_truncate (storage/src/sotrage_files.c) on a File:Tag in progress, from a free lock.
use tp_ssoo_2c.Base.{
  ℕ, zero, suc, ◌-◌, ◌/◌, ◌≤◌, ◌<◌, ◌≡◌, refl, sym, ap, ◌∙◌, Bool, true, false, some, List, [], ◌∷◌,
  ◌++◌, length, get_elem?, take, replicate, ltb, ◌==◌, if◌then◌else◌, Bool-cases, inl, inr, arith,
  append-nil, append_assoc, length-take, take-length, take-take, get_elem?-take,
  get_elem?-some_of_lt, ne→==, set,
}
use tp_ssoo_2c.Codes.{op_exitosa}
use tp_ssoo_2c.Storage.{
  FileTag, mismo, MetadataFile, work_in_progress, Fs, listo, M, ◌>>=◌, ◌>>◌, pure, bind_listo,
}
use tp_ssoo_2c.Storage.FileSystem.{
  buscar, cambiar, unlink, link, blk_mutex, storage_metadata_write, st_nlink, enlazable, desenlazar,
}
use tp_ssoo_2c.Storage.FileSystem.Lookup.{buscar-cambiar_ne}
use tp_ssoo_2c.Storage.Bitmap.{mark_block_free}
use tp_ssoo_2c.Storage.Locks.{storage_signal}
use tp_ssoo_2c.Storage.Locks.Balance.{Libre, tomado}
use tp_ssoo_2c.Storage.Files.{
  crecer, liberar_si_ultimo, encoger, ajustar, dividir, truncate_meta, storage_truncate,
}
use tp_ssoo_2c.Storage.Frame.{usar}
use tp_ssoo_2c.Storage.Frame.Operations.{ajustar-Conserva}
use tp_ssoo_2c.Storage.Contents.{metadata_de, tomar, abrir, soltar}
use tp_ssoo_2c.Storage.Contents.Write.{blk_mutex_ok}
use tp_ssoo_2c.Storage.Contents.Sealed.{escrita, presente}
use tp_ssoo_2c.Storage.Contents.RoundTrip.{Coherente, directorio_de}

-- The list of blocks at `k` blocks: cut at its end, or filled with the block 0.
abbrev pub redimensionar : ℕ → List ℕ → List ℕ
redimensionar k blocks =
    if ltb (length blocks) k then blocks ++ replicate (k - length blocks) 0 else take k blocks

-- It returns the value, and the disk has as many blocks as before.
Devuelve : {A : Type 0} → M A → Fs → A → Type 0
Devuelve m s a = (s' : Fs) × (m s ≡ listo a s') × (s'.blocks_count ≡ s.blocks_count)

enlace_o_nada :
    (s t : Fs) (c : Bool)
    → t.blocks_count ≡ s.blocks_count
    → (b : Bool) × ((s' : Fs) × ((if c then listo true t else listo false s) ≡ listo b s')
        × (s'.blocks_count ≡ s.blocks_count))
enlace_o_nada s t true k = (true, (t, refl, k))
enlace_o_nada s t false k = (false, (s, refl, refl))

link-Devuelve : (p : ℕ) (ft : FileTag) (i : ℕ) (s : Fs) → (b : Bool) × Devuelve (link p ft i) s b
unfolding link Devuelve
link-Devuelve p ft i s = enlace_o_nada s _ (enlazable p ft i s) refl

liberar-Devuelve : (p : ℕ) (s : Fs) → Devuelve (liberar_si_ultimo p) s tt
unfolding Devuelve liberar_si_ultimo mark_block_free
liberar-Devuelve p s = elim (Bool-cases (p == 0)) [
  | inl t ↦ (s, rw t refl, refl)
  | inr f ↦ elim (Bool-cases (ltb (st_nlink p s) 2)) [
    | inl t ↦ (record s { bitmap = set s.bitmap p false }, rw (f, t) refl, refl)
    | inr g ↦ (s, rw (f, g) refl, refl)
  ]
]

module _ (ft : FileTag) where
  crecer-Devuelve :
      (n : ℕ) (blocks : List ℕ) (s : Fs)
      → 0 < s.blocks_count
      → Devuelve (crecer ft n blocks) s (blocks ++ replicate n 0)
  unfolding crecer Devuelve
  crecer-Devuelve zero blocks s h = (s, ap (λ bs. listo bs s) (sym (append-nil blocks)), refl)
  crecer-Devuelve (suc n) blocks s h =
      let (b, (s1, e, k)) = link-Devuelve 0 ft (length blocks) s in
      let (s2, f, l) = crecer-Devuelve n (blocks ++ 0 ∷ []) s1 (rw k h) in
      (
        s2,
        bind_listo (blk_mutex 0) _ s s tt (blk_mutex_ok 0 s h)
            ∙ (bind_listo (link 0 ft (length blocks)) _ s s1 b e
                ∙ (f ∙ ap (λ bs. listo bs s2) (append_assoc blocks (0 ∷ []) (replicate n 0)))),
        l ∙ k,
      )

  Validos : List ℕ → Fs → Type 0
  Validos blocks s = (j p : ℕ) → get_elem? blocks j ≡ some p → p < s.blocks_count

  encoger-Devuelve :
      (n : ℕ) (blocks : List ℕ) (s : Fs)
      → n ≤ length blocks
      → Validos blocks s
      → Devuelve (encoger ft n blocks) s (take (length blocks - n) blocks)
  unfolding encoger Devuelve Validos unlink
  encoger-Devuelve zero blocks s h v =
      let z : length blocks - 0 ≡ length blocks = omega arith in
      (s, ap (λ bs. listo bs s) (sym (ap (λ (i : ℕ). take i blocks) z ∙ take-length blocks)), refl)
  encoger-Devuelve (suc n) blocks s h v =
      let l : length blocks - 1 < length blocks = omega arith in
      let (p, g) = get_elem?-some_of_lt blocks (length blocks - 1) l in
      let (s1, e, k) = liberar-Devuelve p (estado_unlink s) in
      let q : length (take (length blocks - 1) blocks) ≡ length blocks - 1 =
        length-take (length blocks - 1) blocks (omega arith) in
      let (s2, f, m) =
        encoger-Devuelve n (take (length blocks - 1) blocks) s1 (omega arith)
          (λ j r x. rw k (v j r (get_elem?-take (length blocks - 1) j blocks r x))) in
      (
        s2,
        rw g (
            bind_listo (blk_mutex p) _ s s tt (blk_mutex_ok p s (v (length blocks - 1) p g))
            ∙ (bind_listo (liberar_si_ultimo p) _ _ s1 tt e
                ∙ (f
                    ∙ ap (λ bs. listo bs s2)
                        (rw q (
                          take-take _ (length blocks - 1) blocks (omega arith)
                          ∙ ap (λ (i : ℕ). take i blocks) (omega arith)))))),
        m ∙ k,
      )
    where
      estado_unlink : Fs → Fs
      estado_unlink t = record t {
        files =
            cambiar ft
              (λ d. record d { logical_blocks = desenlazar (length blocks - 1) d.logical_blocks })
              t.files;
      }

  ajustar-Devuelve :
      (k : ℕ) (blocks : List ℕ) (s : Fs)
      → 0 < s.blocks_count
      → Validos blocks s
      → Devuelve (ajustar ft k blocks) s (redimensionar k blocks)
  unfolding ajustar Devuelve
  ajustar-Devuelve k blocks s h v = elim (Bool-cases (ltb (length blocks) k)) [
    | inl t ↦ rw t (crecer-Devuelve (k - length blocks) blocks s h)
    | inr f ↦ elim (Bool-cases (ltb k (length blocks))) [
      | inl t ↦
          let z : length blocks - (length blocks - k) ≡ k = ground arith in
          rw (f, t) (rw z at (encoger-Devuelve (length blocks - k) blocks s (omega arith) v))
      | inr g ↦
          let z : k ≡ length blocks = ground arith in
          rw (f, g)
            (
              s,
              ap (λ bs. listo bs s) (sym (ap (λ (i : ℕ). take i blocks) z ∙ take-length blocks)),
              refl,
            )
    ]
  ]

Validos-Coherente :
    (ft : FileTag) (s : Fs) (meta : MetadataFile)
    → Coherente s
    → metadata_de ft s ≡ some meta
    → Validos ft meta.blocks s
unfolding Validos
Validos-Coherente ft s meta c e j p g =
    let (d, b, m) = directorio_de ft s meta e in
    (c.marcados ft d j p b (c.acordes ft d meta j p b m g)).0

-- The state that a truncate leaves, from the one behind its loops.
abbrev truncado : FileTag → Fs → MetadataFile → Fs → Fs
truncado ft s meta' s1 = record s1 {
  files = cambiar ft (λ d. record d { metadata = some meta' }) s1.files;
  locks_index = s.locks_index;
}

en_curso :
    (ft : FileTag) (meta : MetadataFile) (n : ℕ) (t : Fs)
    → meta.estado ≡ work_in_progress
    → truncate_meta ft n meta t
      ≡ (do
        needed_blocks ← dividir n
        blocks ← ajustar ft needed_blocks meta.blocks
        storage_metadata_write ft (record meta { tamanio = n; blocks = blocks })
        storage_signal ft
        pure op_exitosa)
          t
unfolding truncate_meta
en_curso ft meta n t w = rw (w, truncate_meta) (rw w refl)

truncate_en_curso :
    (ft : FileTag) (s s1 : Fs) (meta : MetadataFile) (n : ℕ) (blocks : List ℕ)
    → Libre ft s.locks_index
    → 0 < s.block_size
    → metadata_de ft s ≡ some meta
    → meta.estado ≡ work_in_progress
    → ajustar ft (n / s.block_size) meta.blocks (tomar ft s) ≡ listo blocks s1
    → s1.locks_index ≡ tomado ft s.locks_index
    → storage_truncate ft n s
      ≡ listo op_exitosa (truncado ft s (record meta { tamanio = n; blocks = blocks }) s1)
unfolding storage_truncate storage_metadata_write dividir
truncate_en_curso ft s s1 meta n blocks libre z e w f m =
    abrir ft _ s (some meta) libre e
    ∙ (en_curso ft meta n (tomar ft s) w
        ∙ (bind_listo (dividir n) _ (tomar ft s) (tomar ft s) (n / s.block_size)
              (rw (ne→== s.block_size 0 (omega arith)) refl)
            ∙ (bind_listo (ajustar ft (n / s.block_size) meta.blocks) _ (tomar ft s) s1 blocks f
                ∙ soltar ft (pure op_exitosa) s.locks_index
                    (record s1 {
                      files =
                          cambiar ft
                            (λ d. record d {
                              metadata = some (record meta { tamanio = n; blocks = blocks });
                            })
                            s1.files;
                    })
                    libre m)))

-- A truncate of a File:Tag in progress to the size `n`, from a free lock on a coherent disk, always
-- returns with success. metadata.config has the size `n` then, and as many blocks as fit in it whole:
-- the first ones of before, and behind them the block 0. The lock is given back, and the metadata and
-- the hard links of all other File:Tags are what they were.
pub storage_truncate-redimensionar :
    (ft : FileTag) (s : Fs) (meta : MetadataFile) (n : ℕ)
    → Libre ft s.locks_index
    → Coherente s
    → 0 < s.blocks_count
    → 0 < s.block_size
    → metadata_de ft s ≡ some meta
    → meta.estado ≡ work_in_progress
    → (s' : Fs) × (storage_truncate ft n s ≡ listo op_exitosa s')
      × (metadata_de ft s'
          ≡ some
              (record meta { tamanio = n; blocks = redimensionar (n / s.block_size) meta.blocks }))
      × (s'.locks_index ≡ s.locks_index)
      × ((g : FileTag) → mismo ft g ≡ false → buscar g s'.files ≡ buscar g s.files)
unfolding Devuelve metadata_de Validos
storage_truncate-redimensionar ft s meta n libre c h z e w =
    let (s1, f, k) =
      ajustar-Devuelve ft (n / s.block_size) meta.blocks (tomar ft s) h
        (Validos-Coherente ft s meta c e) in
    let m =
      usar (ajustar-Conserva ft (n / s.block_size) meta.blocks) (tomar ft s) s1
        (redimensionar (n / s.block_size) meta.blocks) f in
    let (d, b) = presente ft s meta e in
    let (d', b') = m.own d b in
    let meta' : MetadataFile = record meta {
      tamanio = n;
      blocks = redimensionar (n / s.block_size) meta.blocks;
    } in
    (
      truncado ft s meta' s1,
      truncate_en_curso ft s s1 meta n _ libre z e w f m.locks,
      escrita ft meta' d' s1 b',
      refl,
      λ g x. buscar-cambiar_ne ft _ (λ y. refl) g s1.files x ∙ m.others g x,
    )
