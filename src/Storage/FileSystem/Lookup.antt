-- ===== src/Storage/FileSystem/Lookup.antt =====
-- A lookup after a change of one directory, of one hard link, of one lock.
use tp_ssoo_2c.Base.{
  ℕ, ◌<◌, ◌≡◌, refl, true, false, none, some, List, [], ◌∷◌, arith, Bool-cases, inl, inr, ◌≢◌,
}
use tp_ssoo_2c.Storage.{FileTag, mismo, eq_of_mismo, Directorio}
use tp_ssoo_2c.Storage.FileSystem.{buscar, cambiar, quitar, destino, desenlazar, contar, enlaces}

pub mismo-false_of_eq : (a b g : FileTag) → mismo a b ≡ true → mismo b g ≡ false → mismo a g ≡ false
mismo-false_of_eq a b g e h = rw (eq_of_mismo a b e) h

module _ (ft : FileTag) (f : Directorio → Directorio)
    (keep : (d : Directorio) → (f d).nombre ≡ d.nombre) where
  pub buscar-cambiar_self :
      (ds : List Directorio) (d : Directorio)
      → buscar ft ds ≡ some d
      → buscar ft (cambiar ft f ds) ≡ some (f d)
  unfolding buscar cambiar
  buscar-cambiar_self [] d h = ground arith
  buscar-cambiar_self (e ∷ ds) d h = elim (Bool-cases (mismo e.nombre ft)) [
    | inl p ↦ let q : mismo (f e).nombre ft ≡ true = rw (keep e) p in ground arith
    | inr n ↦ rw (n, n) (buscar-cambiar_self ds d (rw n at h))
  ]

  pub buscar-cambiar-none :
      (ds : List Directorio) → buscar ft ds ≡ none → buscar ft (cambiar ft f ds) ≡ none
  unfolding buscar cambiar
  buscar-cambiar-none [] h = refl
  buscar-cambiar-none (e ∷ ds) h = elim (Bool-cases (mismo e.nombre ft)) [
    | inl p ↦ ground arith
    | inr n ↦ rw (n, n) (buscar-cambiar-none ds (rw n at h))
  ]

  pub buscar-cambiar_ne :
      (g : FileTag) (ds : List Directorio)
      → mismo ft g ≡ false
      → buscar g (cambiar ft f ds) ≡ buscar g ds
  unfolding buscar cambiar
  buscar-cambiar_ne g [] h = refl
  buscar-cambiar_ne g (e ∷ ds) h = elim (Bool-cases (mismo e.nombre ft)) [
    | inl p ↦
        let q = mismo-false_of_eq e.nombre ft g p h in
        let r : mismo (f e).nombre g ≡ false = rw (keep e) q in ground arith
    | inr n ↦ rw n (ground (arith, buscar-cambiar_ne g ds h))
  ]

pub buscar-quitar_ne :
    (ft g : FileTag) (ds : List Directorio)
    → mismo ft g ≡ false
    → buscar g (quitar ft ds) ≡ buscar g ds
unfolding buscar quitar
buscar-quitar_ne ft g [] h = refl
buscar-quitar_ne ft g (e ∷ ds) h = elim (Bool-cases (mismo e.nombre ft)) [
  | inl p ↦ let q = mismo-false_of_eq e.nombre ft g p h in rw (p, q)
  | inr n ↦ rw n (ground (arith, buscar-quitar_ne ft g ds h))
]

pub destino-desenlazar_ne :
    (i j : ℕ) (ls : List (ℕ × ℕ)) → i ≢ j → destino j (desenlazar i ls) ≡ destino j ls
unfolding destino desenlazar
destino-desenlazar_ne i j [] h = refl
destino-desenlazar_ne i j ((k, p) ∷ ls) h = ground (arith, destino-desenlazar_ne i j ls h)

-- A link that is in a directory counts for its block.
pub contar-pos_of_destino : (i p : ℕ) (ls : List (ℕ × ℕ)) → destino i ls ≡ some p → 0 < contar p ls
unfolding destino contar
contar-pos_of_destino i p [] h = ground arith
contar-pos_of_destino i p ((k, q) ∷ ls) h = ground (arith, contar-pos_of_destino i p ls)

un_enlace :
    (g : FileTag) (j p : ℕ) (ds : List Directorio) (e : Directorio)
    → buscar g ds ≡ some e
    → destino j e.logical_blocks ≡ some p
    → 0 < enlaces p ds
unfolding buscar enlaces
un_enlace g j p [] e h k = ground arith
un_enlace g j p (x ∷ ds) e h k = elim (Bool-cases (mismo x.nombre g)) [
  | inl t ↦
      let q : x ≡ e = ground arith in
      let r : destino j x.logical_blocks ≡ some p = rw q k in
      omega (arith, contar-pos_of_destino j p x.logical_blocks r)
  | inr f ↦ omega (arith, un_enlace g j p ds e (rw f at h) k)
]

-- A block that two logical blocks of a directory link to counts twice in it.
pub contar-dos :
    (i j p : ℕ) (ls : List (ℕ × ℕ))
    → i ≢ j
    → destino i ls ≡ some p
    → destino j ls ≡ some p
    → 1 < contar p ls
unfolding destino contar
contar-dos i j p [] n h k = ground arith
contar-dos i j p ((l, q) ∷ ls) n h k =
    ground
      (arith, contar-dos i j p ls n, contar-pos_of_destino i p ls, contar-pos_of_destino j p ls)

pub dos_enlaces_propios :
    (ft : FileTag) (i j p : ℕ) (ds : List Directorio) (d : Directorio)
    → i ≢ j
    → buscar ft ds ≡ some d
    → destino i d.logical_blocks ≡ some p
    → destino j d.logical_blocks ≡ some p
    → 1 < enlaces p ds
unfolding buscar enlaces
dos_enlaces_propios ft i j p [] d n h a b = ground arith
dos_enlaces_propios ft i j p (x ∷ ds) d n h a b = elim (Bool-cases (mismo x.nombre ft)) [
  | inl t ↦
      let q : x ≡ d = ground arith in
      let r : destino i x.logical_blocks ≡ some p = rw q a in
      let u : destino j x.logical_blocks ≡ some p = rw q b in
      omega (arith, contar-dos i j p x.logical_blocks n r u)
  | inr f ↦ omega (arith, dos_enlaces_propios ft i j p ds d n (rw f at h) a b)
]

-- A block that two File:Tags link to has two links.
pub dos_enlaces :
    (ft g : FileTag) (i j p : ℕ) (ds : List Directorio) (d e : Directorio)
    → mismo ft g ≡ false
    → buscar ft ds ≡ some d
    → buscar g ds ≡ some e
    → destino i d.logical_blocks ≡ some p
    → destino j e.logical_blocks ≡ some p
    → 1 < enlaces p ds
unfolding buscar enlaces
dos_enlaces ft g i j p [] d e n h k a b = ground arith
dos_enlaces ft g i j p (x ∷ ds) d e n h k a b = elim (Bool-cases (mismo x.nombre ft)) [
  | inl t ↦
      let q : x ≡ d = ground arith in
      let r : destino i x.logical_blocks ≡ some p = rw q a in
      let m = mismo-false_of_eq x.nombre ft g t n in
      omega
        (arith, contar-pos_of_destino i p x.logical_blocks r, un_enlace g j p ds e (rw m at k) b)
  | inr f ↦ elim (Bool-cases (mismo x.nombre g)) [
    | inl t ↦
        let q : x ≡ e = ground arith in
        let r : destino j x.logical_blocks ≡ some p = rw q b in
        omega
          (arith, contar-pos_of_destino j p x.logical_blocks r, un_enlace ft i p ds d (rw f at h) a)
    | inr u ↦ omega (arith, dos_enlaces ft g i j p ds d e n (rw f at h) (rw u at k) a b)
  ]
]
