-- ===== src/Worker/Patches.antt =====
-- memcpy to a buffer that lies in several blocks.
use tp_ssoo_2c.Base.{
  ℕ, zero, suc, ◌+◌, ◌-◌, ◌*◌, ◌≤◌, ◌≡◌, refl, ap, sym, ◌∙◌, some, List, [], ◌∷◌, ◌++◌, length,
  get_elem?, set, take, drop, append_assoc, append-nil, arith, length-append, length-take, some_inj,
  lt_of_get_elem?, ltb, Bool-cases, inl, inr, ltb→lt, take-length, take_append_length,
  drop_append_length,
}
use tp_ssoo_2c.Worker.Frames.{pisar}
use tp_ssoo_2c.Worker.Blocks.{
  aplanar, corte, corte-le, Llenos, take-append, take_all, drop-append, drop-drop, drop_all,
  por_uno, por_cero, mas_suc, mas_cero, take_nil,
}

append-take-drop : (n : ℕ) (xs : List ℕ) → take n xs ++ drop n xs ≡ xs
append-take-drop zero xs = refl
append-take-drop (suc n) [] = refl
append-take-drop (suc n) (x ∷ xs) = ap (λ ys. x ∷ ys) (append-take-drop n xs)

pub take-suma : (m n : ℕ) (xs : List ℕ) → take (m + n) xs ≡ take m xs ++ take n (drop m xs)
take-suma zero n xs = rw (mas_cero n) refl
take-suma (suc m) n [] = rw (mas_suc m n, take_nil n) refl
take-suma (suc m) n (x ∷ xs) = rw (mas_suc m n) (ap (λ ys. x ∷ ys) (take-suma m n xs))

mas_nada : (d : ℕ) → d + 0 ≡ d
mas_nada d = omega arith

pub pisar_nada : (d : ℕ) (z : List ℕ) → pisar d [] z ≡ z
unfolding pisar
pisar_nada d z = rw (mas_nada d) (append-take-drop d z)

-- A block in front stays.
pub pisar-tras : (d : ℕ) (x b z : List ℕ) → pisar (length b + d) x (b ++ z) ≡ b ++ pisar d x z
unfolding pisar
pisar-tras d x b z =
    let m : length b + d - length b ≡ d = omega arith in
    let n : length b + d + length x - length b ≡ d + length x = omega arith in
    rw
      (
        take-append (length b + d) b z,
        take_all (length b + d) b (omega arith),
        m,
        drop-append (length b + d + length x) b z,
        drop_all (length b + d + length x) b (omega arith),
        n,
      )
      (append_assoc b (take d z) (x ++ drop (d + length x) z))

-- What lies behind the block stays.
pub pisar-dentro :
    (d : ℕ) (x b z : List ℕ) → d + length x ≤ length b → pisar d x (b ++ z) ≡ pisar d x b ++ z
unfolding pisar
pisar-dentro d x b z h =
    let m : d - length b ≡ 0 = omega arith in
    let n : d + length x - length b ≡ 0 = omega arith in
    rw (take-append d b z, m, append-nil (take d b), drop-append (d + length x) b z, n)
      (sym (
        append_assoc (take d b) (x ++ drop (d + length x) b) z
        ∙ ap (λ ys. take d b ++ ys) (append_assoc x (drop (d + length x) b) z)))

take_frente : (n : ℕ) (xs ys : List ℕ) → length xs ≡ n → take n (xs ++ ys) ≡ xs
take_frente n xs ys h = rw (← h) (take_append_length xs ys)

drop_frente : (n : ℕ) (xs ys : List ℕ) → length xs ≡ n → drop n (xs ++ ys) ≡ ys
drop_frente n xs ys h = rw (← h) (drop_append_length xs ys)

-- Two writes one behind the other.
pub pisar-pisar :
    (d : ℕ) (x y z : List ℕ)
    → d ≤ length z
    → pisar (d + length x) y (pisar d x z) ≡ pisar d (x ++ y) z
unfolding pisar
pisar-pisar d x y z h =
    let a : List ℕ = take d z in
    let r : List ℕ = drop (d + length x) z in
    let l : length (a ++ x) ≡ d + length x = omega (arith, length-append a x, length-take d z h) in
    let p : a ++ (x ++ r) ≡ (a ++ x) ++ r = sym (append_assoc a x r) in
    let t : take (d + length x) (a ++ (x ++ r)) ≡ a ++ x =
      rw p (take_frente (d + length x) (a ++ x) r l) in
    let u : drop (d + length x + length y) (a ++ (x ++ r)) ≡ drop (d + (length x + length y)) z =
      drop-drop (d + length x) (length y) (a ++ (x ++ r))
      ∙ (ap (drop (length y)) (rw p (drop_frente (d + length x) (a ++ x) r l))
          ∙ (sym (drop-drop (d + length x) (length y) z) ∙ ap (λ n. drop n z) (omega arith))) in
    rw (t, u, length-append x y)
      (append_assoc a x (y ++ drop (d + (length x + length y)) z)
        ∙ ap (λ ys. a ++ ys) (sym (append_assoc x y (drop (d + (length x + length y)) z))))

-- A write to a block is a write to the blocks one behind the other.
pub aplanar-set :
    (k off tam : ℕ) (x : List ℕ) (bs : List (List ℕ)) (b : List ℕ)
    → Llenos tam bs
    → get_elem? bs k ≡ some b
    → off + length x ≤ tam
    → aplanar (set bs k (pisar off x b)) ≡ pisar (k * tam + off) x (aplanar bs)
aplanar-set k off tam x [] b h g l = absurd (ground arith)
aplanar-set zero off tam x (c ∷ cs) b (h, hs) g l =
    let e : c ≡ b = some_inj c b g in
    let z : 0 * tam + off ≡ off = omega arith in
    rw (z, ← e) (sym (pisar-dentro off x c (aplanar cs) (omega arith)))
aplanar-set (suc k) off tam x (c ∷ cs) b (h, hs) g l =
    let z : suc k * tam + off ≡ length c + (k * tam + off) = omega (arith, por_uno k tam) in
    rw (z, aplanar-set k off tam x cs b hs g l) (sym (pisar-tras (k * tam + off) x c (aplanar cs)))

pub largo-aplanar :
    (k tam : ℕ) (bs : List (List ℕ)) → Llenos tam bs → k ≤ length bs → k * tam ≤ length (aplanar bs)
largo-aplanar zero tam bs h l = omega (arith, por_cero tam)
largo-aplanar (suc k) tam [] h l = absurd (omega arith)
largo-aplanar (suc k) tam (b ∷ bs) (h, hs) l =
    omega
      (arith, por_uno k tam, largo-aplanar k tam bs hs (omega arith), length-append b (aplanar bs))

-- A round of a write over blocks, and the rounds that follow.
pub pisar-ronda :
    (j n tam : ℕ) (datos z : List ℕ)
    → j * tam ≤ length z
    → pisar
        (suc j * tam)
        (take (n * tam) (drop (corte (length datos) tam) datos))
        (pisar (j * tam + 0) (take (corte (length datos) tam) datos) z)
      ≡ pisar (j * tam) (take (suc n * tam) datos) z
pisar-ronda j n tam datos z h = elim (Bool-cases (ltb (length datos) tam)) [
  | inl t ↦
      let l : length datos ≤ suc n * tam =
        omega (arith, por_uno n tam, ltb→lt (length datos) tam t) in
      rw
        (
          t,
          take-length datos,
          drop_all (length datos) datos (omega arith),
          take_nil (n * tam),
          pisar_nada (suc j * tam) (pisar (j * tam + 0) datos z),
          mas_nada (j * tam),
          take_all (suc n * tam) datos l,
        )
        refl
  | inr f ↦
      let l : length (take tam datos) ≡ tam = length-take tam datos (ground arith) in
      let a : suc j * tam ≡ j * tam + length (take tam datos) = omega (arith, por_uno j tam, l) in
      rw
        (
          f,
          mas_nada (j * tam),
          a,
          pisar-pisar (j * tam) (take tam datos) (take (n * tam) (drop tam datos)) z h,
          por_uno n tam,
          take-suma tam (n * tam) datos,
        )
        refl
]

pub length-corte : (datos : List ℕ) (tam : ℕ) → length (take (corte (length datos) tam) datos) ≤ tam
length-corte datos tam =
    let (l, m) = corte-le (length datos) tam in
    omega (arith, length-take (corte (length datos) tam) datos l)

pub aplanar-ronda :
    (j n tam : ℕ) (datos : List ℕ) (bloques : List (List ℕ)) (b : List ℕ)
    → Llenos tam bloques
    → get_elem? bloques j ≡ some b
    → pisar
        ((j + 1) * tam)
        (take (n * tam) (drop (corte (length datos) tam) datos))
        (aplanar (set bloques j (pisar 0 (take (corte (length datos) tam) datos) b)))
      ≡ pisar (j * tam) (take (suc n * tam) datos) (aplanar bloques)
aplanar-ronda j n tam datos bloques b h g =
    let z : j + 1 ≡ suc j = omega arith in
    let l : length (take (corte (length datos) tam) datos) ≤ tam = length-corte datos tam in
    rw (z, aplanar-set j 0 tam (take (corte (length datos) tam) datos) bloques b h g (omega arith))
      (pisar-ronda j n tam datos (aplanar bloques)
        (largo-aplanar j tam bloques h (omega (arith, lt_of_get_elem? bloques j b g))))

-- The rest of a first block is written, and then the blocks behind it.
pub aplanar-largo :
    (k off n tam : ℕ) (datos : List ℕ) (bloques : List (List ℕ)) (b : List ℕ)
    → Llenos tam bloques
    → get_elem? bloques k ≡ some b
    → off ≤ tam
    → tam - off ≤ length datos
    → pisar
        ((k + 1) * tam)
        (take (n * tam) (drop (tam - off) datos))
        (aplanar (set bloques k (pisar off (take (tam - off) datos) b)))
      ≡ pisar (k * tam + off) (take (tam - off + n * tam) datos) (aplanar bloques)
aplanar-largo k off n tam datos bloques b h g l m =
    let x : List ℕ = take (tam - off) datos in
    let lx : length x ≡ tam - off = length-take (tam - off) datos m in
    let u : k + 1 ≡ suc k = omega arith in
    let z : (k + 1) * tam ≡ k * tam + off + length x =
      ap (λ i. i * tam) u ∙ omega (arith, por_uno k tam, lx) in
    let w : k * tam + off ≤ length (aplanar bloques) = omega (
      arith,
      por_uno k tam,
      largo-aplanar (suc k) tam bloques h (omega (arith, lt_of_get_elem? bloques k b g)),
    ) in
    rw
      (
        z,
        aplanar-set k off tam x bloques b h g (omega (arith, lx)),
        pisar-pisar (k * tam + off) x (take (n * tam) (drop (tam - off) datos)) (aplanar bloques) w,
        take-suma (tam - off) (n * tam) datos,
      )
      refl
