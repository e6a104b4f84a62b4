-- ===== src/Worker/Blocks.antt =====
-- Blocks of one length, one behind the other: a buffer that lies in several pages.
use tp_ssoo_2c.Base.{
  ℕ, zero, suc, ◌+◌, ◌-◌, ◌*◌, ◌<◌, ◌≤◌, ◌≡◌, refl, ap, sym, ◌∙◌, some, List, [], ◌∷◌, ◌++◌, length,
  get_elem?, take, drop, if◌then◌else◌, Bool-cases, inl, inr, arith, ltb, ltb→lt, take-length,
  take-take, append-nil,
}

abbrev pub aplanar : List (List ℕ) → List ℕ
aplanar [] = []
aplanar (b ∷ bs) = b ++ aplanar bs

menos_nada : (n : ℕ) → 0 - n ≡ 0
menos_nada n = omega arith

menos_cero : (n : ℕ) → n - 0 ≡ n
menos_cero n = omega arith

menos_suc : (m n : ℕ) → suc m - suc n ≡ m - n
menos_suc m n = omega arith

abbrev pub corte : ℕ → ℕ → ℕ
corte size tam = if ltb size tam then size else tam

pub corte-le : (m n : ℕ) → (corte m n ≤ m) × (corte m n ≤ n)
corte-le m n = ground arith

pub take-append :
    (n : ℕ) (b resto : List ℕ) → take n (b ++ resto) ≡ take n b ++ take (n - length b) resto
take-append zero [] resto = refl
take-append (suc n) [] resto = rw (menos_cero (suc n)) refl
take-append zero (x ∷ xs) resto = rw (menos_nada (length (x ∷ xs))) refl
take-append (suc n) (x ∷ xs) resto =
    rw (menos_suc n (length xs)) (ap (λ ys. x ∷ ys) (take-append n xs resto))

pub take_nil : (n : ℕ) → take {A = ℕ} n [] ≡ []
take_nil zero = refl
take_nil (suc n) = refl

pub take_all : (n : ℕ) (b : List ℕ) → length b ≤ n → take n b ≡ b
take_all zero [] h = refl
take_all (suc n) [] h = refl
take_all zero (x ∷ xs) h = absurd (omega arith)
take_all (suc n) (x ∷ xs) h = ap (λ ys. x ∷ ys) (take_all n xs (omega arith))

-- What a round takes, and what is left for the next ones.
pub take-corte :
    (n : ℕ) (b resto : List ℕ)
    → take (corte n (length b)) b ++ take (n - corte n (length b)) resto ≡ take n (b ++ resto)
take-corte n b resto = elim (Bool-cases (ltb n (length b))) [
  | inl t ↦
      let z : n - n ≡ n - length b = omega (arith, ltb→lt n (length b) t) in
      rw (t, z) (sym (take-append n b resto))
  | inr f ↦
      let l : length b ≤ n = ground arith in
      rw (f, take-length b, take-append n b resto, take_all n b l) refl
]

drop-suc :
    (j : ℕ) (xs : List (List ℕ)) (b : List ℕ) (bs : List (List ℕ))
    → drop j xs ≡ b ∷ bs
    → (get_elem? xs j ≡ some b) × (drop (suc j) xs ≡ bs)
drop-suc zero [] b bs h = absurd (ground arith)
drop-suc zero (x ∷ xs) b bs h = ground arith
drop-suc (suc j) [] b bs h = absurd (ground arith)
drop-suc (suc j) (x ∷ xs) b bs h = drop-suc j xs b bs h

pub drop_cons :
    (j : ℕ) (xs : List (List ℕ)) (b : List ℕ) (bs : List (List ℕ))
    → drop j xs ≡ b ∷ bs
    → (get_elem? xs j ≡ some b) × (drop (j + 1) xs ≡ bs)
drop_cons j xs b bs h =
    let (k, l) = drop-suc j xs b bs h in let z : j + 1 ≡ suc j = omega arith in (k, rw z l)

pub drop_all : (n : ℕ) (b : List ℕ) → length b ≤ n → drop n b ≡ []
drop_all zero [] h = refl
drop_all (suc n) [] h = refl
drop_all zero (x ∷ xs) h = absurd (omega arith)
drop_all (suc n) (x ∷ xs) h = drop_all n xs (omega arith)

pub drop-append :
    (n : ℕ) (xs ys : List ℕ) → drop n (xs ++ ys) ≡ drop n xs ++ drop (n - length xs) ys
drop-append zero xs ys = rw (menos_nada (length xs)) refl
drop-append (suc n) [] ys = rw (menos_cero (suc n)) refl
drop-append (suc n) (x ∷ xs) ys = rw (menos_suc n (length xs)) (drop-append n xs ys)

pub mas_suc : (a b : ℕ) → suc a + b ≡ suc (a + b)
mas_suc a b = omega arith

pub mas_cero : (b : ℕ) → 0 + b ≡ b
mas_cero b = omega arith

drop_nil : (b : ℕ) → drop {A = ℕ} b [] ≡ []
drop_nil zero = refl
drop_nil (suc b) = refl

pub drop-drop : (a b : ℕ) (xs : List ℕ) → drop (a + b) xs ≡ drop b (drop a xs)
drop-drop zero b xs = rw (mas_cero b) refl
drop-drop (suc a) b [] = rw (mas_suc a b, drop_nil b) refl
drop-drop (suc a) b (x ∷ xs) = rw (mas_suc a b) (drop-drop a b xs)

abbrev pub Llenos : ℕ → List (List ℕ) → Type 0
Llenos tam [] = Unit
Llenos tam (b ∷ bs) = (length b ≡ tam) × Llenos tam bs

pub todos-Llenos :
    (tam : ℕ) (bs : List (List ℕ))
    → ((j : ℕ) (b : List ℕ) → get_elem? bs j ≡ some b → length b ≡ tam)
    → Llenos tam bs
todos-Llenos tam [] h = tt
todos-Llenos tam (b ∷ bs) h = (h 0 b refl, todos-Llenos tam bs (λ j. h (suc j)))

pub Llenos-drop : (k tam : ℕ) (bs : List (List ℕ)) → Llenos tam bs → Llenos tam (drop k bs)
Llenos-drop zero tam bs h = h
Llenos-drop (suc k) tam [] h = h
Llenos-drop (suc k) tam (b ∷ bs) (h, hs) = Llenos-drop k tam bs hs

pub por_uno : (n tam : ℕ) → suc n * tam ≡ tam + n * tam
por_uno n tam = omega arith

pub por_cero : (tam : ℕ) → 0 * tam ≡ 0
por_cero tam = omega arith

pub aplanar-take :
    (n tam : ℕ) (bs : List (List ℕ))
    → Llenos tam bs
    → n ≤ length bs
    → aplanar (take n bs) ≡ take (n * tam) (aplanar bs)
aplanar-take zero tam bs h l = rw (por_cero tam) refl
aplanar-take (suc n) tam [] h l = absurd (omega arith)
aplanar-take (suc n) tam (b ∷ bs) (h, hs) l =
    let z : suc n * tam - length b ≡ n * tam = omega (arith, por_uno n tam) in
    let g : length b ≤ suc n * tam = omega (arith, por_uno n tam) in
    rw
      (
        take-append (suc n * tam) b (aplanar bs),
        take_all (suc n * tam) b g,
        z,
        aplanar-take n tam bs hs (omega arith),
      )
      refl

pub drop-aplanar :
    (k tam : ℕ) (bs : List (List ℕ))
    → Llenos tam bs
    → k ≤ length bs
    → drop (k * tam) (aplanar bs) ≡ aplanar (drop k bs)
drop-aplanar zero tam bs h l = rw (por_cero tam) refl
drop-aplanar (suc k) tam [] h l = absurd (omega arith)
drop-aplanar (suc k) tam (b ∷ bs) (h, hs) l =
    let z : suc k * tam - length b ≡ k * tam = omega (arith, por_uno k tam) in
    let g : drop (suc k * tam) b ≡ [] = drop_all (suc k * tam) b (omega (arith, por_uno k tam)) in
    rw (drop-append (suc k * tam) b (aplanar bs), g, z, drop-aplanar k tam bs hs (omega arith)) refl

-- An address `off` behind the start of block `k`.
pub drop-aplanar_off :
    (k off tam : ℕ) (bs : List (List ℕ)) (b : List ℕ) (cs : List (List ℕ))
    → Llenos tam bs
    → drop k bs ≡ b ∷ cs
    → k ≤ length bs
    → off ≤ tam
    → drop (k * tam + off) (aplanar bs) ≡ drop off b ++ aplanar cs
drop-aplanar_off k off tam bs b cs h d l m =
    let hb : length b ≡ tam = (rw d at (Llenos-drop k tam bs h)).0 in
    let z : off - length b ≡ 0 = omega arith in
    rw
      (
        drop-drop (k * tam) off (aplanar bs),
        drop-aplanar k tam bs h l,
        d,
        drop-append off b (aplanar cs),
        z,
      )
      refl

-- A part that lies in the first of two buffers.
pub take-corto :
    (n m : ℕ) (xs ys : List ℕ) → n ≤ length xs → n ≤ m → take n (take m (xs ++ ys)) ≡ take n xs
take-corto n m xs ys l k =
    let z : n - length xs ≡ 0 = omega arith in
    take-take n m (xs ++ ys) k ∙ (take-append n xs ys ∙ rw z (append-nil (take n xs)))

-- A part that takes the first of two buffers whole.
pub take-largo :
    (n m : ℕ) (xs ys : List ℕ)
    → length xs ≤ n
    → take n (take (length xs + m) (xs ++ ys)) ≡ xs ++ take (n - length xs) (take m ys)
take-largo n m xs ys l =
    let z : length xs + m - length xs ≡ m = omega arith in
    rw
      (
        take-append (length xs + m) xs ys,
        take_all (length xs + m) xs (omega arith),
        z,
        take-append n xs (take m ys),
        take_all n xs l,
      )
      refl

pub drop_lt :
    (k : ℕ) (bs : List (List ℕ))
    → k < length bs
    → (b : List ℕ) × (cs : List (List ℕ)) × (get_elem? bs k ≡ some b) × (drop k bs ≡ b ∷ cs)
drop_lt k [] h = absurd (omega arith)
drop_lt zero (b ∷ bs) h = (b, bs, refl, refl)
drop_lt (suc k) (b ∷ bs) h = drop_lt k bs (omega arith)

pub length-drop_list : (k : ℕ) (bs : List (List ℕ)) → length (drop k bs) ≡ length bs - k
length-drop_list zero bs = omega arith
length-drop_list (suc k) [] = omega arith
length-drop_list (suc k) (b ∷ bs) = omega (arith, length-drop_list k bs)
