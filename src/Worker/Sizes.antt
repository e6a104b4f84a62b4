-- ===== src/Worker/Sizes.antt =====
-- The size that a TRUNCATE sends (worker/src/interpreter.c).
use native.Mathlib.Nat.{mod-lt, mod-eq_of_lt, mod_self, mod-eq-sub-mod, mod-add-mod}
use tp_ssoo_2c.Base.{
  ℕ, ◌+◌, ◌-◌, ◌*◌, ◌%◌, ◌<◌, ◌≡◌, ◌↔◌, ◌⊎◌, inl, inr, ◌≢◌, refl, ap, sym, ◌∙◌, ◌==◌, ==_iff, ne→==,
  leb, leb→le, Bool-cases, arith,
}
use tp_ssoo_2c.Worker.Interpreter.{size_de_truncate}

suma : (r tam : ℕ) → 2 * r ≡ tam → r + r ≡ tam
suma r tam h = omega arith

eq-or_ne : (a b : ℕ) → (a ≡ b) ⊎ (a ≢ b)
eq-or_ne a b = elim (Bool-cases (a == b)) [
  | inl t ↦ inl ((==_iff a b).0 t)
  | inr f ↦ inr λ h. ground arith
]

-- Twice a rest.
doble : (r tam : ℕ) → r < tam → 0 < r → ((r + r) % tam ≡ 0) ↔ (2 * r ≡ tam)
doble r tam h k = elim (Bool-cases (leb tam (r + r))) [
  | inl t ↦ (
    (λ z. omega (
      arith,
      leb→le tam (r + r) t,
      mod-eq-sub-mod {n = r + r} {m = tam} (leb→le tam (r + r) t),
      mod-eq_of_lt {n = r + r - tam} {m = tam} (omega arith),
    )),
    (λ z. ap (λ n. n % tam) (suma r tam z) ∙ mod_self tam),
  )
  | inr f ↦ (
    (λ z. absurd (omega (arith, mod-eq_of_lt {n = r + r} {m = tam} (ground arith)))),
    (λ z. absurd (ground arith)),
  )
]

sin_resto : (size tam : ℕ) → size % tam ≡ 0 → size_de_truncate size tam ≡ size
unfolding size_de_truncate
sin_resto size tam h = rw h refl

con_resto : (size tam : ℕ) → size % tam ≢ 0 → size_de_truncate size tam ≡ size + size % tam
unfolding size_de_truncate
con_resto size tam h = rw (ne→== (size % tam) 0 h) refl

-- The rest of what is sent.
resto_doble :
    (size tam : ℕ)
    → size % tam ≢ 0
    → size_de_truncate size tam % tam ≡ (size % tam + size % tam) % tam
resto_doble size tam h =
    ap (λ n. n % tam) (con_resto size tam h) ∙ sym (mod-add-mod size tam (size % tam))

-- Behind the rounding of TRUNCATE the size is a multiple of the page size exactly where it was one
-- before, or where it was half a page above one.
pub size_de_truncate-multiplo :
    (size tam : ℕ)
    → 0 < tam
    → (size_de_truncate size tam % tam ≡ 0) ↔ ((size % tam ≡ 0) ⊎ (2 * (size % tam) ≡ tam))
size_de_truncate-multiplo size tam h = elim (eq-or_ne (size % tam) 0) [
  | inl z ↦ ((λ _. inl z), (λ _. ap (λ n. n % tam) (sin_resto size tam z) ∙ z))
  | inr n ↦ (
    (λ z. inr (
        (doble (size % tam) tam (mod-lt size h) (omega arith)).0
          (sym (resto_doble size tam n) ∙ z))),
    (λ d. elim d [
      | inl z ↦ absurd (n z)
      | inr w ↦ resto_doble size tam n ∙ (doble (size % tam) tam (mod-lt size h) (omega arith)).1 w
    ]),
  )
]
