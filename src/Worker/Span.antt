-- ===== src/Worker/Span.antt =====
-- How many pages a buffer spans (`ceil` of worker/src/memoria.c), and what a read over them finds.
use native.Mathlib.Nat.{div-lt_iff_lt-mul}
use native.Mathlib.Decide.{ℕ_discrete}
use tp_ssoo_2c.Base.{
  ℕ, suc, ◌+◌, ◌-◌, ◌*◌, ◌<◌, ◌≤◌, ◌≡◌, refl, ap, sym, ◌∙◌, List, ◌++◌, length, take, drop, arith,
  length-drop,
}
use tp_ssoo_2c.Worker.Frames.{ceil}
use tp_ssoo_2c.Worker.Blocks.{
  aplanar, Llenos, por_uno, take_all, aplanar-take, take-corto, take-largo,
}

-- The number of pages for `n` bytes.
pub ceil_pos : (n tam : ℕ) → 0 < n → 0 < tam → 1 ≤ ceil n tam
ceil_pos n tam h k = elim (ℕ_discrete (ceil n tam) 0) [
  | yes z ↦ absurd (
      omega (
        arith,
        (div-lt_iff_lt-mul {k = tam} {x = n + tam - 1} {y = 1} (omega arith)).0 (omega (arith, z)),
      ))
  | no z ↦ omega arith
]

pub ceil_largo : (n tam : ℕ) → 1 ≤ ceil n tam → ceil n tam * tam ≡ tam + (ceil n tam - 1) * tam
ceil_largo n tam h =
    let z : suc (ceil n tam - 1) ≡ ceil n tam = omega arith in
    ap (λ m. m * tam) (sym z) ∙ por_uno (ceil n tam - 1) tam

-- What lies in the page of its address lies in the pages that are touched.
pub alcance_corto :
    (size tam off : ℕ) → off ≤ tam → 0 < tam → size ≤ tam - off → size ≤ ceil size tam * tam - off
alcance_corto size tam off ho ht l = elim (ℕ_discrete size 0) [
  | yes z ↦ omega (arith, z)
  | no z ↦ omega (
    arith,
    ceil_pos size tam (omega arith) ht,
    ceil_largo size tam (ceil_pos size tam (omega arith) ht),
  )
]

-- What a read over pages finds, from the rest of its first page and the pages behind.
pub leido_corto :
    (size tam off : ℕ) (b : List ℕ) (ys : List ℕ)
    → length b ≡ tam
    → off ≤ tam
    → 0 < tam
    → size ≤ tam - off
    → take size (take (ceil size tam * tam - off) (drop off b ++ ys)) ≡ take size (drop off b)
leido_corto size tam off b ys hb ho ht l =
    take-corto size (ceil size tam * tam - off) (drop off b) ys (omega (arith, length-drop off b))
      (alcance_corto size tam off ho ht l)

pub leido_largo :
    (size tam off : ℕ) (b : List ℕ) (bs : List (List ℕ))
    → length b ≡ tam
    → Llenos tam bs
    → off ≤ tam
    → tam - off < size
    → 0 < tam
    → ceil size tam - 1 ≤ length bs
    → take size (take (ceil size tam * tam - off) (drop off b ++ aplanar bs))
      ≡ take (tam - off) (drop off b)
        ++ take (size - (tam - off)) (aplanar (take (ceil size tam - 1) bs))
leido_largo size tam off b bs hb hs ho l ht m =
    let lb : length (drop off b) ≡ tam - off = omega (arith, length-drop off b) in
    let z : ceil size tam * tam - off ≡ length (drop off b) + (ceil size tam - 1) * tam =
      omega (arith, lb, ceil_largo size tam (ceil_pos size tam (omega arith) ht)) in
    rw
      (
        z,
        take-largo size ((ceil size tam - 1) * tam) (drop off b) (aplanar bs) (omega (arith, lb)),
        aplanar-take (ceil size tam - 1) tam bs hs m,
        take_all (tam - off) (drop off b) (omega (arith, lb)),
        lb,
      )
      refl
