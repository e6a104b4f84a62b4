-- ===== src/Storage/Bitmap/Search.antt =====
-- The search of `find_free_block` (storage/src/storage_bitmap.c).
use tp_ssoo_2c.Base.{
  ℕ, zero, suc, ◌+◌, ◌-◌, ◌≤◌, ◌<◌, ◌≡◌, ◌≢◌, refl, Bool, true, false, Option, none, some, List,
  length, set, arith, get_elem?-set_self, get_elem?-set_ne, inl, inr, Bool-cases,
}
use native.Mathlib.Decide.{ℕ_discrete}
use tp_ssoo_2c.Storage.{Fs, listo}
use tp_ssoo_2c.Storage.Bitmap.{test_bit, buscar_libre, find_free_block, reservar}

-- Every bit from `i` up to `j`, without it, is set.
abbrev pub Ocupados : List Bool → ℕ → ℕ → Type 0
Ocupados bits i j = (k : ℕ) → i ≤ k → k < j → test_bit bits k ≡ true

buscar_libre-some :
    (n i : ℕ) (bits : List Bool) (p : ℕ)
    → buscar_libre n i bits ≡ some p
    → (i ≤ p) × (p < i + n) × (test_bit bits p ≡ false) × Ocupados bits i p
unfolding buscar_libre
buscar_libre-some zero i bits p h = ground arith
buscar_libre-some (suc n) i bits p h = elim (Bool-cases (test_bit bits i)) [
  | inr f ↦
      let e : i ≡ p = ground arith in
      (omega arith, omega arith, rw (← e) f, λ k a b. absurd (omega arith))
  | inl t ↦
      let (a, b, c, d) = buscar_libre-some n (i + 1) bits p (rw t at h) in
      (
        omega arith,
        omega arith,
        c,
        λ k u v. elim (ℕ_discrete i k) [ yes e ↦ rw (← e) t | no e ↦ d k (omega arith) v ],
      )
]

buscar_libre-none :
    (n i : ℕ) (bits : List Bool) → buscar_libre n i bits ≡ none → Ocupados bits i (i + n)
unfolding buscar_libre
buscar_libre-none zero i bits h k u v = absurd (omega arith)
buscar_libre-none (suc n) i bits h k u v = elim (Bool-cases (test_bit bits i)) [
  | inr f ↦ ground arith
  | inl t ↦ elim (ℕ_discrete i k) [
    | yes e ↦ rw (← e) t
    | no e ↦ buscar_libre-none n (i + 1) bits (rw t at h) k (omega arith) (omega arith)
  ]
]

pub test_bit-set_self :
    (bits : List Bool) (p : ℕ) (b : Bool) → p < length bits → test_bit (set bits p b) p ≡ b
unfolding test_bit
test_bit-set_self bits p b h = rw (get_elem?-set_self bits p b h, test_bit)

pub test_bit-set_ne :
    (bits : List Bool) (p k : ℕ) (b : Bool) → p ≢ k → test_bit (set bits p b) k ≡ test_bit bits k
unfolding test_bit
test_bit-set_ne bits p k b ne = rw (get_elem?-set_ne bits p k b ne, test_bit)

-- What a call of `find_free_block` did to the state: nothing if it found none, and then every block
-- above 0 is taken; or it took the lowest free block above 0, which is now marked, and changed no
-- other bit and nothing else.
abbrev pub Hallado : Fs → Option ℕ → Fs → Type 0
Hallado s none s' = (s' ≡ s) × Ocupados s.bitmap 1 (length s.bitmap)
Hallado s (some p) s' =
    (0 < p)
    × (p < length s.bitmap)
    × (test_bit s.bitmap p ≡ false)
    × Ocupados s.bitmap 1 p
    × (s' ≡ record s { bitmap = set s.bitmap p true })
    × (test_bit s'.bitmap p ≡ true)
    × ((k : ℕ) → p ≢ k → test_bit s'.bitmap k ≡ test_bit s.bitmap k)

pub buscar_libre-Hallado :
    (s : Fs) (r : Option ℕ)
    → buscar_libre (length s.bitmap - 1) 1 s.bitmap ≡ r
    → Hallado s r (reservar r s)
unfolding reservar
buscar_libre-Hallado s none h =
    (refl, λ k u v. buscar_libre-none (length s.bitmap - 1) 1 s.bitmap h k u (omega arith))
buscar_libre-Hallado s (some p) h =
    let (a, b, c, d) = buscar_libre-some (length s.bitmap - 1) 1 s.bitmap p h in
    let lt : p < length s.bitmap = omega arith in
    (
      omega arith,
      lt,
      c,
      d,
      refl,
      test_bit-set_self s.bitmap p true lt,
      λ k ne. test_bit-set_ne s.bitmap p k true ne,
    )

-- `find_free_block` always returns, and takes the lowest free block above 0, or none if there is none.
pub find_free_block-Hallado :
    (s : Fs) → (r : Option ℕ) × (s' : Fs) × (find_free_block s ≡ listo r s') × Hallado s r s'
unfolding find_free_block
find_free_block-Hallado s =
    let r = buscar_libre (length s.bitmap - 1) 1 s.bitmap in
    (r, reservar r s, refl, buscar_libre-Hallado s r refl)

pub find_free_block-none :
    (s : Fs)
    → buscar_libre (length s.bitmap - 1) 1 s.bitmap ≡ none
    → find_free_block s ≡ listo none s
unfolding find_free_block reservar
find_free_block-none s h = rw (h, find_free_block, reservar)

pub find_free_block-some :
    (s : Fs) (q : ℕ)
    → buscar_libre (length s.bitmap - 1) 1 s.bitmap ≡ some q
    → find_free_block s ≡ listo (some q) (record s { bitmap = set s.bitmap q true })
unfolding find_free_block reservar
find_free_block-some s q h = rw (h, find_free_block, reservar)
