-- ===== src/Worker/Free.antt =====
-- The search of marco_libre (worker/src/memoria.c).
use tp_ssoo_2c.Base.{
  ℕ, zero, suc, ◌+◌, ◌≤◌, ◌<◌, ◌≡◌, refl, Bool, true, false, Option, none, some, List, [], ◌∷◌,
  length, get_elem?, arith,
}
use tp_ssoo_2c.Worker.{Memoria}
use tp_ssoo_2c.Worker.Frames.{libre_desde, marco_libre}

-- What the search promises: an answer is a free frame and all below it are taken; without an answer
-- all frames are taken.
unfoldable pub Libre : ℕ → ℕ → List Bool → Option ℕ → Type 0
Libre i n bits none = (j : ℕ) → j < n → get_elem? bits j ≡ some true
Libre i n bits (some k) =
    (j : ℕ) × (k ≡ i + j)
    × (j < n)
    × (get_elem? bits j ≡ some false)
    × ((l : ℕ) → l < j → get_elem? bits l ≡ some true)

Libre-tomado :
    (i n : ℕ) (bits : List Bool) (r : Option ℕ)
    → Libre (i + 1) n bits r
    → Libre i (suc n) (true ∷ bits) r
unfolding Libre
Libre-tomado i n bits none h = todos
  where
    todos : (j : ℕ) → j < suc n → get_elem? (true ∷ bits) j ≡ some true
    todos zero l = refl
    todos (suc j) l = h j (omega arith)
Libre-tomado i n bits (some k) (j, hk, hj, hf, hl) = (suc j, omega arith, omega arith, hf, menores)
  where
    menores : (l : ℕ) → l < suc j → get_elem? (true ∷ bits) l ≡ some true
    menores zero h = refl
    menores (suc l) h = hl l (omega arith)

libre_desde-Libre :
    (i n : ℕ) (bits : List Bool) → n ≤ length bits → Libre i n bits (libre_desde i n bits)
unfolding Libre libre_desde
libre_desde-Libre i zero bits h = λ j l. absurd (omega arith)
libre_desde-Libre i (suc n) [] h = absurd (omega arith)
libre_desde-Libre i (suc n) (true ∷ bits) h =
    Libre-tomado i n bits (libre_desde (i + 1) n bits)
      (libre_desde-Libre (i + 1) n bits (omega arith))
libre_desde-Libre i (suc n) (false ∷ bits) h =
    (0, omega arith, omega arith, refl, λ l k. absurd (omega arith))

-- marco_libre, over a bitmap with a bit for each frame, answers with the lowest free frame, or with
-- none where every frame is taken.
pub marco_libre-Libre :
    (s : Memoria)
    → length s.marco ≤ length s.bit_map
    → Libre 0 (length s.marco) s.bit_map (marco_libre s)
unfolding marco_libre
marco_libre-Libre s h = libre_desde-Libre 0 (length s.marco) s.bit_map h
