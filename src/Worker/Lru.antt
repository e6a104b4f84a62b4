-- ===== src/Worker/Lru.antt =====
-- The victim of algoritmo_LRU (worker/src/algoritmos_reemplazo.c).
use tp_ssoo_2c.Base.{
  ℕ, zero, suc, ◌≤◌, ◌<◌, ◌≡◌, refl, Bool, true, false, some, List, [], ◌∷◌, get_elem?, ltb,
  if◌then◌else◌, arith, ltb→lt, some_inj,
}
use tp_ssoo_2c.Worker.{NodoMarco}
use tp_ssoo_2c.Worker.Replacement.{recorrer_marcos, victima_lru}

-- No frame has a smaller time than `v`.
abbrev pub Minimo : NodoMarco → List NodoMarco → Type 0
Minimo v ms = (i : ℕ) (m : NodoMarco) → get_elem? ms i ≡ some m → v.time ≤ m.time

abbrev pub Esta : NodoMarco → List NodoMarco → Type 0
Esta v ms = (j : ℕ) × (get_elem? ms j ≡ some v)

Minimo-cons :
    (v m : NodoMarco) (ms : List NodoMarco) → v.time ≤ m.time → Minimo v ms → Minimo v (m ∷ ms)
Minimo-cons v m ms h k zero u e = rw (← some_inj m u e) h
Minimo-cons v m ms h k (suc i) u e = k i u e

Esta-cons : (v w m : NodoMarco) (ms : List NodoMarco) → Esta v (w ∷ ms) → Esta v (w ∷ m ∷ ms)
Esta-cons v w m ms (zero, e) = (0, e)
Esta-cons v w m ms (suc j, e) = (suc (suc j), e)

Esta-detras : (v w : NodoMarco) (ms : List NodoMarco) → Esta v ms → Esta v (w ∷ ms)
Esta-detras v w ms (j, e) = (suc j, e)

Elegido : NodoMarco → NodoMarco → List NodoMarco → Type 0
Elegido v w ms = (v.time ≤ w.time) × Minimo v ms × Esta v (w ∷ ms)

cambia :
    (v w m : NodoMarco) (ms : List NodoMarco)
    → m.time < w.time
    → Elegido v m ms
    → Elegido v w (m ∷ ms)
unfolding Elegido
cambia v w m ms h (a, b, c) = (omega arith, Minimo-cons v m ms a b, Esta-detras v w (m ∷ ms) c)

sigue :
    (v w m : NodoMarco) (ms : List NodoMarco)
    → w.time ≤ m.time
    → Elegido v w ms
    → Elegido v w (m ∷ ms)
unfolding Elegido
sigue v w m ms h (a, b, c) = (a, Minimo-cons v m ms (omega arith) b, Esta-cons v w m ms c)

elegir :
    (w m : NodoMarco) (ms : List NodoMarco) (b : Bool)
    → ltb m.time w.time ≡ b
    → ((x : NodoMarco) → Elegido (recorrer_marcos x ms) x ms)
    → Elegido (recorrer_marcos (if b then m else w) ms) w (m ∷ ms)
elegir w m ms true h ih = cambia _ w m ms (ltb→lt m.time w.time h) (ih m)
elegir w m ms false h ih = sigue _ w m ms (ground arith) (ih w)

recorrer_marcos_lem : (ms : List NodoMarco) (w : NodoMarco) → Elegido (recorrer_marcos w ms) w ms
unfolding recorrer_marcos Elegido
recorrer_marcos_lem [] w = (ground arith, (λ i m e. absurd (ground arith)), (0, refl))
recorrer_marcos_lem (m ∷ ms) w = elegir w m ms (ltb m.time w.time) refl (recorrer_marcos_lem ms)

-- Where there is a frame at all, algoritmo_LRU picks one of the frames, and no frame was used longer
-- ago.
pub victima_lru-Minimo :
    (m : NodoMarco) (ms : List NodoMarco)
    → (v : NodoMarco) × (victima_lru (m ∷ ms) ≡ some v) × Esta v (m ∷ ms) × Minimo v (m ∷ ms)
unfolding victima_lru Elegido
victima_lru-Minimo m ms =
    let (a, b, c) = recorrer_marcos_lem ms m in
    (recorrer_marcos m ms, refl, c, Minimo-cons (recorrer_marcos m ms) m ms a b)
