-- ===== src/Worker/FirstPass.antt =====
-- The first `for` of algoritmo_CLOCK_M.
use tp_ssoo_2c.Base.{
  ℕ, zero, suc, ◌+◌, ◌≤◌, ◌<◌, ◌≡◌, refl, sym, ap, ◌∙◌, ◌⊎◌, Bool, true, false, some, length, ◌==◌,
  if◌then◌else◌, Bool-cases, inl, inr, arith, some_inj,
}
use tp_ssoo_2c.Worker.{NodoPagina, Memoria, pagina_en}
use tp_ssoo_2c.Worker.Replacement.{mover_puntero_clock, sin_uso_ni_cambios, primera_vuelta}
use tp_ssoo_2c.Worker.Ring.{BienFormada, pagina_en_lt, en, Gastada-refl, Gastada-BienFormada}

-- The frame that `n` steps from `p` come over, around a ring of `l`.
abbrev pub Visto : ℕ → ℕ → ℕ → ℕ → Type 0
Visto l n p j = ((p ≤ j) × (j < p + n)) ⊎ (j + l < p + n)

abbrev pub avanza : ℕ → ℕ → ℕ
avanza l p = if p + 1 == l then 0 else p + 1

pub avanza_lt : (l p : ℕ) → p < l → avanza l p < l
avanza_lt l p h = ground arith

pub Visto-avanza :
    (l n p j : ℕ) → p < l → j < l → Visto l (suc n) p j → (p ≡ j) ⊎ Visto l n (avanza l p) j
Visto-avanza l n p j h k v = ground arith

-- The end of the first `for`.
unfoldable pub Fin1 : Bool → ℕ → Memoria → ℕ → Type 0
Fin1 true n s q = (m : NodoPagina) × (pagina_en q s ≡ some m) × (sin_uso_ni_cambios m ≡ true)
Fin1 false n s q =
    (j : ℕ) (m : NodoPagina)
    → Visto (length s.marco) n s.victima_clock j
    → pagina_en j s ≡ some m
    → sin_uso_ni_cambios m ≡ false

pub en-BienFormada :
    (q : ℕ) (s : Memoria) → BienFormada s → q < length s.marco → BienFormada (en q s)
en-BienFormada q s h k = Gastada-BienFormada s (en q s) h (Gastada-refl s q) k

primera_hallada :
    (n : ℕ) (s : Memoria) (m : NodoPagina)
    → pagina_en s.victima_clock s ≡ some m
    → sin_uso_ni_cambios m ≡ true
    → primera_vuelta (suc n) s ≡ some (true, s)
unfolding primera_vuelta
primera_hallada n s m g t = rw (g, primera_vuelta) (rw (t, primera_vuelta))

primera_sigue :
    (n : ℕ) (s : Memoria) (m : NodoPagina)
    → pagina_en s.victima_clock s ≡ some m
    → m.nro_marco ≡ some s.victima_clock
    → sin_uso_ni_cambios m ≡ false
    → primera_vuelta (suc n) s ≡ primera_vuelta n (en (avanza (length s.marco) s.victima_clock) s)
unfolding primera_vuelta mover_puntero_clock
primera_sigue n s m g k f = rw (g, primera_vuelta) (rw (f, k, primera_vuelta) refl)

Fin1-sigue :
    (b : Bool) (n q : ℕ) (s : Memoria) (m : NodoPagina)
    → BienFormada s
    → pagina_en s.victima_clock s ≡ some m
    → sin_uso_ni_cambios m ≡ false
    → Fin1 b n (en (avanza (length s.marco) s.victima_clock) s) q
    → Fin1 b (suc n) s q
unfolding Fin1 pagina_en
Fin1-sigue true n q s m h g f c = c
Fin1-sigue false n q s m h g f c = λ j u v e.
    elim (Visto-avanza (length s.marco) n s.victima_clock j h.puntero (pagina_en_lt j s u e) v) [
      | inl x ↦ let y : m ≡ u = some_inj m u (sym g ∙ (ap (λ i. pagina_en i s) x ∙ e)) in rw (← y) f
      | inr w ↦ c j u w e
    ]

pub primera_lem :
    (n : ℕ) (s : Memoria)
    → BienFormada s
    → (b : Bool) × (q : ℕ) × (q < length s.marco)
      × (primera_vuelta n s ≡ some (b, en q s))
      × Fin1 b n s q
unfolding Fin1 primera_vuelta
primera_lem zero s h =
    (false, s.victima_clock, h.puntero, refl, λ j m v e. absurd (ground (arith, h.puntero)))
primera_lem (suc n) s h =
    let (m, g) = h.cargada s.victima_clock h.puntero in
    elim (Bool-cases (sin_uso_ni_cambios m)) [
      | inl t ↦ (true, s.victima_clock, h.puntero, primera_hallada n s m g t, (m, g, t))
      | inr f ↦
          let h1 : BienFormada (en (avanza (length s.marco) s.victima_clock) s) =
            en-BienFormada (avanza (length s.marco) s.victima_clock) s h
              (avanza_lt (length s.marco) s.victima_clock h.puntero) in
          let (b, q, k, e, c) = primera_lem n (en (avanza (length s.marco) s.victima_clock) s) h1 in
          (
            b,
            q,
            k,
            primera_sigue n s m g (h.numerada s.victima_clock m g) f ∙ e,
            Fin1-sigue b n q s m h g f c,
          )
    ]
