-- ===== src/Worker/SecondPass.antt =====
-- The second `for` of algoritmo_CLOCK_M.
use tp_ssoo_2c.Base.{
  ℕ, zero, suc, ◌<◌, ◌≡◌, refl, sym, ap, ◌∙◌, Bool, true, false, some, List, length, Bool-cases,
  inl, inr, arith, some_inj,
}
use tp_ssoo_2c.Worker.{NodoMarco, NodoPagina, Memoria, pagina_en, poner_en}
use tp_ssoo_2c.Worker.Replacement.{mover_puntero_clock, sin_uso, quitar_uso, segunda_vuelta}
use tp_ssoo_2c.Worker.Ring.{
  BienFormada, Gastada, pagina_en-poner_self, poner_en-Gastada, pagina_en_lt, en, Gastada-refl,
  Gastada-trans, Gastada-BienFormada,
}
use tp_ssoo_2c.Worker.FirstPass.{Visto, avanza, avanza_lt, Visto-avanza}

-- One step of the second `for`.
module _ (s : Memoria) (m : NodoPagina) (h : BienFormada s)
    (g : pagina_en s.victima_clock s ≡ some m) where
  gastado : Memoria
  gastado = poner_en s.victima_clock (quitar_uso m) s

  pub pasado : Memoria
  unfolding gastado poner_en
  pasado = en (avanza (length s.marco) s.victima_clock) gastado

  pub pasado-Gastada : Gastada s pasado
  unfolding pasado gastado
  pasado-Gastada =
      Gastada-trans s gastado pasado (poner_en-Gastada s.victima_clock s m g)
        (Gastada-refl gastado _)

  pub pasado-BienFormada : BienFormada pasado
  unfolding pasado gastado poner_en
  pasado-BienFormada =
      Gastada-BienFormada s pasado h pasado-Gastada
        (avanza_lt (length s.marco) s.victima_clock h.puntero)

  pub pasado_propio : pagina_en s.victima_clock pasado ≡ some (quitar_uso m)
  unfolding pasado gastado pagina_en
  pasado_propio = pagina_en-poner_self s.victima_clock s m (quitar_uso m) g

  pub segunda_hallada : (n : ℕ) → sin_uso m ≡ true → segunda_vuelta (suc n) s ≡ some (true, s)
  unfolding segunda_vuelta
  segunda_hallada n t = rw (g, segunda_vuelta) (rw (t, segunda_vuelta))

  segunda_sigue : (n : ℕ) → sin_uso m ≡ false → segunda_vuelta (suc n) s ≡ segunda_vuelta n pasado
  unfolding segunda_vuelta mover_puntero_clock pasado gastado poner_en
  segunda_sigue n f =
      rw (g, segunda_vuelta) (rw (f, segunda_vuelta) (rw (h.numerada s.victima_clock m g) refl))

-- The end of the second `for`: the frame that was found was not in use, or none of those that it came
-- over is.
unfoldable pub Fin2 : Bool → ℕ → Memoria → Memoria → Type 0
Fin2 true n s s' = (m : NodoPagina) × (pagina_en s'.victima_clock s' ≡ some m) × (sin_uso m ≡ true)
Fin2 false n s s' =
    (j : ℕ) (m : NodoPagina)
    → Visto (length s.marco) n s.victima_clock j
    → pagina_en j s' ≡ some m
    → m.uso ≡ false

Fin2-sigue :
    (b : Bool) (n : ℕ) (s s' : Memoria) (m : NodoPagina) (h : BienFormada s)
    (g : pagina_en s.victima_clock s ≡ some m)
    → Gastada (pasado s m h g) s'
    → Fin2 b n (pasado s m h g) s'
    → Fin2 b (suc n) s s'
unfolding Fin2 pasado
Fin2-sigue true n s s' m h g k c = c
Fin2-sigue false n s s' m h g k c = λ j u v e.
    let l : j < length s.marco =
      rw (← (ap (λ (l : List NodoMarco). length l) k.marcos)) (pagina_en_lt j s' u e) in
    let (w, x, y) = k.conserva j u e in
    elim (Visto-avanza (length s.marco) n s.victima_clock j h.puntero l v) [
      | inl z ↦
          let q : pagina_en s.victima_clock (pasado s m h g) ≡ some w =
            ap (λ i. pagina_en i (pasado s m h g)) z ∙ x in
          let r : quitar_uso m ≡ w = some_inj (quitar_uso m) w (sym (pasado_propio s m h g) ∙ q) in
          elim y [ inl i ↦ rw (i, ← r) refl | inr i ↦ rw i refl ]
      | inr z ↦ c j u z e
    ]

pub segunda_lem :
    (n : ℕ) (s : Memoria)
    → BienFormada s
    → (b : Bool) × (s' : Memoria) × (segunda_vuelta n s ≡ some (b, s'))
      × BienFormada s'
      × Gastada s s'
      × Fin2 b n s s'
unfolding Fin2 segunda_vuelta
segunda_lem zero s h = (
  false,
  s,
  refl,
  h,
  Gastada-refl s s.victima_clock,
  λ j m v e. absurd (ground (arith, h.puntero)),
)
segunda_lem (suc n) s h =
    let (m, g) = h.cargada s.victima_clock h.puntero in
    elim (Bool-cases (sin_uso m)) [
      | inl t ↦ (true, s, segunda_hallada s m h g n t, h, Gastada-refl s s.victima_clock, (m, g, t))
      | inr f ↦
          let (b, s', e, h', k, c) = segunda_lem n (pasado s m h g) (pasado-BienFormada s m h g) in
          (
            b,
            s',
            segunda_sigue s m h g n f ∙ e,
            h',
            Gastada-trans s (pasado s m h g) s' (pasado-Gastada s m h g) k,
            Fin2-sigue b n s s' m h g k c,
          )
    ]
