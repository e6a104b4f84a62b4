-- ===== src/Worker/Clock.antt =====
-- The victim of algoritmo_CLOCK_M (worker/src/algoritmos_reemplazo.c).
use tp_ssoo_2c.Base.{
  ℕ, zero, suc, ◌<◌, ◌≡◌, refl, ap, ◌∙◌, Bool, true, false, Option, some, List, length, leb,
  Bool-cases, inl, inr, arith,
}
use tp_ssoo_2c.Worker.{NodoMarco, NodoPagina, Memoria, pagina_en}
use tp_ssoo_2c.Worker.Replacement.{
  sin_uso_ni_cambios, sin_uso, primera_vuelta, segunda_vuelta, o_sigue, buscar_clock,
  victima_clock_m,
}
use tp_ssoo_2c.Worker.Ring.{BienFormada, Gastada, pagina_en_lt, en, Gastada-refl, Gastada-trans}
use tp_ssoo_2c.Worker.FirstPass.{Visto, Fin1, primera_lem, en-BienFormada}
use tp_ssoo_2c.Worker.SecondPass.{segunda_hallada, Fin2, segunda_lem}

-- `s'` is where algoritmo_CLOCK_M stops from `s`: the pointer is at a frame whose page is not in use,
-- and pages have lost at most their use bits. A page that is neither in use nor modified is preferred
-- to all others, and then nothing has changed.
pub record Elegida (s s' : Memoria) : Type 0 where
  pub victima : NodoPagina
  pub esta : pagina_en s'.victima_clock s' ≡ some victima
  pub libre : victima.uso ≡ false
  pub gastada : Gastada s s'
  pub prefiere :
      (j : ℕ) (m : NodoPagina)
      → pagina_en j s ≡ some m
      → sin_uso_ni_cambios m ≡ true
      → (s'.paginas ≡ s.paginas) × (victima.modificado ≡ false)

uso_de : (m : NodoPagina) → sin_uso m ≡ true → m.uso ≡ false
uso_de m h = ground arith

limpio : (m : NodoPagina) → sin_uso_ni_cambios m ≡ true → (m.uso ≡ false) × (m.modificado ≡ false)
limpio m h = (ground arith, ground arith)

sucio : (m : NodoPagina) → sin_uso_ni_cambios m ≡ false → m.uso ≡ false → sin_uso m ≡ true
sucio m h k = ground arith

todos : (l p j : ℕ) → p < l → j < l → Visto l l p j
todos l p j h k = elim (Bool-cases (leb p j)) [
  | inl t ↦ inl (ground arith, omega arith)
  | inr f ↦ inr (ground arith)
]

-- Without a page that is neither in use nor modified there is nothing to prefer.
Nada : Memoria → Type 0
Nada s = (j : ℕ) (m : NodoPagina) → pagina_en j s ≡ some m → sin_uso_ni_cambios m ≡ false

ninguna : (s : Memoria) (q : ℕ) → BienFormada s → Fin1 false (length s.marco) s q → Nada s
unfolding Nada Fin1
ninguna s q h c j m e =
    c j m (todos (length s.marco) s.victima_clock j h.puntero (pagina_en_lt j s m e)) e

Elegida-segunda_vuelta :
    (s s' : Memoria) (m : NodoPagina)
    → Nada s
    → Gastada s s'
    → pagina_en s'.victima_clock s' ≡ some m
    → m.uso ≡ false
    → Elegida s s'
unfolding Nada
Elegida-segunda_vuelta s s' m n k g u = record {
  victima = m;
  esta = g;
  libre = u;
  gastada = k;
  prefiere = λ j w e t. absurd (ground (arith, n j w e));
}

length_suc : (l p : ℕ) → p < l → (n : ℕ) × (l ≡ suc n)
length_suc zero p k = absurd (omega arith)
length_suc (suc n) p k = (n, refl)

segunda_completa :
    (s : Memoria) (m : NodoPagina) (h : BienFormada s)
    → pagina_en s.victima_clock s ≡ some m
    → sin_uso m ≡ true
    → segunda_vuelta (length s.marco) s ≡ some (true, s)
segunda_completa s m h g t =
    let (n, e) = length_suc (length s.marco) s.victima_clock h.puntero in
    ap (λ (l : ℕ). segunda_vuelta l s) e ∙ segunda_hallada s m h g n t

buscar_primera :
    (fuel : ℕ) (s t : Memoria)
    → primera_vuelta (length s.marco) s ≡ some (true, t)
    → buscar_clock (suc fuel) s ≡ some t
unfolding buscar_clock
buscar_primera fuel s t e =
    ap (o_sigue (λ t. o_sigue (buscar_clock fuel) (segunda_vuelta (length t.marco) t))) e

buscar_segunda :
    (fuel : ℕ) (s t : Memoria) (r : Option (Bool × Memoria))
    → primera_vuelta (length s.marco) s ≡ some (false, t)
    → segunda_vuelta (length t.marco) t ≡ r
    → buscar_clock (suc fuel) s ≡ o_sigue (buscar_clock fuel) r
unfolding buscar_clock
buscar_segunda fuel s t r e f =
    ap (o_sigue (λ t. o_sigue (buscar_clock fuel) (segunda_vuelta (length t.marco) t))) e
    ∙ ap (o_sigue (buscar_clock fuel)) f

-- No page is in use.
SinUso : Memoria → Type 0
SinUso s = (j : ℕ) (m : NodoPagina) → pagina_en j s ≡ some m → m.uso ≡ false

Hallada : ℕ → Memoria → Type 0
Hallada fuel s =
    (s' : Memoria) × (buscar_clock fuel s ≡ some s')
    × Gastada s s'
    × ((m : NodoPagina) × (pagina_en s'.victima_clock s' ≡ some m) × (m.uso ≡ false))

-- A round of the `while` over pages that are not in use.
otra_ronda : (fuel : ℕ) (s : Memoria) → BienFormada s → SinUso s → Hallada (suc fuel) s
unfolding Hallada Fin1 SinUso Nada pagina_en
otra_ronda fuel s h u = let (b, q, k, e, c) = primera_lem (length s.marco) s h in segun b q k e c
  where
    segun :
        (b : Bool) (q : ℕ)
        → q < length s.marco
        → primera_vuelta (length s.marco) s ≡ some (b, en q s)
        → Fin1 b (length s.marco) s q
        → Hallada (suc fuel) s
    segun true q k e (m, g, t) =
        (en q s, buscar_primera fuel s (en q s) e, Gastada-refl s q, (m, g, u q m g))
    segun false q k e c =
        let (m, g) = h.cargada q k in
        let t : sin_uso m ≡ true = sucio m (ninguna s q h c q m g) (u q m g) in
        (
          en q s,
          buscar_segunda fuel s (en q s) _ e
              (segunda_completa (en q s) m (en-BienFormada q s h k) g t),
          Gastada-refl s q,
          (m, g, u q m g),
        )

completa :
    (s s' : Memoria) → BienFormada s → Gastada s s' → Fin2 false (length s.marco) s s' → SinUso s'
unfolding Fin2 SinUso
completa s s' h k c j m e =
    c j m
      (todos (length s.marco) s.victima_clock j h.puntero
        (rw (← ap (λ (l : List NodoMarco). length l) k.marcos) (pagina_en_lt j s' m e)))
      e

-- From a pointer to a frame, with the pages numbered as their frames, the `while` of algoritmo_CLOCK_M
-- ends within two rounds, at a frame whose page is not in use. On the way it takes away use bits alone;
-- and where a page is neither in use nor modified, it changes no page and the victim is such a page.
pub victima_clock_m-Elegida :
    (s : Memoria) → BienFormada s → (s' : Memoria) × (victima_clock_m s ≡ some s') × Elegida s s'
unfolding victima_clock_m Fin1 Fin2 Hallada pagina_en
victima_clock_m-Elegida s h =
    let (b, q, k, e, c) = primera_lem (length s.marco) s h in segun b q k e c
  where
    segun2 :
        (q : ℕ)
        → q < length s.marco
        → primera_vuelta (length s.marco) s ≡ some (false, en q s)
        → Nada s
        → (b : Bool) (u : Memoria) → segunda_vuelta (length s.marco) (en q s) ≡ some (b, u)
        → BienFormada u
        → Gastada (en q s) u
        → Fin2 b (length s.marco) (en q s) u
        → (s' : Memoria) × (buscar_clock 2 s ≡ some s') × Elegida s s'
    segun2 q k e n true u f hu ku (m, g, t) = (
      u,
      buscar_segunda 1 s (en q s) _ e f,
      Elegida-segunda_vuelta s u m n (Gastada-trans s (en q s) u (Gastada-refl s q) ku) g
          (uso_de m t),
    )
    segun2 q k e n false u f hu ku c =
        let (s', x, y, (m, g, z)) =
          otra_ronda 0 u hu (completa (en q s) u (en-BienFormada q s h k) ku c) in
        (
          s',
          buscar_segunda 1 s (en q s) _ e f ∙ x,
          Elegida-segunda_vuelta s s' m n
              (Gastada-trans s u s' (Gastada-trans s (en q s) u (Gastada-refl s q) ku) y) g z,
        )

    segun :
        (b : Bool) (q : ℕ)
        → q < length s.marco
        → primera_vuelta (length s.marco) s ≡ some (b, en q s)
        → Fin1 b (length s.marco) s q
        → (s' : Memoria) × (buscar_clock 2 s ≡ some s') × Elegida s s'
    segun true q k e (m, g, t) = (
      en q s,
      buscar_primera 1 s (en q s) e,
      record {
        victima = m;
        esta = g;
        libre = (limpio m t).0;
        gastada = Gastada-refl s q;
        prefiere = λ j w x y. (refl, (limpio m t).1);
      },
    )
    segun false q k e c =
        let (b, u, f, hu, ku, d) = segunda_lem (length s.marco) (en q s) (en-BienFormada q s h k) in
        segun2 q k e (ninguna s q h c) b u f hu ku d
