-- ===== src/Worker/Clean.antt =====
-- Pages that are dirty, present and modified, and how a FLUSH (worker/src/interpreter.c) may change them.
use native.Mathlib.Decide.{ℕ_discrete}
use tp_ssoo_2c.Base.{
  ℕ, ◌≡◌, inl, inr, refl, sym, ap, ◌∙◌, Bool, true, false, ◌&&◌, some, get_elem?, set, Bool-cases,
  some_inj, arith,
}
use tp_ssoo_2c.Worker.{NodoPagina, NodoMarco, Memoria, nodo}
use tp_ssoo_2c.Worker.Machine.{Entorno}
use tp_ssoo_2c.Worker.Ring.{nodo-set_self, nodo-set_ne}

abbrev pub sucia : NodoPagina → Bool
sucia p = p.modificado && p.presencia

contradice : (b : Bool) → b ≡ false → b ≡ true → ⊥
contradice b h k = ground arith

module _ (e : Entorno) where
  -- Every page of the table is there, with a frame where it is present.
  unfoldable pub Cargada : Memoria → ℕ → Type 0
  Cargada s a =
      (p : NodoPagina) × (nodo s.paginas a ≡ some p)
      × (sucia p ≡ true
          → (i : ℕ) × (m : NodoMarco) × (p.nro_marco ≡ some i) × (get_elem? s.marco i ≡ some m))

  unfoldable pub Limpia : Memoria → ℕ → Type 0
  Limpia s a = (p : NodoPagina) × (nodo s.paginas a ≡ some p) × (sucia p ≡ false)

  -- No page has become dirty, and frames are as they were.
  pub record Limpiada (s t : Memoria) : Type 0 where
    pub marcos : t.marco ≡ s.marco
    pub paginas :
        (a : ℕ) (p : NodoPagina)
        → nodo s.paginas a ≡ some p
        → (q : NodoPagina) × (nodo t.paginas a ≡ some q)
          × (q.nro_marco ≡ p.nro_marco)
          × (sucia q ≡ true → sucia p ≡ true)

  pub Limpiada-refl : (s : Memoria) → Limpiada s s
  Limpiada-refl s = record { marcos = refl; paginas = λ a p h. (p, h, refl, λ d. d) }

  pub Limpiada-trans : (s t u : Memoria) → Limpiada s t → Limpiada t u → Limpiada s u
  Limpiada-trans s t u g h = record {
    marcos = h.marcos ∙ g.marcos;
    paginas = λ a p k.
        let (q, kq, nq, dq) = g.paginas a p k in
        let (r, kr, nr, dr) = h.paginas a q kq in (r, kr, nr ∙ nq, λ d. dq (dr d));
  }

  pub Cargada-Limpiada : (s t : Memoria) (a : ℕ) → Limpiada s t → Cargada s a → Cargada t a
  unfolding Cargada
  Cargada-Limpiada s t a g (p, h, c) =
      let (q, k, n, d) = g.paginas a p h in
      (
        q,
        k,
        λ z.
            let (i, m, ki, km) = c (d z) in (i, m, n ∙ ki, ap (λ ms. get_elem? ms i) g.marcos ∙ km),
      )

  pub Limpia-Limpiada : (s t : Memoria) (a : ℕ) → Limpiada s t → Limpia s a → Limpia t a
  unfolding Limpia
  Limpia-Limpiada s t a g (p, h, c) =
      let (q, k, n, d) = g.paginas a p h in
      (
        q,
        k,
        elim (Bool-cases (sucia q)) [ inl w ↦ absurd (contradice (sucia p) c (d w)) | inr f ↦ f ],
      )

  -- The bit `modificado` of one page is taken away.
  pub limpiar-Limpiada :
      (s : Memoria) (a : ℕ) (p : NodoPagina)
      → nodo s.paginas a ≡ some p
      → Limpiada s (record s { paginas = set s.paginas a (some (record p { modificado = false })) })
  limpiar-Limpiada s a p h = record {
    marcos = refl;
    paginas = λ b r k. elim (ℕ_discrete a b) [
      | yes i ↦
          let h2 : nodo s.paginas b ≡ some p = rw (← i) h in
          (
            record p { modificado = false },
            rw (← i) (nodo-set_self s.paginas a p (record p { modificado = false }) h),
            ap (λ q. q.nro_marco) (some_inj p r (sym h2 ∙ k)),
            λ d. absurd (ground arith),
          )
      | no n ↦ (
        r,
        nodo-set_ne s.paginas a b (some (record p { modificado = false })) n ∙ k,
        refl,
        λ d. d,
      )
    ];
  }
