-- ===== src/Master/Worst.antt =====
-- The loop of `buscar_victima`: what no query in execution is greater than.
use mathlib.Core.Path.{subst}
use native.Mathlib.Decide.{ℕ_discrete}
use tp_ssoo_2c.Base.{
  ℕ, Bool, ltbℤ, ◌≤ℤ◌, ≤ℤ_refl, ≤ℤ_trans, ≤ℤ_of_ltbℤ, ≤ℤ_of_ltbℤ-false, ◌≡◌, sym, ap, ◌∙◌, true,
  false, some, List, [], ◌∷◌, arith, ne→==, some_inj, if◌then◌else◌, Bool-cases, inl, inr,
}
use tp_ssoo_2c.Master.{
  Query, Worker, Master, hecho, ◌>>=◌, pure, o_fallo, bind-eq-hecho, o_fallo-eq-hecho,
}
use tp_ssoo_2c.Master.Lists.{buscar_query, buscar_worker, contiene}
use tp_ssoo_2c.Master.Util.{query_de, worker_de, mejor_victima, recorrer_victimas, buscar_victima}

-- A query in execution, as it is allocated, with a worker that has not been told to stop.
pub record Desalojable (s : Master) (q : ℕ) : Type 0 where
  pub query : Query
  pub worker : Worker
  pub w : ℕ
  pub asignada : buscar_query q s.querys ≡ some query
  pub suya : query.worker ≡ some w
  pub de_ella : buscar_worker w s.workers ≡ some worker
  pub libre : worker.interrumpir ≡ false

query_de-eq-hecho :
    (q : ℕ) (s s' : Master) (a : Query)
    → query_de q s ≡ hecho a s'
    → (buscar_query q s.querys ≡ some a) × (s' ≡ s)
unfolding query_de
query_de-eq-hecho q s s' a h = o_fallo-eq-hecho (buscar_query q s.querys) s s' a h

worker_de-eq-hecho :
    (q : ℕ) (s s' : Master) (a : Worker)
    → worker_de q s ≡ hecho a s'
    → (buscar_worker q s.workers ≡ some a) × (s' ≡ s)
unfolding worker_de
worker_de-eq-hecho q s s' a h = o_fallo-eq-hecho (buscar_worker q s.workers) s s' a h

es_la_misma :
    (s : Master) (j : ℕ) (a : Query) (w : ℕ) (k : Worker) (d : Desalojable s j)
    → buscar_query j s.querys ≡ some a
    → a.worker ≡ some w
    → buscar_worker w s.workers ≡ some k
    → (d.query ≡ a) × (k.interrumpir ≡ false)
es_la_misma s j a w k d x y z =
    let e : d.query ≡ a = some_inj _ _ (sym d.asignada ∙ x) in
    let f : d.w ≡ w = some_inj _ _ (sym d.suya ∙ (ap (λ (q : Query). q.worker) e ∙ y)) in
    let g : d.worker ≡ k =
      some_inj _ _ (sym d.de_ella ∙ (ap (λ i. buscar_worker i s.workers) f ∙ z)) in
    (e, ap (λ (u : Worker). u.interrumpir) (sym g) ∙ d.libre)

elegida : (x u : Query) (s s' : Master) → hecho x s ≡ hecho u s' → (u ≡ x) × (s' ≡ s)
elegida x u s s' h = (cc, cc)

-- The comparison, where the priority number of the next query is greater: its worker is read.
mejor_mayor :
    (v a u : Query) (s s' : Master)
    → ltbℤ v.prioridad a.prioridad ≡ true
    → mejor_victima v a s ≡ hecho u s'
    → (s' ≡ s)
      × ((w : ℕ) × (k : Worker) × (a.worker ≡ some w)
          × (buscar_worker w s.workers ≡ some k)
          × (u ≡ (if k.interrumpir then v else a)))
unfolding mejor_victima
mejor_mayor v a u s s' l h =
    let h0 : (o_fallo a.worker >>= λ w. worker_de w >>= λ k. pure (if k.interrumpir then v else a))
          s
        ≡ hecho u s' =
      rw (l, mejor_victima) at h in
    let (w, s1, e1, h1) = bind-eq-hecho (o_fallo a.worker) _ s s' u h0 in
    let (k, s2, e2, h2) = bind-eq-hecho (worker_de w) _ s1 s' u h1 in
    let (b1, p1) = o_fallo-eq-hecho a.worker s s1 w e1 in
    let (b2, p2) = worker_de-eq-hecho w s1 s2 k e2 in
    let (b3, p3) = elegida _ u s2 s' h2 in
    (
      p3 ∙ (p2 ∙ p1),
      (w, k, b1, subst (λ (x : Master). buscar_worker w x.workers ≡ some k) p1 b2, b3),
    )

-- What a round of the loop keeps and reaches.
Mejora : Master → Master → Query → Query → Query → Type 0
Mejora s s' v a u =
    (s' ≡ s)
    × (v.prioridad ≤ℤ u.prioridad)
    × ((j : ℕ) (d : Desalojable s j)
        → buscar_query j s.querys ≡ some a
        → a.prioridad ≤ℤ u.prioridad)

no_peor :
    (v a : Query) (b : Bool)
    → ltbℤ v.prioridad a.prioridad ≡ true
    → v.prioridad ≤ℤ (if b then v else a).prioridad
no_peor v a true h = ≤ℤ_refl v.prioridad
no_peor v a false h = ≤ℤ_of_ltbℤ v.prioridad a.prioridad h

mejor_lem : (v a u : Query) (s s' : Master) → mejor_victima v a s ≡ hecho u s' → Mejora s s' v a u
unfolding Mejora mejor_victima
mejor_lem v a u s s' h = elim (Bool-cases (ltbℤ v.prioridad a.prioridad)) [
  | inr f ↦
      let h0 : hecho v s ≡ hecho u s' = rw (f, mejor_victima) at h in
      let (e, p) = elegida v u s s' h0 in
      let q = ≤ℤ_of_ltbℤ-false a.prioridad v.prioridad f in
      (p, rw e (≤ℤ_refl v.prioridad), λ j d x. rw e q)
  | inl t ↦
      let (p, (w, k, x, y, e)) = mejor_mayor v a u s s' t h in
      (
        p,
        rw e (no_peor v a k.interrumpir t),
        λ j d z. let (f, g) = es_la_misma s j a w k d z x y in rw (e, g) (≤ℤ_refl a.prioridad),
      )
]

caso :
    (j q : ℕ) (qs : List ℕ) (s : Master) (v0 v a u : Query) (d : Desalojable s q)
    → buscar_query j s.querys ≡ some a
    → Mejora s s v0 a u
    → u.prioridad ≤ℤ v.prioridad
    → (contiene q qs ≡ true → d.query.prioridad ≤ℤ v.prioridad)
    → contiene q (j ∷ qs) ≡ true
    → d.query.prioridad ≤ℤ v.prioridad
unfolding contiene Mejora
caso j q qs s v0 v a u d x m r ih c = elim (ℕ_discrete j q) [
  | yes e ↦
      let x' : buscar_query q s.querys ≡ some a = rw (← e) x in
      let f : d.query ≡ a = some_inj _ _ (sym d.asignada ∙ x') in
      let g = m.2 q d x' in rw f (≤ℤ_trans a.prioridad u.prioridad v.prioridad g r)
  | no n ↦ ih (rw (ne→== j q n) at c)
]

recorrer_lem :
    (qs : List ℕ) (v0 v : Query) (s s' : Master)
    → recorrer_victimas v0 qs s ≡ hecho v s'
    → (s' ≡ s)
      × (v0.prioridad ≤ℤ v.prioridad)
      × ((q : ℕ) (d : Desalojable s q) → contiene q qs ≡ true → d.query.prioridad ≤ℤ v.prioridad)
unfolding recorrer_victimas contiene Mejora
recorrer_lem [] v0 v s s' h =
    (cc, rw (elegida v0 v s s' h).0 (≤ℤ_refl v0.prioridad), λ q d c. absurd (ground arith))
recorrer_lem (j ∷ qs) v0 v s s' h =
    let (a, s1, e1, h1) = bind-eq-hecho (query_de j) _ s s' v h in
    let (u, s2, e2, h2) = bind-eq-hecho (mejor_victima v0 a) _ s1 s' v h1 in
    let (b1, p1) = query_de-eq-hecho j s s1 a e1 in
    let m : Mejora s s2 v0 a u =
      mejor_lem v0 a u s s2 (subst (λ (x : Master). mejor_victima v0 a x ≡ hecho u s2) p1 e2) in
    let h3 : recorrer_victimas u qs s ≡ hecho v s' =
      subst (λ (x : Master). recorrer_victimas u qs x ≡ hecho v s') m.0 h2 in
    let m' : Mejora s s v0 a u = subst (λ (x : Master). Mejora s x v0 a u) m.0 m in
    let (r1, r2, r3) = recorrer_lem qs u v s s' h3 in
    (
      r1,
      ≤ℤ_trans v0.prioridad u.prioridad v.prioridad m.1 r2,
      λ q d c. caso j q qs s v0 v a u d b1 m' r2 (λ x. r3 q d x) c,
    )

fin_igual : (u v : Query) (s s' : Master) → hecho (some u) s ≡ hecho (some v) s' → u ≡ v
fin_igual u v s s' h = cc

fin_estado : (u v : Query) (s s' : Master) → hecho (some u) s ≡ hecho (some v) s' → s ≡ s'
fin_estado u v s s' h = cc

primera :
    (j q : ℕ) (qs : List ℕ) (s : Master) (a u : Query) (d : Desalojable s q)
    → buscar_query j s.querys ≡ some a
    → a.prioridad ≤ℤ u.prioridad
    → (contiene q qs ≡ true → d.query.prioridad ≤ℤ u.prioridad)
    → contiene q (j ∷ qs) ≡ true
    → d.query.prioridad ≤ℤ u.prioridad
unfolding contiene
primera j q qs s a u d x r ih c = elim (ℕ_discrete j q) [
  | yes e ↦
      let x' : buscar_query q s.querys ≡ some a = rw (← e) x in
      let f : d.query ≡ a = some_inj _ _ (sym d.asignada ∙ x') in rw f r
  | no n ↦ ih (rw (ne→== j q n) at c)
]

pub victima_lem :
    (l : List ℕ) (s s' : Master) (v : Query) (q : ℕ) (d : Desalojable s q)
    → s.querys_exec ≡ l
    → buscar_victima s ≡ hecho (some v) s'
    → contiene q l ≡ true
    → (s' ≡ s) × (d.query.prioridad ≤ℤ v.prioridad)
unfolding buscar_victima contiene
victima_lem [] s s' v q d e h c = absurd (ground arith)
victima_lem (j ∷ qs) s s' v q d e h c =
    let h0 : (query_de j >>= λ a. recorrer_victimas a qs >>= λ u. pure (some u)) s
        ≡ hecho (some v) s' =
      rw (e, buscar_victima) at h in
    let (a, s1, e1, h1) = bind-eq-hecho (query_de j) _ s s' (some v) h0 in
    let (u, s2, e2, h2) = bind-eq-hecho (recorrer_victimas a qs) _ s1 s' (some v) h1 in
    let (b1, p1) = query_de-eq-hecho j s s1 a e1 in
    let (r1, r2, r3) =
      recorrer_lem qs a u s s2
        (subst (λ (x : Master). recorrer_victimas a qs x ≡ hecho u s2) p1 e2) in
    let g : u ≡ v = fin_igual u v s2 s' h2 in
    let z : s2 ≡ s' = fin_estado u v s2 s' h2 in
    (sym z ∙ r1, rw (← g) (primera j q qs s a u d b1 r2 (r3 q d) c))
