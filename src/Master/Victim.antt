-- ===== src/Master/Victim.antt =====
-- `buscar_victima`: which query has to leave its worker.
use tp_ssoo_2c.Base.{
  ℕ, ◌⊎◌, Bool, ltbℤ, ◌≤ℤ◌, ◌≡◌, refl, sym, ap, ◌∙◌, true, false, Option, some, List, [], ◌∷◌,
  arith, if◌then◌else◌, Bool-cases, inl, inr,
}
use tp_ssoo_2c.Master.{Paso, Query, Worker, Master, hecho, ◌>>=◌, pure, o_fallo, bind_hecho}
use tp_ssoo_2c.Master.Lists.{buscar_query, buscar_worker, contiene}
use tp_ssoo_2c.Master.Util.{query_de, worker_de, mejor_victima, recorrer_victimas, buscar_victima}
use tp_ssoo_2c.Master.Worst.{Desalojable, victima_lem}

-- A query in execution, as it is allocated, with an allocated worker.
pub record Asignada (s : Master) (q : ℕ) : Type 0 where
  pub query : Query
  pub worker : Worker
  pub w : ℕ
  pub asignada : buscar_query q s.querys ≡ some query
  pub suya : query.worker ≡ some w
  pub de_ella : buscar_worker w s.workers ≡ some worker

pub query_de-hecho :
    (q : ℕ) (s : Master) (a : Query) → buscar_query q s.querys ≡ some a → query_de q s ≡ hecho a s
unfolding query_de
query_de-hecho q s a h = ap (λ o. o_fallo o s) h

pub worker_de-hecho :
    (w : ℕ) (s : Master) (k : Worker)
    → buscar_worker w s.workers ≡ some k
    → worker_de w s ≡ hecho k s
unfolding worker_de
worker_de-hecho w s k h = ap (λ o. o_fallo o s) h

mejor_victima-hecho :
    (v a : Query) (s : Master) (w : ℕ) (k : Worker)
    → a.worker ≡ some w
    → buscar_worker w s.workers ≡ some k
    → (u : Query) × (mejor_victima v a s ≡ hecho u s)
      × ((u ≡ v) ⊎ ((u ≡ a) × (k.interrumpir ≡ false)))
unfolding mejor_victima
mejor_victima-hecho v a s w k x y = elim (Bool-cases (ltbℤ v.prioridad a.prioridad)) [
  | inl t ↦ (
    if k.interrumpir then v else a,
    rw (t, mejor_victima)
        (bind_hecho (o_fallo a.worker) _ s s w (ap (λ o. o_fallo o s) x)
          ∙ bind_hecho (worker_de w) _ s s k (worker_de-hecho w s k y)),
    cual v a k.interrumpir,
  )
  | inr f ↦ (v, rw (f, mejor_victima) refl, inl refl)
]
  where
    cual :
        (v a : Query) (b : Bool)
        → ((if b then v else a) ≡ v) ⊎ (((if b then v else a) ≡ a) × (b ≡ false))
    cual v a true = inl refl
    cual v a false = inr (refl, refl)

detras : (q j : ℕ) (qs : List ℕ) → contiene q qs ≡ true → contiene q (j ∷ qs) ≡ true
unfolding contiene
detras q j qs h = ground arith

pub delante : (j : ℕ) (qs : List ℕ) → contiene j (j ∷ qs) ≡ true
unfolding contiene
delante j qs = ground arith

-- One of the queries of a list, whose worker has not been told to stop.
abbrev pub UnaDe : Master → List ℕ → Query → Type 0
UnaDe s qs u = (q : ℕ) × (contiene q qs ≡ true) × (d : Desalojable s q) × (d.query ≡ u)

la_siguiente :
    (s : Master) (j : ℕ) (qs : List ℕ) (v u x : Query) (d : Asignada s j)
    → (u ≡ v) ⊎ ((u ≡ d.query) × (d.worker.interrumpir ≡ false))
    → (x ≡ u) ⊎ UnaDe s qs x
    → (x ≡ v) ⊎ UnaDe s (j ∷ qs) x
la_siguiente s j qs v u x d a (inr (q, c, k, e)) = inr (q, detras q j qs c, k, e)
la_siguiente s j qs v u x d (inl e) (inl f) = inl (f ∙ e)
la_siguiente s j qs v u x d (inr (e, n)) (inl f) = inr (
  j,
  delante j qs,
  record {
    query = d.query;
    worker = d.worker;
    w = d.w;
    asignada = d.asignada;
    suya = d.suya;
    de_ella = d.de_ella;
    libre = n;
  },
  sym (f ∙ e),
)

recorrer_victimas-hecho :
    (qs : List ℕ) (v : Query) (s : Master)
    → ((q : ℕ) → contiene q qs ≡ true → Asignada s q)
    → (u : Query) × (recorrer_victimas v qs s ≡ hecho u s) × ((u ≡ v) ⊎ UnaDe s qs u)
unfolding recorrer_victimas
recorrer_victimas-hecho [] v s h = (v, refl, inl refl)
recorrer_victimas-hecho (j ∷ qs) v s h =
    let d = h j (delante j qs) in
    let (u, e, a) = mejor_victima-hecho v d.query s d.w d.worker d.suya d.de_ella in
    let (x, f, b) = recorrer_victimas-hecho qs u s (λ q c. h q (detras q j qs c)) in
    (
      x,
      bind_hecho (query_de j) _ s s d.query (query_de-hecho j s d.query d.asignada)
          ∙ (bind_hecho (mejor_victima v d.query) _ s s u e ∙ f),
      la_siguiente s j qs v u x d a b,
    )

abre :
    (s : Master) (j : ℕ) (qs : List ℕ) (r : Paso (Option Query))
    → s.querys_exec ≡ j ∷ qs
    → buscar_victima s ≡ r
    → (query_de j >>= λ a. recorrer_victimas a qs >>= λ u. pure (some u)) s ≡ r
unfolding buscar_victima
abre s j qs r e h = rw (e, buscar_victima) at h

-- Where some query is in execution, and each such query and its worker are allocated, `buscar_victima`
-- ends with a victim and changes nothing. The victim is the first query in execution, whether its worker
-- was told to stop or not, or one in execution whose worker has not been told to stop; and no query in
-- execution whose worker has not been told to stop has a greater priority number than the victim.
pub buscar_victima_max :
    (s : Master) (j : ℕ) (qs : List ℕ)
    → s.querys_exec ≡ j ∷ qs
    → ((q : ℕ) → contiene q (j ∷ qs) ≡ true → Asignada s q)
    → (v : Query) × (buscar_victima s ≡ hecho (some v) s)
      × ((buscar_query j s.querys ≡ some v) ⊎ UnaDe s qs v)
      × ((q : ℕ) (d : Desalojable s q)
          → contiene q (j ∷ qs) ≡ true
          → d.query.prioridad ≤ℤ v.prioridad)
buscar_victima_max s j qs e h =
    let d = h j (delante j qs) in
    let (v, f, u) = recorrer_victimas-hecho qs d.query s (λ q c. h q (detras q j qs c)) in
    let z : buscar_victima s ≡ hecho (some v) s =
      sym (abre s j qs (buscar_victima s) e refl)
      ∙ (bind_hecho (query_de j) _ s s d.query (query_de-hecho j s d.query d.asignada)
          ∙ bind_hecho (recorrer_victimas d.query qs) _ s s v f) in
    (
      v,
      z,
      elim u [ inl x ↦ inl (d.asignada ∙ ap some (sym x)) | inr x ↦ inr x ],
      λ q k c. (victima_lem (j ∷ qs) s s v q k e z c).1,
    )
