-- ===== src/Master/Preempt.antt =====
-- `pedir_desalojo`, the choice of `check_prior` (master/src/master_aging.c): whether a query in execution
-- has to give way.
use tp_ssoo_2c.Base.{
  ℕ, ltbℤ, ◌≤ℤ◌, ≤ℤ_of_ltbℤ-false, ≤ℤ_trans, ◌≡◌, refl, sym, ap, ◌∙◌, ◌⊎◌, inl, inr, Bool-cases,
  Bool, true, false, arith, if◌then◌else◌, some, List, ◌∷◌, some_inj,
}
use tp_ssoo_2c.Master.{
  Query, Worker, Master, Paso, hecho, o_fallo, bind_hecho, ◌>>◌, pure, modificar,
}
use tp_ssoo_2c.Master.Lists.{buscar_query, buscar_worker, cambiar_worker, contiene}
use tp_ssoo_2c.Master.Util.{query_de, worker_de, buscar_victima}
use tp_ssoo_2c.Master.Priority.{pedir_desalojo}
use tp_ssoo_2c.Master.Worst.{Desalojable}
use tp_ssoo_2c.Master.Victim.{
  Asignada, UnaDe, delante, query_de-hecho, worker_de-hecho, buscar_victima_max,
}

module _ (s : Master) (j : ℕ) (qs : List ℕ) (siguiente : Query) where
  -- The worker of the victim is told to stop: the victim is in execution, the query that waits has a
  -- lower priority number, and no query in execution that can be told to stop has a greater one.
  pub record Pedido (s' : Master) : Type 0 where
    pub victima : Query
    pub worker : Worker
    pub w : ℕ
    pub en_ejecucion : (buscar_query j s.querys ≡ some victima) ⊎ UnaDe s qs victima
    pub suya : victima.worker ≡ some w
    pub de_ella : buscar_worker w s.workers ≡ some worker
    pub libre : worker.interrumpir ≡ false
    pub mejor : ltbℤ siguiente.prioridad victima.prioridad ≡ true
    pub peor :
        (q : ℕ) (d : Desalojable s q)
        → contiene q (j ∷ qs) ≡ true
        → d.query.prioridad ≤ℤ victima.prioridad
    pub avisado : s' ≡ record s {
      signal_asign = true;
      workers = cambiar_worker w (λ k. record k { interrumpir = true }) s.workers;
    }

  -- Nothing changes: no query in execution that can be told to stop has a greater priority number than
  -- the one that waits; or the worker of the first query in execution was told to stop already, and that
  -- one has a greater number.
  pub record NoPedido (s' : Master) : Type 0 where
    pub igual : s' ≡ s
    pub por_que :
        ((q : ℕ) (d : Desalojable s q)
          → contiene q (j ∷ qs) ≡ true
          → d.query.prioridad ≤ℤ siguiente.prioridad)
        ⊎ ((d : Asignada s j) × (d.worker.interrumpir ≡ true)
            × (ltbℤ siguiente.prioridad d.query.prioridad ≡ true))

  -- The victim with its worker: it can be told to stop, or it is the first in execution.
  record ConWorker (v : Query) : Type 0 where
    worker : Worker
    w : ℕ
    suya : v.worker ≡ some w
    de_ella : buscar_worker w s.workers ≡ some worker
    cual : (worker.interrumpir ≡ false) ⊎ ((d : Asignada s j) × (d.worker ≡ worker) × (d.query ≡ v))

  con_worker :
      (v : Query) → Asignada s j → (buscar_query j s.querys ≡ some v) ⊎ UnaDe s qs v → ConWorker v
  con_worker v a (inl e) =
      let z : a.query ≡ v = some_inj _ _ (sym a.asignada ∙ e) in
      record {
        worker = a.worker;
        w = a.w;
        suya = ap (λ (q : Query). q.worker) (sym z) ∙ a.suya;
        de_ella = a.de_ella;
        cual = inr (a, refl, z);
      }
  con_worker v a (inr (q, c, d, z)) = record {
    worker = d.worker;
    w = d.w;
    suya = ap (λ (q : Query). q.worker) (sym z) ∙ d.suya;
    de_ella = d.de_ella;
    cual = inl d.libre;
  }

  la_primera :
      (v : Query) (k : ConWorker v)
      → ltbℤ siguiente.prioridad v.prioridad ≡ true
      → k.worker.interrumpir ≡ true
      → (d : Asignada s j) × (d.worker.interrumpir ≡ true)
        × (ltbℤ siguiente.prioridad d.query.prioridad ≡ true)
  la_primera v k t y = elim k.cual [
    | inl n ↦ absurd (ground arith)
    | inr (d, e, z) ↦ (d, ap (λ (x : Worker). x.interrumpir) e ∙ y, rw z t)
  ]

  module _ (q : ℕ) (lista : buscar_query q s.querys ≡ some siguiente) (v : Query)
      (halla : buscar_victima s ≡ hecho (some v) s) where
    no_mejor :
        ltbℤ siguiente.prioridad v.prioridad ≡ false → pedir_desalojo (some q) s ≡ hecho false s
    unfolding pedir_desalojo
    no_mejor f =
        bind_hecho buscar_victima _ s s (some v) halla
        ∙ bind_hecho (query_de q) _ s s siguiente (query_de-hecho q s siguiente lista)
        ∙ rw f

    module _ (k : ConWorker v) (t : ltbℤ siguiente.prioridad v.prioridad ≡ true) where
      abbrev pedido : Master
      pedido = record s {
        signal_asign = true;
        workers = cambiar_worker k.w (λ k. record k { interrumpir = true }) s.workers;
      }

      hasta_worker :
          (r : Paso Bool)
          → ((if k.worker.interrumpir then pure false else (do
            modificar λ s. record s {
              signal_asign = true;
              workers = cambiar_worker k.w (λ k. record k { interrumpir = true }) s.workers;
            }
            pure true))
                s
              ≡ r)
          → pedir_desalojo (some q) s ≡ r
      unfolding pedir_desalojo
      hasta_worker r e =
          bind_hecho buscar_victima _ s s (some v) halla
          ∙ (bind_hecho (query_de q) _ s s siguiente (query_de-hecho q s siguiente lista)
              ∙ rw t (
                  bind_hecho (o_fallo v.worker) _ s s k.w (ap (λ o. o_fallo o s) k.suya)
                  ∙ (bind_hecho (worker_de k.w) _ s s k.worker
                        (worker_de-hecho k.w s k.worker k.de_ella)
                      ∙ e)))

      ya_avisado : k.worker.interrumpir ≡ true → pedir_desalojo (some q) s ≡ hecho false s
      ya_avisado e = hasta_worker (hecho false s) (rw e refl)

      se_avisa : k.worker.interrumpir ≡ false → pedir_desalojo (some q) s ≡ hecho true pedido
      se_avisa e = hasta_worker (hecho true pedido) (rw e refl)

-- Where some query is in execution, each such query and its worker are allocated, and the query `q` is
-- allocated, `pedir_desalojo` ends for `q`. Either it asks for the eviction of a query in execution whose
-- worker was not told to stop, which has a greater priority number than `q` and no smaller one than any
-- other of these; or it asks for none and changes nothing, and then no such query has a greater number
-- than `q`, or the first in execution has and its worker was told to stop already.
pub pedir_desalojo-Decide :
    (s : Master) (j q : ℕ) (qs : List ℕ) (siguiente : Query)
    → s.querys_exec ≡ j ∷ qs
    → ((i : ℕ) → contiene i (j ∷ qs) ≡ true → Asignada s i)
    → buscar_query q s.querys ≡ some siguiente
    → (s' : Master) × (((pedir_desalojo (some q) s ≡ hecho true s') × Pedido s j qs siguiente s')
        ⊎ ((pedir_desalojo (some q) s ≡ hecho false s') × NoPedido s j qs siguiente s'))
pedir_desalojo-Decide s j q qs siguiente e h lista =
    let (v, halla, u, peor) = buscar_victima_max s j qs e h in
    let a = h j (delante j qs) in
    let k = con_worker s j qs siguiente v a u in
    elim (Bool-cases (ltbℤ siguiente.prioridad v.prioridad)) [
      | inr f ↦ (
        s,
        inr (
          no_mejor s j qs siguiente q lista v halla f,
          record {
            igual = refl;
            por_que = inl λ i d c.
                ≤ℤ_trans d.query.prioridad v.prioridad siguiente.prioridad (peor i d c)
                  (≤ℤ_of_ltbℤ-false v.prioridad siguiente.prioridad f);
          },
        ),
      )
      | inl t ↦ elim (Bool-cases k.worker.interrumpir) [
        | inr n ↦ (
          pedido s j qs siguiente q lista v halla k t,
          inl (
            se_avisa s j qs siguiente q lista v halla k t n,
            record {
              victima = v;
              worker = k.worker;
              w = k.w;
              en_ejecucion = u;
              suya = k.suya;
              de_ella = k.de_ella;
              libre = n;
              mejor = t;
              peor = peor;
              avisado = refl;
            },
          ),
        )
        | inl y ↦ (
          s,
          inr (
            ya_avisado s j qs siguiente q lista v halla k t y,
            record { igual = refl; por_que = inr (la_primera s j qs siguiente v k t y) },
          ),
        )
      ]
    ]
