-- ===== src/Master/Fifo/Left.antt =====
-- The two disconnections that the master does not survive under FIFO: `destruir_query` and
-- `destruir_worker` (master_util.c) take a query out of the ready list, or a free worker away, and
-- leave its unit in the semaphore.
use Prim.Native.String.{String}
use tp_ssoo_2c.Base.{
  ℕ, ◌-◌, ◌≡◌, ◌≢◌, refl, sym, ◌∙◌, Bool, true, false, some, none, List, [], ◌∷◌, arith, ne→==,
  ==_iff,
}
use tp_ssoo_2c.Master.{
  Query, Worker, Master, StateT, ready, exec, finished, hecho, fallo, o_fallo, bind_hecho,
  bind_fallo,
}
use tp_ssoo_2c.Master.Lists.{
  buscar_query, buscar_worker, quitar_query, quitar_worker, list_remove_element,
}
use tp_ssoo_2c.Master.Util.{
  query_de, worker_de, es_ready, primer_libre, buscar_worker_libre, esperar_par, obtener_query,
  process_handler, destruir_query, destruir_worker,
}
use tp_ssoo_2c.Master.Handlers.{query_handler, desconexion_worker, es_exec}
use tp_ssoo_2c.Master.Pairing.{query_de_ok, worker_de_ok}
use tp_ssoo_2c.Master.Fifo.{Alcanza}
use tp_ssoo_2c.Master.Fifo.Queries.{en_espera-Query, contiene-primero}
use tp_ssoo_2c.Master.Fifo.Workers.{libres, uno-libre, libres-quitar_worker, primer_libre-none}
use tp_ssoo_2c.Master.Fifo.Safety.{Alcanza-Ordenado}
use tp_ssoo_2c.Master.Fifo.Round.{lista_cons}

es_ready-eq-true : (e : StateT) → es_ready e ≡ true → e ≡ ready
unfolding es_ready
es_ready-eq-true ready h = refl
es_ready-eq-true exec h = absurd (ground arith)
es_ready-eq-true finished h = absurd (ground arith)

module _ (t : Master) (r : t.sem_ready ≢ 0) (l : t.sem_workers ≢ 0) where
  abbrev tomado : Master
  tomado = record t { sem_ready = t.sem_ready - 1; sem_workers = t.sem_workers - 1 }

  tomado_ok : esperar_par t ≡ hecho tt tomado
  unfolding esperar_par
  tomado_ok = rw (ne→== t.sem_ready 0 r, ne→== t.sem_workers 0 l) refl

  -- A round with a unit in both semaphores and no query.
  sin_query_fallo : t.querys_ready ≡ [] → process_handler t ≡ fallo
  unfolding process_handler obtener_query
  sin_query_fallo h =
      bind_hecho esperar_par _ t tomado tt tomado_ok
      ∙ (bind_hecho obtener_query _ tomado tomado none (rw h refl))

  -- A round with a unit in both semaphores and no free worker.
  sin_worker_fallo :
      (q : ℕ) (qs : List ℕ)
      → t.querys_ready ≡ q ∷ qs
      → primer_libre t.workers ≡ none
      → process_handler t ≡ fallo
  unfolding process_handler obtener_query buscar_worker_libre
  sin_worker_fallo q qs h n =
      bind_hecho esperar_par _ t tomado tt tomado_ok
      ∙ (bind_hecho obtener_query _ tomado (record tomado { querys_ready = qs }) (some q)
            (rw h refl)
          ∙ bind_fallo (o_fallo (primer_libre t.workers)) _ (record tomado { querys_ready = qs })
              (rw n refl))

module _ (las : (ℕ → ℕ → Bool) → ℕ → List ℕ → List ℕ) (ic : String → String → Bool)
    (algoritmo : String) (tiempo : ℕ) (s : Master) (fifo : ic algoritmo "FIFO" ≡ true)
    (alcanza : Alcanza las ic algoritmo tiempo s) where
  liberada :
      (q : ℕ) (k : Query)
      → buscar_query q s.querys ≡ some k
      → k.worker ≡ none
      → s.querys_ready ≡ q ∷ []
      → destruir_query q s
        ≡ hecho tt (record s { querys_ready = []; querys = quitar_query q s.querys })
  unfolding destruir_query list_remove_element
  liberada q k b m lista =
      bind_hecho (query_de q) _ s s k (query_de_ok q s k b)
      ∙ rw (m, lista, (==_iff q q).1 refl) refl

  -- The Query Control of the only query that waits disconnects.
  query_handler-deja_unidad :
      (q : ℕ) (k : Query)
      → s.querys_ready ≡ q ∷ []
      → buscar_query q s.querys ≡ some k
      → k.state ≡ ready
      → s.sem_workers ≢ 0
      → (t : Master) × (query_handler las q s ≡ hecho false t) × (process_handler t ≡ fallo)
  unfolding query_handler
  query_handler-deja_unidad q k lista b e l =
      let o = Alcanza-Ordenado las ic algoritmo tiempo s fifo alcanza in
      let (k', b', n) =
        en_espera-Query q s.querys (sym (o.cola.esperan q) ∙ rw lista (contiene-primero q [])) in
      let m : k.worker ≡ none = ground (arith, b, b', n) in
      let t : Master = record s { querys_ready = []; querys = quitar_query q s.querys } in
      (
        t,
        bind_hecho (query_de q) _ s s k (query_de_ok q s k b)
            ∙ rw e (bind_hecho (destruir_query q) _ s t tt (liberada q k b m lista)),
        sin_query_fallo t (λ z. ground (arith, z, lista, o.cola.cuenta)) l refl,
      )

  -- The only free worker disconnects.
  desconexion_worker-deja_unidad :
      (w : ℕ) (k : Worker)
      → buscar_worker w s.workers ≡ some k
      → es_ready k.state ≡ true
      → libres s.workers ≡ 1
      → s.sem_ready ≢ 0
      → (t : Master) × (desconexion_worker las w s ≡ hecho false t) × (process_handler t ≡ fallo)
  unfolding desconexion_worker destruir_worker es_exec
  desconexion_worker-deja_unidad w k b e n r =
      let o = Alcanza-Ordenado las ic algoritmo tiempo s fifo alcanza in
      let (q, qs, lista) = lista_cons s.querys_ready (λ z. r (o.cola.cuenta ∙ z)) in
      let t : Master = record s { workers = quitar_worker w s.workers } in
      (
        t,
        bind_hecho (worker_de w) _ s s k (worker_de_ok w s k b)
            ∙ rw (es_ready-eq-true k.state e) refl,
        sin_worker_fallo t r (λ z. omega (arith, z, o.plantel.cuenta)) q qs lista
            (primer_libre-none t.workers
              (omega (arith, libres-quitar_worker w s.workers k b, uno-libre k.state e))),
      )

  -- In a state that the master reaches under FIFO, with a single query that waits and a single free
  -- worker: where the Query Control of that query disconnects, and where that worker disconnects, the
  -- handler ends, and the next round of the scheduler uses a NULL.
  pub desconexiones-dejan_unidad :
      (q w : ℕ) (query : Query) (worker : Worker)
      → s.querys_ready ≡ q ∷ []
      → buscar_query q s.querys ≡ some query
      → query.state ≡ ready
      → libres s.workers ≡ 1
      → buscar_worker w s.workers ≡ some worker
      → es_ready worker.state ≡ true
      → ((t : Master) × (query_handler las q s ≡ hecho false t) × (process_handler t ≡ fallo))
        × ((t : Master) × (desconexion_worker las w s ≡ hecho false t)
            × (process_handler t ≡ fallo))
  desconexiones-dejan_unidad q w query worker lista de_query en_ready n de_worker libre =
      let o = Alcanza-Ordenado las ic algoritmo tiempo s fifo alcanza in
      (
        query_handler-deja_unidad q query lista de_query en_ready
            (λ z. omega (arith, z, n, o.plantel.cuenta)),
        desconexion_worker-deja_unidad w worker de_worker libre n
            (λ z. ground (arith, z, lista, o.cola.cuenta)),
      )
