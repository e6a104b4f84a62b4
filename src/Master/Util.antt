-- ===== src/Master/Util.antt =====
-- master/src/master_util.c and process_handler.c. The mutexes bracket what stands between them, and
-- are left out; a list is read as it is at the moment of the call.
use Prim.Native.String.{String}
use tp_ssoo_2c.Base.{
  ltbℤ, ℕ, ◌+◌, ◌-◌, Bool, true, false, Option, none, some, List, [], ◌∷◌, ◌++◌, ◌==◌,
  if◌then◌else◌,
}
use tp_ssoo_2c.Codes.{RtaStorage, RazonFin, err_storage}
use tp_ssoo_2c.Master.{
  Query, Worker, Master, StateT, ready, exec, finished, hecho, espera, M, ◌>>=◌, ◌>>◌, pure, get,
  modificar, o_fallo, enviar, solicitud_ejecucion, desalojo_query, notif_final, notif_read,
}
use tp_ssoo_2c.Master.Lists.{
  buscar_query, cambiar_query, quitar_query, buscar_worker, cambiar_worker, quitar_worker,
  list_remove_element,
}

unfoldable pub query_de : ℕ → M Query
query_de i s = o_fallo (buscar_query i s.querys) s

unfoldable pub worker_de : ℕ → M Worker
worker_de i s = o_fallo (buscar_worker i s.workers) s

unfoldable pub asign_query_id : M ℕ
asign_query_id s = hecho (s.ultimo_id + 1) (record s { ultimo_id = s.ultimo_id + 1 })

-- `c_error` is sent for ERR_STORAGE alone.
unfoldable pub notificar_finalizacion : ℕ → RazonFin → RtaStorage → M (Unit {0})
notificar_finalizacion q razon c_error =
    enviar (notif_final q razon (elim razon [ err_storage ↦ some c_error | _ ↦ none ]))

unfoldable pub finalizar_query : ℕ → RazonFin → RtaStorage → M (Unit {0})
unfolding notificar_finalizacion
finalizar_query q razon c_error = do
  query ← query_de q
  modificar λ s. record s {
    querys_exec = list_remove_element q s.querys_exec;
    querys = cambiar_query q (λ k. record k { state = finished }) s.querys;
  }
  notificar_finalizacion q razon c_error

-- A `pc` of -1 keeps the old one.
unfoldable pub liberar_query : ℕ → Option ℕ → M (Unit {0})
liberar_query q pc = do
  query ← query_de q
  modificar λ s. record s {
    querys_exec = list_remove_element q s.querys_exec;
    querys =
        cambiar_query q
          (λ k. record k {
            worker = none;
            state = ready;
            pc = elim pc [ none ↦ k.pc | some n ↦ n ];
          })
          s.querys;
    querys_ready = s.querys_ready ++ q ∷ [];
    sem_ready = s.sem_ready + 1;
  }

unfoldable pub destruir_query : ℕ → M (Unit {0})
destruir_query q = do
  query ← query_de q
  modificar λ s. elim query.worker [
    | some _ ↦ record s {
      querys_exec = list_remove_element q s.querys_exec;
      querys = quitar_query q s.querys;
    }
    | none ↦ record s {
      querys_ready = list_remove_element q s.querys_ready;
      querys = quitar_query q s.querys;
    }
  ]

unfoldable pub liberar_worker : ℕ → M (Unit {0})
liberar_worker w = modificar λ s. record s {
  workers =
      cambiar_worker w (λ k. record k { state = ready; query = none; interrumpir = false })
        s.workers;
}

unfoldable pub destruir_worker : ℕ → M (Unit {0})
destruir_worker w = modificar λ s. record s { workers = quitar_worker w s.workers }

-- `list_remove(querys_ready, 0)`: the NULL of an empty list is `none`.
unfoldable pub obtener_query : M (Option ℕ)
obtener_query s = elim s.querys_ready [
  | [] ↦ hecho none s
  | q ∷ qs ↦ hecho (some q) (record s { querys_ready = qs })
]

-- The iterator of `buscar_worker_libre`.
unfoldable pub es_ready : StateT → Bool
es_ready ready = true
es_ready _ = false

unfoldable pub primer_libre : List Worker → Option Worker
unfolding es_ready
primer_libre [] = none
primer_libre (w ∷ ws) = if es_ready w.state then some w else primer_libre ws

unfoldable pub buscar_worker_libre : Master → Option Worker
buscar_worker_libre s = primer_libre s.workers

unfoldable pub hacer_par_query_worker : ℕ → ℕ → M (Unit {0})
hacer_par_query_worker q w = do
  query ← query_de q
  worker ← worker_de w
  modificar λ s. record s {
    querys_exec = s.querys_exec ++ q ∷ [];
    querys = cambiar_query q (λ k. record k { worker = some w; state = exec }) s.querys;
    workers = cambiar_worker w (λ k. record k { query = some q; state = exec }) s.workers;
  }

unfoldable pub solicitar_ejecucion_query : ℕ → ℕ → M (Unit {0})
solicitar_ejecucion_query q w = do
  query ← query_de q
  enviar (solicitud_ejecucion w query.file query.id query.pc)

unfoldable pub solicitar_desalojo : ℕ → M (Unit {0})
solicitar_desalojo q = do query ← query_de q; w ← o_fallo query.worker; enviar (desalojo_query w)

unfoldable pub notificar_read : ℕ → String → String → String → M (Unit {0})
notificar_read q file tag contenido = do
  query ← query_de q
  enviar (notif_read q file tag contenido)

-- `sem_wait` on the two semaphores of the loop of `process_handler`.
unfoldable pub esperar_par : M (Unit {0})
esperar_par s =
    if s.sem_ready == 0
    then espera
    else if s.sem_workers == 0
    then espera
    else hecho tt (record s { sem_ready = s.sem_ready - 1; sem_workers = s.sem_workers - 1 })

-- One round of `process_handler`.
unfoldable pub process_handler : M (Unit {0})
unfolding esperar_par
process_handler = do
  esperar_par
  query ← obtener_query
  q ← o_fallo query
  s ← get
  worker ← o_fallo (buscar_worker_libre s)
  hacer_par_query_worker q worker.id
  solicitar_ejecucion_query q worker.id
  modificar λ t. record t { sem_asign = if t.signal_asign then t.sem_asign + 1 else t.sem_asign }

-- A round of `buscar_victima`: the victim so far against the next query in execution. The worker is
-- read where the priority number is greater alone.
unfoldable pub mejor_victima : Query → Query → M Query
mejor_victima victima query =
    if ltbℤ victima.prioridad query.prioridad
    then (do
      w ← o_fallo query.worker
      worker ← worker_de w
      pure (if worker.interrumpir then victima else query))
    else pure victima

unfoldable pub recorrer_victimas : Query → List ℕ → M Query
recorrer_victimas victima [] = pure victima
recorrer_victimas victima (q ∷ qs) = do
  query ← query_de q
  victima' ← mejor_victima victima query
  recorrer_victimas victima' qs

-- NULL for an empty list of queries in execution.
unfoldable pub buscar_victima : M (Option Query)
buscar_victima s = elim s.querys_exec [
  | [] ↦ hecho none s
  | q ∷ qs ↦ (do query ← query_de q; victima ← recorrer_victimas query qs; pure (some victima)) s
]
