-- ===== src/Master/Handlers.antt =====
-- master/src/master_network_handler.c: the threads that receive, one message at a time.
-- `list_add_sorted` is the library's function on a list of pointers; `ic` is its
-- `string_equals_ignore_case`. A wait for a semaphore in the middle of a handler splits it in two.
use Prim.Native.String.{String}
use tp_ssoo_2c.Base.{
  ℤ, ℕ, ◌+◌, Bool, true, false, not, ◌&&◌, ◌||◌, none, List, [], ◌∷◌, ◌++◌, ◌==◌, if◌then◌else◌,
}
use tp_ssoo_2c.Codes.{RtaStorage, op_exitosa, finalizacion_correcta, err_desc_worker, err_storage}
use tp_ssoo_2c.Master.{
  Query, Worker, StateT, ready, exec, finished, M, ◌>>=◌, ◌>>◌, pure, get, modificar, o_fallo,
  enviar, resultado_interrupcion, resultado_ok, ack,
}
use tp_ssoo_2c.Master.Lists.{cambiar_query, cambiar_worker, list_remove_element}
use tp_ssoo_2c.Master.Util.{
  query_de, worker_de, asign_query_id, finalizar_query, destruir_query, liberar_worker,
  destruir_worker, notificar_read,
}
use tp_ssoo_2c.Master.Priority.{check_prior, agregar_ready}

module _ (list_add_sorted : (ℕ → ℕ → Bool) → ℕ → List ℕ → List ℕ) where
  -- CONSULTA_INTERRUPCION where `worker->interrumpir`: the query goes back to the ready list.
  unfoldable pub desalojar : ℕ → ℕ → ℕ → M (Unit {0})
  unfolding agregar_ready
  desalojar w q new_pc = do
    query ← query_de q
    modificar λ s. record s {
      querys_exec = list_remove_element q s.querys_exec;
      querys = cambiar_query q (λ k. record k { pc = new_pc; state = exec }) s.querys;
    }
    agregar_ready list_add_sorted q
    modificar λ s. record s {
      hilos_aging = if s.tiempo_aging == 0 then s.hilos_aging else q ∷ s.hilos_aging;
      sem_ready = s.sem_ready + 1;
      sem_int = s.sem_int + 1;
    }

  unfoldable pub soltar_worker : ℕ → M (Unit {0})
  soltar_worker w = do liberar_worker w; modificar λ s. record s { sem_workers = s.sem_workers + 1 }

  -- `worker->interrumpir || worker->query->interrumpir || worker->error_at_exec`.
  unfoldable pub interrupcion : Worker → M Bool
  interrupcion worker = if worker.interrumpir then pure true else (do
    q ← o_fallo worker.query
    query ← query_de q
    pure (query.interrumpir || worker.error_at_exec))

  -- The handler goes on with the next package where the value is true. `envio` is whether `send`
  -- returned more than 0.
  unfoldable pub consulta_interrupcion : Bool → ℕ → ℕ → M Bool
  unfolding interrupcion desalojar soltar_worker
  consulta_interrupcion envio w new_pc = do
    worker ← worker_de w
    result ← interrupcion worker
    if not envio then (do destruir_worker w; pure false) else (do
      enviar (resultado_interrupcion w result)
      q ← o_fallo worker.query
      if worker.interrumpir then desalojar w q new_pc else pure tt
      query ← query_de q
      modificar λ s. record s {
        workers =
            cambiar_worker w
              (λ k. record k {
                sem_interrupt =
                    if query.interrumpir && not k.error_at_exec
                    then k.sem_interrupt + 1
                    else k.sem_interrupt;
                error_at_exec = false;
              })
              s.workers;
      }
      if result then soltar_worker w else pure tt
      pure true)

  unfoldable pub lectura_master : Bool → ℕ → String → String → String → M Bool
  lectura_master envio w file tag contenido = do
    worker ← worker_de w
    q ← o_fallo worker.query
    notificar_read q file tag contenido
    if not envio
        then (do destruir_worker w; pure false)
        else (do enviar (resultado_ok w); pure true)

  unfoldable pub instruccion_master : Bool → ℕ → M Bool
  unfolding soltar_worker
  instruccion_master envio w = do
    worker ← worker_de w
    q ← o_fallo worker.query
    finalizar_query q finalizacion_correcta op_exitosa
    if not envio
        then (do destruir_worker w; pure false)
        else (do enviar (resultado_ok w); soltar_worker w; pure true)

  unfoldable pub es_exec : StateT → Bool
  es_exec exec = true
  es_exec _ = false

  unfoldable pub desconexion_worker : ℕ → M Bool
  unfolding es_exec
  desconexion_worker w = do
    worker ← worker_de w
    if es_exec worker.state
        then (do q ← o_fallo worker.query; finalizar_query q err_desc_worker op_exitosa)
        else pure tt
    destruir_worker w
    pure false

  unfoldable pub error_at_exec : ℕ → RtaStorage → M Bool
  error_at_exec w c_error = do
    worker ← worker_de w
    modificar λ s. record s {
      workers = cambiar_worker w (λ k. record k { error_at_exec = true }) s.workers;
    }
    q ← o_fallo worker.query
    finalizar_query q err_storage c_error
    pure true

  -- `query_handler`, on the disconnection of the Query Control: in execution (true) it marks the query
  -- and waits on a copy of the semaphore of the worker, for which POSIX leaves the outcome undefined,
  -- and the model ends there; in any other state it frees the query.
  unfoldable pub query_handler : ℕ → M Bool
  query_handler q = do
    query ← query_de q
    elim query.state [
      | exec ↦ do
        w ← o_fallo query.worker
        worker ← worker_de w
        modificar λ s. record s {
          querys = cambiar_query q (λ k. record k { interrumpir = true }) s.querys;
        }
        pure true
      | ready ↦ do destruir_query q; pure false
      | finished ↦ do destruir_query q; pure false
    ]

  abbrev nueva_query : ℕ → String → ℤ → Query
  nueva_query i archivo prioridad = record {
    id = i;
    pc = 0;
    file = archivo;
    prioridad = prioridad;
    interrumpir = false;
    worker = none;
    state = ready;
  }

  -- HANDSHAKE_QUERY_MASTER behind the list: the thread of the aging, and `sem_post(&sem_ready)`.
  unfoldable pub handshake_query_fin : Bool → ℕ → M (Unit {0})
  handshake_query_fin aging i = modificar λ t. record t {
    hilos_aging = if aging && not (t.tiempo_aging == 0) then i ∷ t.hilos_aging else t.hilos_aging;
    sem_ready = t.sem_ready + 1;
  }

  -- HANDSHAKE_QUERY_MASTER: true where `check_prior` waits, and the rest is still to come; an
  -- algorithm of another name ends the program.
  unfoldable pub handshake_query_master : (String → String → Bool) → String → ℤ → M Bool
  unfolding agregar_ready handshake_query_fin
  handshake_query_master ic archivo prioridad = do
    i ← asign_query_id
    modificar λ s. record s { querys = nueva_query i archivo prioridad ∷ s.querys }
    enviar ack
    s ← get
    if ic s.algoritmo "FIFO"
        then (do
          modificar λ t. record t { querys_ready = t.querys_ready ++ i ∷ [] }
          handshake_query_fin false i
          pure false)
        else if ic s.algoritmo "PRIORIDADES"
        then (do
          agregar_ready list_add_sorted i
          desalojo ← check_prior
          if desalojo then pure true else (do handshake_query_fin true i; pure false))
        else o_fallo none

  unfoldable pub handshake_worker_master : ℕ → M (Unit {0})
  handshake_worker_master w = do
    modificar λ s. record s {
      workers =
          s.workers
          ++ record {
            id = w;
            interrumpir = false;
            error_at_exec = false;
            sem_interrupt = 0;
            state = ready;
            query = none;
          }
            ∷ [];
      sem_workers = s.sem_workers + 1;
    }
    enviar ack
