-- ===== src/Master/Pairing.antt =====
-- One round of `process_handler` (master/src/process_handler.c).
use tp_ssoo_2c.Base.{
  ℕ, ◌+◌, ◌-◌, ◌≡◌, ◌≢◌, refl, ◌∙◌, some, List, [], ◌∷◌, ◌++◌, arith, ne→==, if◌then◌else◌,
}
use tp_ssoo_2c.Master.{Query, Worker, Master, exec, hecho, o_fallo, bind_hecho, solicitud_ejecucion}
use tp_ssoo_2c.Master.Lists.{buscar_query, buscar_worker, cambiar_query, cambiar_worker}
use tp_ssoo_2c.Master.Util.{
  query_de, worker_de, primer_libre, buscar_worker_libre, obtener_query, esperar_par,
  hacer_par_query_worker, solicitar_ejecucion_query, process_handler,
}

pub buscar_query-cambiar_query :
    (i : ℕ) (f : Query → Query) (qs : List Query) (q : Query)
    → ((k : Query) → (f k).id ≡ k.id)
    → buscar_query i qs ≡ some q
    → buscar_query i (cambiar_query i f qs) ≡ some (f q)
unfolding buscar_query cambiar_query
buscar_query-cambiar_query i f [] q keep h = ground arith
buscar_query-cambiar_query i f (k ∷ qs) q keep h =
    ground (arith, keep k, buscar_query-cambiar_query i f qs q keep)

pub buscar_worker-cambiar_worker :
    (i : ℕ) (f : Worker → Worker) (ws : List Worker) (w : Worker)
    → ((k : Worker) → (f k).id ≡ k.id)
    → buscar_worker i ws ≡ some w
    → buscar_worker i (cambiar_worker i f ws) ≡ some (f w)
unfolding buscar_worker cambiar_worker
buscar_worker-cambiar_worker i f [] w keep h = ground arith
buscar_worker-cambiar_worker i f (k ∷ ws) w keep h =
    ground (arith, keep k, buscar_worker-cambiar_worker i f ws w keep)

-- The query and the worker point at each other and are in execution, the worker was sent the file
-- and the program counter of the query, the query has gone from the head of the ready list to the
-- end of those in execution, and one unit of each semaphore is used.
pub record Emparejada (s s' : Master) (q w : ℕ) (query : Query) (qs : List ℕ) : Type 0 where
  pub de_query : buscar_query q s'.querys ≡ some (record query { worker = some w; state = exec })
  pub worker : Worker
  pub de_worker : buscar_worker w s'.workers ≡ some worker
  pub suya : worker.query ≡ some q
  pub ocupado : worker.state ≡ exec
  pub listas : s'.querys_ready ≡ qs
  pub en_exec : s'.querys_exec ≡ s.querys_exec ++ q ∷ []
  pub enviada : s'.envios ≡ solicitud_ejecucion w query.file query.id query.pc ∷ s.envios
  pub semaforos : (s'.sem_ready + 1 ≡ s.sem_ready) × (s'.sem_workers + 1 ≡ s.sem_workers)

pub query_de_ok :
    (q : ℕ) (s : Master) (k : Query) → buscar_query q s.querys ≡ some k → query_de q s ≡ hecho k s
unfolding query_de
query_de_ok q s k h = rw h

pub worker_de_ok :
    (w : ℕ) (s : Master) (k : Worker)
    → buscar_worker w s.workers ≡ some k
    → worker_de w s ≡ hecho k s
unfolding worker_de
worker_de_ok w s k h = rw h

module _ (s : Master) (q : ℕ) (qs : List ℕ) (query : Query) (worker : Worker) (r : s.sem_ready ≢ 0)
    (l : s.sem_workers ≢ 0) (lista : s.querys_ready ≡ q ∷ qs)
    (de_query : buscar_query q s.querys ≡ some query) (libre : primer_libre s.workers ≡ some worker)
    (de_worker : buscar_worker worker.id s.workers ≡ some worker) where
  unfoldable pub tras_espera : Master
  tras_espera = record s { sem_ready = s.sem_ready - 1; sem_workers = s.sem_workers - 1 }

  unfoldable pub tras_obtener : Master
  tras_obtener = record tras_espera { querys_ready = qs }

  unfoldable pub tras_par : Master
  tras_par = record tras_obtener {
    querys_exec = s.querys_exec ++ q ∷ [];
    querys = cambiar_query q (λ k. record k { worker = some worker.id; state = exec }) s.querys;
    workers = cambiar_worker worker.id (λ k. record k { query = some q; state = exec }) s.workers;
  }

  unfoldable pub tras_envio : Master
  tras_envio = record tras_par {
    envios = solicitud_ejecucion worker.id query.file query.id query.pc ∷ s.envios;
  }

  unfoldable pub tras_aviso : Master
  tras_aviso = record tras_envio {
    sem_asign = if s.signal_asign then s.sem_asign + 1 else s.sem_asign;
  }

  espera_ok : esperar_par s ≡ hecho tt tras_espera
  unfolding esperar_par tras_espera
  espera_ok = rw (ne→== s.sem_ready 0 r, ne→== s.sem_workers 0 l)

  obtener_ok : obtener_query tras_espera ≡ hecho (some q) tras_obtener
  unfolding obtener_query tras_espera tras_obtener
  obtener_ok = rw lista

  hacer_ok : hacer_par_query_worker q worker.id tras_obtener ≡ hecho tt tras_par
  unfolding hacer_par_query_worker tras_espera tras_obtener tras_par
  hacer_ok =
      bind_hecho (query_de q) _ tras_obtener tras_obtener query
        (query_de_ok q tras_obtener query de_query)
      ∙ bind_hecho (worker_de worker.id) _ tras_obtener tras_obtener worker
          (worker_de_ok worker.id tras_obtener worker de_worker)

  en_par :
      buscar_query q tras_par.querys ≡ some (record query { worker = some worker.id; state = exec })
  unfolding tras_par
  en_par = buscar_query-cambiar_query q _ s.querys query (λ k. refl) de_query

  solicitar_ok : solicitar_ejecucion_query q worker.id tras_par ≡ hecho tt tras_envio
  unfolding solicitar_ejecucion_query tras_envio tras_par tras_obtener tras_espera
  solicitar_ok = bind_hecho (query_de q) _ tras_par tras_par _ (query_de_ok q tras_par _ en_par)

  libre_ok : o_fallo (buscar_worker_libre tras_obtener) tras_obtener ≡ hecho worker tras_obtener
  unfolding buscar_worker_libre tras_obtener tras_espera
  libre_ok = rw libre

  pub process_handler-tras_aviso : process_handler s ≡ hecho tt tras_aviso
  unfolding process_handler tras_aviso tras_envio tras_par tras_obtener tras_espera
  process_handler-tras_aviso =
      bind_hecho esperar_par _ s tras_espera tt espera_ok
      ∙ (bind_hecho obtener_query _ tras_espera tras_obtener (some q) obtener_ok
          ∙ (bind_hecho (o_fallo (buscar_worker_libre tras_obtener)) _ tras_obtener tras_obtener
                worker libre_ok
              ∙ (bind_hecho (hacer_par_query_worker q worker.id) _ tras_obtener tras_par tt hacer_ok
                  ∙ bind_hecho (solicitar_ejecucion_query q worker.id) _ tras_par tras_envio tt
                      solicitar_ok)))

  pub tras_aviso-Emparejada : Emparejada s tras_aviso q worker.id query qs
  unfolding tras_aviso tras_envio tras_par tras_obtener tras_espera
  tras_aviso-Emparejada = record {
    de_query = en_par;
    worker = record worker { query = some q; state = exec };
    de_worker = buscar_worker-cambiar_worker worker.id _ s.workers worker (λ k. refl) de_worker;
    suya = refl;
    ocupado = refl;
    listas = refl;
    en_exec = refl;
    enviada = refl;
    semaforos = (omega arith, omega arith);
  }

  -- With a unit in both semaphores, a ready query that is allocated and a free worker, a round of the
  -- scheduler always ends, and it pairs the first query with the first free worker.
  pub process_handler-Emparejada :
      (s' : Master) × (process_handler s ≡ hecho tt s') × Emparejada s s' q worker.id query qs
  process_handler-Emparejada = (tras_aviso, process_handler-tras_aviso, tras_aviso-Emparejada)
