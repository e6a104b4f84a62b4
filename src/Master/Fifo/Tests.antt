-- ===== src/Master/Fifo/Tests.antt =====
-- A master under FIFO that two queries and a worker reach, and the theorems at it.
use text.Mathlib.Text.{◌==◌ as str_eq}
use tp_ssoo_2c.Base.{pos, ℕ, ◌≡◌, ◌⊎◌, refl, Bool, false, some, none, List, [], ◌∷◌}
use tp_ssoo_2c.Master.{Query, Worker, Master, ready, exec, hecho, fallo, ack, solicitud_ejecucion}
use tp_ssoo_2c.Master.Lists.{buscar_query, buscar_worker}
use tp_ssoo_2c.Master.Util.{es_ready, process_handler, asign_query_id}
use tp_ssoo_2c.Master.Handlers.{
  handshake_query_master, handshake_query_fin, handshake_worker_master, query_handler,
  desconexion_worker,
}
use tp_ssoo_2c.Master.Threads.{de_query, de_worker, master_network_handler}
use tp_ssoo_2c.Master.Fifo.{recien, conecta, Alcanza, inicio, sigue}
use tp_ssoo_2c.Master.Fifo.Round.{EnPausa, Atendida}
use tp_ssoo_2c.Master.Fifo.Safety.{process_handler-Atendida}
use tp_ssoo_2c.Master.Fifo.Left.{desconexiones-dejan_unidad}

-- An insertion, which FIFO does not use.
abbrev delante : (ℕ → ℕ → Bool) → ℕ → List ℕ → List ℕ
delante antes i is = i ∷ is

abbrev query_1 : Query
query_1 = record {
  id = 1;
  pc = 0;
  file = "uno";
  prioridad = pos 5;
  interrumpir = false;
  worker = none;
  state = ready;
}

abbrev worker_7 : Worker
worker_7 = record {
  id = 7;
  interrumpir = false;
  error_at_exec = false;
  sem_interrupt = 0;
  state = ready;
  query = none;
}

abbrev con_query : Master
con_query = record (recien "FIFO" 0) {
  ultimo_id = 1;
  querys = query_1 ∷ [];
  querys_ready = 1 ∷ [];
  sem_ready = 1;
  envios = ack ∷ [];
}

abbrev con_worker : Master
con_worker = record con_query { workers = worker_7 ∷ []; sem_workers = 1; envios = ack ∷ ack ∷ [] }

abbrev repartida : Master
repartida = record con_worker {
  querys = record query_1 { worker = some 7; state = exec } ∷ [];
  querys_ready = [];
  querys_exec = 1 ∷ [];
  workers = record worker_7 { query = some 1; state = exec } ∷ [];
  sem_ready = 0;
  sem_workers = 0;
  envios = solicitud_ejecucion 7 "uno" 1 0 ∷ ack ∷ ack ∷ [];
}

llega_con_query :
    master_network_handler delante str_eq (de_query "uno" (pos 5)) (recien "FIFO" 0)
    ≡ hecho false con_query
unfolding master_network_handler handshake_query_master handshake_query_fin asign_query_id
llega_con_query = refl

llega_con_worker :
    master_network_handler delante str_eq (de_worker 7) con_query ≡ hecho false con_worker
unfolding master_network_handler handshake_worker_master
llega_con_worker = refl

con_worker-Alcanza : Alcanza delante str_eq "FIFO" 0 con_worker
unfolding buscar_worker
con_worker-Alcanza =
    sigue (sigue inicio (conecta (de_query "uno" (pos 5)) false tt llega_con_query))
      (conecta (de_worker 7) false refl llega_con_worker)

process_handler-Atendida_example : EnPausa con_worker ⊎ Atendida con_worker
process_handler-Atendida_example =
    process_handler-Atendida delante str_eq "FIFO" 0 con_worker refl con_worker-Alcanza

desconexiones-dejan_unidad_example :
    ((t : Master) × (query_handler delante 1 con_worker ≡ hecho false t)
      × (process_handler t ≡ fallo))
    × ((t : Master) × (desconexion_worker delante 7 con_worker ≡ hecho false t)
        × (process_handler t ≡ fallo))
unfolding buscar_query buscar_worker es_ready
desconexiones-dejan_unidad_example =
    desconexiones-dejan_unidad delante str_eq "FIFO" 0 con_worker refl con_worker-Alcanza 1 7
      query_1 worker_7 refl refl refl refl refl refl
