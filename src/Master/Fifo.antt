-- ===== src/Master/Fifo.antt =====
-- The master under FIFO (master/src): the threads of master_network_handler.c and process_handler.c
-- take turns in any order, and a turn runs up to its end or to its wait for a semaphore.
mod Queries
mod Queue
mod Workers
mod Staff
mod Invariant
mod Handled
mod Preserved
mod Interrupted
mod Dealt
mod Round
mod Safety
mod Left
mod Tests
use Prim.Native.String.{String}
use tp_ssoo_2c.Base.{ℕ, ◌≡◌, Bool, true, false, Option, none, some, List, []}
use tp_ssoo_2c.Codes.{OpCode}
use tp_ssoo_2c.Master.{Query, Worker, Master, hecho}
use tp_ssoo_2c.Master.Lists.{buscar_query, buscar_worker}
use tp_ssoo_2c.Master.Util.{es_ready, process_handler, destruir_query}
use tp_ssoo_2c.Master.Threads.{
  Saludo, de_worker, Mensaje, de_desconexion, master_network_handler, atender, atender_query,
}

-- The state that `init` leaves.
abbrev pub recien : String → ℕ → Master
recien algoritmo tiempo_aging = record {
  algoritmo = algoritmo;
  tiempo_aging = tiempo_aging;
  ultimo_id = 0;
  querys = [];
  workers = [];
  querys_ready = [];
  querys_exec = [];
  sem_ready = 0;
  sem_workers = 0;
  sem_int = 0;
  sem_check_prior = 1;
  sem_asign = 0;
  signal_asign = false;
  hilos_aging = [];
  envios = [];
}

-- `query->worker == NULL`.
abbrev pub sin_worker : Option Query → Bool
sin_worker none = false
sin_worker (some k) = elim k.worker [ none ↦ true | some _ ↦ false ]

unfoldable pub en_espera : ℕ → List Query → Bool
en_espera i qs = sin_worker (buscar_query i qs)

-- A worker that comes has a number that no other has.
abbrev pub Nuevo : Saludo → Master → Type 0
Nuevo (de_worker w) s = buscar_worker w s.workers ≡ none
Nuevo _ s = Unit

-- A worker that disconnects is not free.
abbrev pub Admitido : Mensaje → ℕ → Master → Type 0
Admitido de_desconexion w s =
    (k : Worker) × (buscar_worker w s.workers ≡ some k) × (es_ready k.state ≡ false)
Admitido _ w s = Unit

module _ (las : (ℕ → ℕ → Bool) → ℕ → List ℕ → List ℕ) (ic : String → String → Bool) where
  -- A turn that ends takes `s` to `t`: a connection, a package of a worker, a round of the scheduler,
  -- and the package of a Query Control whose query does not wait.
  pub data Turno (s t : Master) : Type 0 where
    conecta :
        (saludo : Saludo) (b : Bool)
        → Nuevo saludo s
        → master_network_handler las ic saludo s ≡ hecho b t
        → Turno s t
    atiende :
        (envio : Bool) (w : ℕ) (m : Mensaje) (b : Bool)
        → Admitido m w s
        → atender las envio w m s ≡ hecho b t
        → Turno s t
    reparte : process_handler s ≡ hecho tt t → Turno s t
    query_se_va :
        (opcode : OpCode) (q : ℕ) (b : Bool)
        → en_espera q s.querys ≡ false
        → atender_query las opcode q s ≡ hecho b t
        → Turno s t
    -- `query_handler` behind its wait
    query_liberada :
        (q : ℕ) → en_espera q s.querys ≡ false → destruir_query q s ≡ hecho tt t → Turno s t

  -- What the master reaches from its start.
  pub data Alcanza (algoritmo : String) (tiempo : ℕ) : Master → Type 0 where
    inicio : Alcanza algoritmo tiempo (recien algoritmo tiempo)
    sigue : {s t : Master} → Alcanza algoritmo tiempo s → Turno s t → Alcanza algoritmo tiempo t
