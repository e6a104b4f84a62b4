-- ===== src/Master/Fifo/Invariant.antt =====
-- What holds of the master under FIFO between two turns.
use Prim.Native.String.{String}
use tp_ssoo_2c.Base.{ℕ, ◌≡◌, Bool, true}
use tp_ssoo_2c.Master.{Master}
use tp_ssoo_2c.Master.Fifo.{recien}
use tp_ssoo_2c.Master.Fifo.Queue.{Cola, vacia-Cola}
use tp_ssoo_2c.Master.Fifo.Staff.{Plantel, vacio-Plantel}

-- The algorithm is FIFO, the ready list and its semaphore tell the queries that wait, and the other
-- semaphore tells the free workers.
pub record Ordenado (ic : String → String → Bool) (s : Master) : Type 0 where
  pub fifo : ic s.algoritmo "FIFO" ≡ true
  pub cola : Cola s.ultimo_id s.querys s.querys_ready s.sem_ready
  pub plantel : Plantel s.workers s.sem_workers

-- The master starts with it.
pub recien-Ordenado :
    (ic : String → String → Bool) (algoritmo : String) (tiempo : ℕ)
    → ic algoritmo "FIFO" ≡ true
    → Ordenado ic (recien algoritmo tiempo)
recien-Ordenado ic algoritmo tiempo h = record {
  fifo = h;
  cola = vacia-Cola 0;
  plantel = vacio-Plantel;
}
