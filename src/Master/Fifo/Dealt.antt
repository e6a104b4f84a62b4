-- ===== src/Master/Fifo/Dealt.antt =====
-- A round of `process_handler` (process_handler.c) from a state with the invariant of FIFO.
use Prim.Native.String.{String}
use tp_ssoo_2c.Base.{ℕ, ◌-◌, ◌≡◌, ◌≢◌, refl, Bool, some, List, ◌∷◌, arith}
use tp_ssoo_2c.Master.{Query, Worker, Master, exec}
use tp_ssoo_2c.Master.Lists.{buscar_query, buscar_worker}
use tp_ssoo_2c.Master.Util.{es_ready, primer_libre}
use tp_ssoo_2c.Master.Pairing.{tras_aviso, tras_envio, tras_par, tras_obtener, tras_espera}
use tp_ssoo_2c.Master.Fifo.Queue.{Cola-emparejar}
use tp_ssoo_2c.Master.Fifo.Workers.{uno-libre, uno-ocupado, primer_libre-Libre}
use tp_ssoo_2c.Master.Fifo.Staff.{Plantel-cambiar_worker}
use tp_ssoo_2c.Master.Fifo.Invariant.{Ordenado}

abbrev ocupar : ℕ → Worker → Worker
ocupar q k = record k { query = some q; state = exec }

module _ (ic : String → String → Bool) (s : Master) (o : Ordenado ic s) (q : ℕ) (qs : List ℕ)
    (query : Query) (worker : Worker) (r : s.sem_ready ≢ 0) (l : s.sem_workers ≢ 0)
    (lista : s.querys_ready ≡ q ∷ qs) (de_query : buscar_query q s.querys ≡ some query)
    (libre : primer_libre s.workers ≡ some worker)
    (de_worker : buscar_worker worker.id s.workers ≡ some worker) where
  pub tras_aviso-Ordenado :
      Ordenado ic (tras_aviso s q qs query worker r l lista de_query libre de_worker)
  unfolding tras_aviso tras_envio tras_par tras_obtener tras_espera es_ready
  tras_aviso-Ordenado = record {
    fifo = o.fifo;
    cola = Cola-emparejar _ _ _ _ q worker.id (rw lista at o.cola);
    plantel =
        Plantel-cambiar_worker s.workers s.sem_workers (s.sem_workers - 1) worker.id (ocupar q)
          worker de_worker (λ j. refl) (λ j z e. (z.0, refl))
          (omega (
            arith,
            uno-libre worker.state (primer_libre-Libre s.workers worker libre).0,
            uno-ocupado exec refl,
          ))
          o.plantel;
  }
