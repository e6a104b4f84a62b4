-- ===== src/Master/Fifo/Staff.antt =====
-- The free workers of the master and `sem_workers`, while no eviction is asked for.
use tp_ssoo_2c.Base.{ℕ, ◌+◌, ◌≡◌, refl, ◌∙◌, true, false, none, some, List, [], ◌∷◌, ◌++◌, arith}
use tp_ssoo_2c.Master.{Worker}
use tp_ssoo_2c.Master.Lists.{buscar_worker, cambiar_worker, quitar_worker}
use tp_ssoo_2c.Master.Util.{es_ready}
use tp_ssoo_2c.Master.Fifo.Queries.{Distintos}
use tp_ssoo_2c.Master.Fifo.Workers.{
  ids_worker, uno, uno-libre, uno-ocupado, libres, Sano, Sanos, buscar_worker-Sano,
  libres-cambiar_worker, libres-quitar_worker, ids_worker-cambiar_worker, Distintos-quitar_worker,
  Sanos-cambiar_worker, Sanos-quitar_worker, Sanos-append, libres-append, Distintos-append_worker,
}

-- The semaphore counts the free workers, and no two workers are the same.
pub record Plantel (ws : List Worker) (sem : ℕ) : Type 0 where
  pub sanos : Sanos ws
  pub distintos : Distintos (ids_worker ws)
  pub cuenta : sem ≡ libres ws

pub vacio-Plantel : Plantel [] 0
vacio-Plantel = record { sanos = tt; distintos = tt; cuenta = refl }

pub Plantel-llega :
    (ws : List Worker) (n : ℕ) (k : Worker)
    → buscar_worker k.id ws ≡ none
    → Sano k
    → es_ready k.state ≡ true
    → Plantel ws n
    → Plantel (ws ++ k ∷ []) (n + 1)
Plantel-llega ws n k h s l p = record {
  sanos = Sanos-append ws k s p.sanos;
  distintos = Distintos-append_worker ws k h p.distintos;
  cuenta = omega (arith, libres-append ws k, uno-libre k.state l, p.cuenta);
}

-- A worker changes, and the semaphore with it where it becomes free or busy.
pub Plantel-cambiar_worker :
    (ws : List Worker) (n m w : ℕ) (f : Worker → Worker) (k : Worker)
    → buscar_worker w ws ≡ some k
    → ((j : Worker) → (f j).id ≡ j.id)
    → ((j : Worker) → Sano j → buscar_worker w ws ≡ some j → Sano (f j))
    → m + uno k.state ≡ n + uno (f k).state
    → Plantel ws n
    → Plantel (cambiar_worker w f ws) m
Plantel-cambiar_worker ws n m w f k h keep sano e p = record {
  sanos = Sanos-cambiar_worker w f ws sano p.sanos;
  distintos = rw (ids_worker-cambiar_worker w f ws keep) p.distintos;
  cuenta = omega (arith, e, p.cuenta, libres-cambiar_worker w f ws k h);
}

-- A worker that is not free leaves.
pub Plantel-quitar_worker :
    (ws : List Worker) (n w : ℕ) (k : Worker)
    → buscar_worker w ws ≡ some k
    → es_ready k.state ≡ false
    → Plantel ws n
    → Plantel (quitar_worker w ws) n
Plantel-quitar_worker ws n w k h b p = record {
  sanos = Sanos-quitar_worker w ws p.sanos;
  distintos = Distintos-quitar_worker w ws p.distintos;
  cuenta = omega (arith, p.cuenta, libres-quitar_worker w ws k h, uno-ocupado k.state b);
}

-- A worker with a query is not free.
pub ocupado_con_query :
    (ws : List Worker) (n w q : ℕ) (k : Worker)
    → buscar_worker w ws ≡ some k
    → k.query ≡ some q
    → Plantel ws n
    → (es_ready k.state ≡ false) × (k.interrumpir ≡ false)
ocupado_con_query ws n w q k h e p =
    let z = buscar_worker-Sano w ws k h p.sanos in (z.1 ∙ rw e refl, z.0)
