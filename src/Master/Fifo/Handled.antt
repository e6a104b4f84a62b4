-- ===== src/Master/Fifo/Handled.antt =====
-- The pieces of the handlers of the master keep its invariant under FIFO.
use Prim.Native.String.{String}
use tp_ssoo_2c.Base.{
  ℕ, ◌+◌, ◌≡◌, refl, Bool, false, none, some, List, arith, inl, inr, Option-cases,
}
use tp_ssoo_2c.Codes.{RtaStorage, RazonFin}
use tp_ssoo_2c.Master.{Worker, Master, ready}
use tp_ssoo_2c.Master.Lists.{buscar_worker, cambiar_worker}
use tp_ssoo_2c.Master.Util.{
  es_ready, notificar_finalizacion, notificar_read, finalizar_query, destruir_query,
  destruir_worker, liberar_worker,
}
use tp_ssoo_2c.Master.Handlers.{soltar_worker}
use tp_ssoo_2c.Master.After.{Tras, query_de-Tras}
use tp_ssoo_2c.Master.Fifo.{en_espera}
use tp_ssoo_2c.Master.Fifo.Queue.{Cola-cambiar_query, Cola-quitar_query}
use tp_ssoo_2c.Master.Fifo.Workers.{uno-libre, uno-ocupado}
use tp_ssoo_2c.Master.Fifo.Staff.{Plantel-cambiar_worker, Plantel-quitar_worker}
use tp_ssoo_2c.Master.Fifo.Invariant.{Ordenado}

abbrev liberar : Worker → Worker
liberar k = record k { state = ready; query = none; interrumpir = false }

module _ (ic : String → String → Bool) (s : Master) (o : Ordenado ic s) where
  -- The end of a query touches no worker.
  pub finalizar_query-Ordenado :
      (q : ℕ) (razon : RazonFin) (e : RtaStorage)
      → Tras (λ _ t. Ordenado ic t × (t.workers ≡ s.workers)) (finalizar_query q razon e s)
  unfolding finalizar_query notificar_finalizacion
  finalizar_query-Ordenado q razon e = query_de-Tras _ s q _ λ k h. (
    record {
      fifo = o.fifo;
      cola = Cola-cambiar_query _ _ _ _ q _ (λ j. (refl, refl)) o.cola;
      plantel = o.plantel;
    },
    refl,
  )

  pub notificar_read-Ordenado :
      (q : ℕ) (file tag contenido : String)
      → Tras
          (λ _ t. Ordenado ic t × (t.workers ≡ s.workers))
          (notificar_read q file tag contenido s)
  unfolding notificar_read
  notificar_read-Ordenado q file tag contenido =
      query_de-Tras _ s q _
        λ k h. (record { fifo = o.fifo; cola = o.cola; plantel = o.plantel }, refl)

  -- A worker changes, but not what it has or whether it is free.
  pub cambiar_worker-Ordenado :
      (w : ℕ) (f : Worker → Worker) (k : Worker)
      → buscar_worker w s.workers ≡ some k
      → ((j : Worker)
          → ((f j).id ≡ j.id)
            × ((f j).state ≡ j.state)
            × ((f j).query ≡ j.query)
            × ((f j).interrumpir ≡ j.interrumpir))
      → Ordenado ic (record s { workers = cambiar_worker w f s.workers })
  cambiar_worker-Ordenado w f k h keep = record {
    fifo = o.fifo;
    cola = o.cola;
    plantel =
        Plantel-cambiar_worker s.workers s.sem_workers s.sem_workers w f k h (λ j. (keep j).0)
          (λ j z e. ground (arith, keep j, z)) (rw ((keep k).1) refl) o.plantel;
  }

  -- A worker with a query is dropped.
  pub destruir_worker-Ordenado :
      (w : ℕ) (k : Worker)
      → buscar_worker w s.workers ≡ some k
      → es_ready k.state ≡ false
      → Tras (λ _ t. Ordenado ic t) (destruir_worker w s)
  unfolding destruir_worker
  destruir_worker-Ordenado w k h b = record {
    fifo = o.fifo;
    cola = o.cola;
    plantel = Plantel-quitar_worker s.workers s.sem_workers w k h b o.plantel;
  }

  -- A worker with a query is free again, and the semaphore has it.
  pub soltar_worker-Ordenado :
      (las : (ℕ → ℕ → Bool) → ℕ → List ℕ → List ℕ) (w : ℕ) (k : Worker)
      → buscar_worker w s.workers ≡ some k
      → es_ready k.state ≡ false
      → Tras (λ _ t. Ordenado ic t) (soltar_worker las w s)
  unfolding soltar_worker liberar_worker es_ready
  soltar_worker-Ordenado las w k h b = record {
    fifo = o.fifo;
    cola = o.cola;
    plantel =
        Plantel-cambiar_worker s.workers s.sem_workers (s.sem_workers + 1) w liberar k h (λ j. refl)
          (λ j z e. (refl, refl)) (omega (arith, uno-ocupado k.state b, uno-libre ready refl))
          o.plantel;
  }

  -- A query that does not wait is freed.
  pub destruir_query-Ordenado :
      (q : ℕ) → en_espera q s.querys ≡ false → Tras (λ _ t. Ordenado ic t) (destruir_query q s)
  unfolding destruir_query en_espera
  destruir_query-Ordenado q b = query_de-Tras _ s q _ λ k h. elim (Option-cases k.worker) [
    | inl e ↦ absurd (ground (arith, h, e))
    | inr (w, e) ↦ rw e (record {
      fifo = o.fifo;
      cola = Cola-quitar_query _ _ _ _ q (rw (en_espera, h, e) refl) o.cola;
      plantel = o.plantel;
    })
  ]
