-- ===== src/Master/Fifo/Interrupted.antt =====
-- CONSULTA_INTERRUPCION (master_network_handler.c) keeps the invariant of the master under FIFO, where
-- no eviction is asked for.
use Prim.Native.String.{String}
use tp_ssoo_2c.Base.{
  ℕ, ◌+◌, ◌≡◌, refl, Bool, false, some, List, ◌∷◌, arith, not, ◌&&◌, if◌then◌else◌,
}
use tp_ssoo_2c.Master.{Worker, Master, pure, resultado_interrupcion}
use tp_ssoo_2c.Master.Lists.{buscar_worker, cambiar_worker}
use tp_ssoo_2c.Master.Util.{destruir_worker}
use tp_ssoo_2c.Master.Handlers.{consulta_interrupcion, interrupcion, desalojar, soltar_worker}
use tp_ssoo_2c.Master.Pairing.{buscar_worker-cambiar_worker}
use tp_ssoo_2c.Master.After.{Tras, luego-Tras, query_de-Tras, worker_de-Tras, o_fallo-Tras, if-Tras}
use tp_ssoo_2c.Master.Fifo.Staff.{ocupado_con_query}
use tp_ssoo_2c.Master.Fifo.Invariant.{Ordenado}
use tp_ssoo_2c.Master.Fifo.Handled.{cambiar_worker-Ordenado, destruir_worker-Ordenado}
use tp_ssoo_2c.Master.Fifo.Preserved.{interrupcion-Suya, soltar_si-Ordenado}

abbrev marcar : Bool → Worker → Worker
marcar interrumpir k = record k {
  sem_interrupt =
      if interrumpir && not k.error_at_exec then k.sem_interrupt + 1 else k.sem_interrupt;
  error_at_exec = false;
}

module _ (las : (ℕ → ℕ → Bool) → ℕ → List ℕ → List ℕ) (ic : String → String → Bool) where
  abbrev avisada : Master → ℕ → Bool → Master
  avisada t w result = record t { envios = resultado_interrupcion w result ∷ t.envios }

  abbrev marcada : Master → ℕ → Bool → Master
  marcada t w interrumpir = record t { workers = cambiar_worker w (marcar interrumpir) t.workers }

  abbrev Sigue : ℕ → Worker → Unit {0} → Master → Type 0
  Sigue w k _ t = Ordenado ic t × (buscar_worker w t.workers ≡ some k)

  sin_desalojo :
      (s : Master) (w q pc : ℕ) (k : Worker)
      → k.interrumpir ≡ false
      → Sigue w k tt s
      → Tras (Sigue w k) ((if k.interrumpir then desalojar las w q pc else pure tt) s)
  sin_desalojo s w q pc k i h = if-Tras _ s k.interrumpir _ _ (λ t. absurd (ground arith)) (λ _. h)

  pub consulta_interrupcion-Ordenado :
      (s : Master) (o : Ordenado ic s) (envio : Bool) (w new_pc : ℕ)
      → Tras (λ _ t. Ordenado ic t) (consulta_interrupcion las envio w new_pc s)
  unfolding consulta_interrupcion
  consulta_interrupcion-Ordenado s o envio w new_pc = worker_de-Tras _ s w _ λ k h0.
      luego-Tras _ s _ (interrupcion las k) _ (interrupcion-Suya las ic s o w k h0)
        λ result t (p, h, q, e).
          let (b, i) = ocupado_con_query t.workers t.sem_workers w q k h e p.plantel in
          if-Tras _ t (not envio) _ _
            (λ _.
              luego-Tras _ t _ (destruir_worker w) _ (destruir_worker-Ordenado ic t p w k h b)
                λ _ u r. r)
            (λ _. o_fallo-Tras _ (avisada t w result) k.query _ λ q' e'.
              luego-Tras _ (avisada t w result) (Sigue w k)
                (if k.interrumpir then desalojar las w q' new_pc else pure tt) _
                (sin_desalojo (avisada t w result) w q' new_pc k i
                  (record { fifo = p.fifo; cola = p.cola; plantel = p.plantel }, h))
                λ _ u (p', h'). query_de-Tras _ u q' _ λ query g.
                  luego-Tras _ (marcada u w query.interrumpir) _
                    (if result then soltar_worker las w else pure tt) _
                    (soltar_si-Ordenado las ic _
                      (cambiar_worker-Ordenado ic u p' w _ k h' (λ j. (refl, refl, refl, refl)))
                      result w (marcar query.interrumpir k)
                      (buscar_worker-cambiar_worker w (marcar query.interrumpir) u.workers k
                        (λ j. refl) h')
                      b)
                    λ _ v r. r)
