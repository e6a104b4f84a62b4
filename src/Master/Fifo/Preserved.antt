-- ===== src/Master/Fifo/Preserved.antt =====
-- The handlers of the master (master_network_handler.c) keep its invariant under FIFO.
use Prim.Native.String.{String}
use tp_ssoo_2c.Base.{
  ℤ, ℕ, ◌≡◌, refl, Bool, true, false, none, some, List, arith, not, if◌then◌else◌, inl, inr,
  Bool-cases,
}
use tp_ssoo_2c.Codes.{RtaStorage, op_exitosa, finalizacion_correcta, err_desc_worker, err_storage}
use tp_ssoo_2c.Master.{Worker, Master, M, pure, o_fallo, ◌>>=◌, ◌>>◌}
use tp_ssoo_2c.Master.Lists.{buscar_worker}
use tp_ssoo_2c.Master.Util.{
  es_ready, asign_query_id, finalizar_query, destruir_query, destruir_worker, notificar_read,
}
use tp_ssoo_2c.Master.Handlers.{
  handshake_query_master, handshake_query_fin, handshake_worker_master, es_exec, soltar_worker,
  interrupcion, lectura_master, instruccion_master, error_at_exec, desconexion_worker,
  query_handler,
}
use tp_ssoo_2c.Master.After.{
  Tras, luego-Tras, query_de-Tras, worker_de-Tras, o_fallo-Tras, if-Tras, StateT-cases,
}
use tp_ssoo_2c.Master.Fifo.{en_espera}
use tp_ssoo_2c.Master.Fifo.Queue.{Cola-llega, Cola-cambiar_query}
use tp_ssoo_2c.Master.Fifo.Workers.{buscar_worker-Sano}
use tp_ssoo_2c.Master.Fifo.Staff.{Plantel-llega, ocupado_con_query}
use tp_ssoo_2c.Master.Fifo.Invariant.{Ordenado}
use tp_ssoo_2c.Master.Fifo.Handled.{
  notificar_read-Ordenado, cambiar_worker-Ordenado, finalizar_query-Ordenado,
  destruir_worker-Ordenado, soltar_worker-Ordenado, destruir_query-Ordenado,
}

module _ (las : (ℕ → ℕ → Bool) → ℕ → List ℕ → List ℕ) (ic : String → String → Bool) (s : Master)
    (o : Ordenado ic s) where
  pub handshake_query_master-Ordenado :
      (archivo : String) (prioridad : ℤ)
      → Tras (λ _ t. Ordenado ic t) (handshake_query_master las ic archivo prioridad s)
  unfolding handshake_query_master handshake_query_fin asign_query_id
  handshake_query_master-Ordenado archivo prioridad =
      rw o.fifo (record {
        fifo = o.fifo;
        cola = Cola-llega _ _ _ _ _ refl refl o.cola;
        plantel = o.plantel;
      })

  pub handshake_worker_master-Ordenado :
      (w : ℕ)
      → buscar_worker w s.workers ≡ none
      → Tras (λ _ t. Ordenado ic t) (handshake_worker_master las w s)
  unfolding handshake_worker_master es_ready
  handshake_worker_master-Ordenado w h = record {
    fifo = o.fifo;
    cola = o.cola;
    plantel = Plantel-llega _ _ _ h (refl, refl) refl o.plantel;
  }

  pub lectura_master-Ordenado :
      (envio : Bool) (w : ℕ) (file tag contenido : String)
      → Tras (λ _ t. Ordenado ic t) (lectura_master las envio w file tag contenido s)
  unfolding lectura_master notificar_read
  lectura_master-Ordenado envio w file tag contenido = worker_de-Tras _ s w _ λ k h.
      o_fallo-Tras _ s k.query _ λ q e.
        let b = (ocupado_con_query s.workers s.sem_workers w q k h e o.plantel).0 in
        luego-Tras _ s _ (notificar_read q file tag contenido) _
          (notificar_read-Ordenado ic s o q file tag contenido)
          λ _ t (p, e).
            if-Tras _ t (not envio) _ _
              (λ _.
                luego-Tras _ t _ (destruir_worker w) _
                  (destruir_worker-Ordenado ic t p w k (rw e h) b) λ _ u r. r)
              (λ _. record { fifo = p.fifo; cola = p.cola; plantel = p.plantel })

  pub error_at_exec-Ordenado :
      (w : ℕ) (c_error : RtaStorage) → Tras (λ _ t. Ordenado ic t) (error_at_exec las w c_error s)
  unfolding error_at_exec
  error_at_exec-Ordenado w c_error = worker_de-Tras _ s w _ λ k h. o_fallo-Tras _ _ k.query _ λ q e.
      luego-Tras _ _ _ (finalizar_query q err_storage c_error) _
        (finalizar_query-Ordenado ic _
          (cambiar_worker-Ordenado ic s o w _ k h (λ j. (refl, refl, refl, refl))) q err_storage
          c_error)
        λ _ t p. p.0

  pub instruccion_master-Ordenado :
      (envio : Bool) (w : ℕ) → Tras (λ _ t. Ordenado ic t) (instruccion_master las envio w s)
  unfolding instruccion_master
  instruccion_master-Ordenado envio w = worker_de-Tras _ s w _ λ k h.
      o_fallo-Tras _ s k.query _ λ q e.
        let b = (ocupado_con_query s.workers s.sem_workers w q k h e o.plantel).0 in
        luego-Tras _ s _ (finalizar_query q finalizacion_correcta op_exitosa) _
          (finalizar_query-Ordenado ic s o q finalizacion_correcta op_exitosa)
          λ _ t (p, e).
            if-Tras _ t (not envio) _ _
              (λ _.
                luego-Tras _ t _ (destruir_worker w) _
                  (destruir_worker-Ordenado ic t p w k (rw e h) b) λ _ u r. r)
              (λ _.
                luego-Tras _ _ _ (soltar_worker las w) _
                  (soltar_worker-Ordenado ic _
                    (record { fifo = p.fifo; cola = p.cola; plantel = p.plantel }) las w k (rw e h)
                    b)
                  λ _ u r. r)

  abbrev Igual : Unit {0} → Master → Type 0
  Igual _ t = Ordenado ic t × (t.workers ≡ s.workers)

  abbrev fin_si_exec : Worker → M (Unit {0})
  fin_si_exec j =
      if es_exec las j.state
      then (do q ← o_fallo j.query; finalizar_query q err_desc_worker op_exitosa)
      else pure tt

  fin_si_exec-Igual : (j : Worker) → Tras Igual (fin_si_exec j s)
  fin_si_exec-Igual j = elim (Bool-cases (es_exec las j.state)) [
    | inl t ↦ rw t (
        o_fallo-Tras _ s j.query _
          λ q e. finalizar_query-Ordenado ic s o q err_desc_worker op_exitosa)
    | inr f ↦ rw f (o, refl)
  ]

  pub desconexion_worker-Ordenado :
      (w : ℕ) (k : Worker)
      → buscar_worker w s.workers ≡ some k
      → es_ready k.state ≡ false
      → Tras (λ _ t. Ordenado ic t) (desconexion_worker las w s)
  unfolding desconexion_worker
  desconexion_worker-Ordenado w k h b = worker_de-Tras _ s w _ λ j g.
      luego-Tras _ s Igual (fin_si_exec j) _ (fin_si_exec-Igual j) λ _ t (p, e).
        luego-Tras _ t _ (destruir_worker w) _ (destruir_worker-Ordenado ic t p w k (rw e h) b)
          λ _ u r. r

  liberada :
      (q : ℕ)
      → en_espera q s.querys ≡ false
      → Tras (λ _ t. Ordenado ic t) ((destruir_query q >> pure false) s)
  liberada q h =
      luego-Tras _ s _ (destruir_query q) _ (destruir_query-Ordenado ic s o q h) λ _ u r. r

  pub query_handler-Ordenado :
      (q : ℕ) → en_espera q s.querys ≡ false → Tras (λ _ t. Ordenado ic t) (query_handler las q s)
  unfolding query_handler
  query_handler-Ordenado q h = query_de-Tras _ s q _ λ k e. elim (StateT-cases k.state) [
    | inl f ↦ rw f (
        o_fallo-Tras _ s k.worker _ λ w f. worker_de-Tras _ s w _ λ j g. record {
          fifo = o.fifo;
          cola = Cola-cambiar_query _ _ _ _ q _ (λ i. (refl, refl)) o.cola;
          plantel = o.plantel;
        })
    | inr (inl f) ↦ rw f (liberada q h)
    | inr (inr f) ↦ rw f (liberada q h)
  ]

  pub interrupcion-Suya :
      (w : ℕ) (k : Worker)
      → buscar_worker w s.workers ≡ some k
      → Tras
          (λ _ t.
            Ordenado ic t × (buscar_worker w t.workers ≡ some k) × (q : ℕ) × (k.query ≡ some q))
          (interrupcion las k s)
  unfolding interrupcion
  interrupcion-Suya w k h =
      if-Tras _ s k.interrumpir _ _
        (λ t. absurd (ground (arith, t, (buscar_worker-Sano w s.workers k h o.plantel.sanos).0)))
        (λ _. o_fallo-Tras _ s k.query _ λ q e. query_de-Tras _ s q _ λ j g. (o, h, q, e))

  pub soltar_si-Ordenado :
      (result : Bool) (w : ℕ) (k : Worker)
      → buscar_worker w s.workers ≡ some k
      → es_ready k.state ≡ false
      → Tras (λ _ t. Ordenado ic t) ((if result then soltar_worker las w else pure tt) s)
  soltar_si-Ordenado true w k h b = soltar_worker-Ordenado ic s o las w k h b
  soltar_si-Ordenado false w k h b = o
