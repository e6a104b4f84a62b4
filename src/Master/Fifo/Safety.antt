-- ===== src/Master/Fifo/Safety.antt =====
-- What holds in every state that the master reaches under FIFO.
use Prim.Native.String.{String}
use tp_ssoo_2c.Base.{ℕ, ◌≡◌, ◌⊎◌, arith, Bool, true, false, List, [], ◌∷◌}
use tp_ssoo_2c.Codes.{OpCode}
use tp_ssoo_2c.Master.{Master}
use tp_ssoo_2c.Master.Util.{destruir_query}
use tp_ssoo_2c.Master.Handlers.{handshake_worker_master}
use tp_ssoo_2c.Master.Threads.{
  Saludo, de_query, de_worker, otro_saludo, Mensaje, de_consulta, de_lectura, de_instruccion,
  de_desconexion, de_error, sin_definir, master_network_handler, atender, worker_handler,
  atender_query, es_desconexion,
}
use tp_ssoo_2c.Master.After.{Tras, Tras-hecho, luego-Tras, if-Tras}
use tp_ssoo_2c.Master.Fifo.{
  en_espera, Nuevo, Admitido, Turno, conecta, atiende, reparte, query_se_va, query_liberada,
  Alcanza, inicio, sigue,
}
use tp_ssoo_2c.Master.Fifo.Invariant.{Ordenado, recien-Ordenado}
use tp_ssoo_2c.Master.Fifo.Handled.{destruir_query-Ordenado}
use tp_ssoo_2c.Master.Fifo.Preserved.{
  handshake_query_master-Ordenado, handshake_worker_master-Ordenado, lectura_master-Ordenado,
  error_at_exec-Ordenado, instruccion_master-Ordenado, desconexion_worker-Ordenado,
  query_handler-Ordenado,
}
use tp_ssoo_2c.Master.Fifo.Interrupted.{consulta_interrupcion-Ordenado}
use tp_ssoo_2c.Master.Fifo.Round.{Atendida, EnPausa, ronda-Atendida, process_handler-Ordenado}

abbrev se_desconecta : Mensaje → Bool
se_desconecta de_desconexion = true
se_desconecta _ = false

abbrev SinDesconexion : List (Bool × Mensaje) → Type 0
SinDesconexion [] = Unit
SinDesconexion ((_, m) ∷ ms) = (se_desconecta m ≡ false) × SinDesconexion ms

sigue_conectado : (m : Mensaje) (w : ℕ) (s : Master) → se_desconecta m ≡ false → Admitido m w s
sigue_conectado (de_consulta pc) w s h = tt
sigue_conectado (de_lectura file tag contenido) w s h = tt
sigue_conectado de_instruccion w s h = tt
sigue_conectado de_desconexion w s h = absurd (ground arith)
sigue_conectado (de_error c) w s h = tt
sigue_conectado sin_definir w s h = tt

module _ (las : (ℕ → ℕ → Bool) → ℕ → List ℕ → List ℕ) (ic : String → String → Bool) where
  master_network_handler-Ordenado :
      (s : Master) (saludo : Saludo)
      → Nuevo saludo s
      → Ordenado ic s
      → Tras (λ _ t. Ordenado ic t) (master_network_handler las ic saludo s)
  unfolding master_network_handler
  master_network_handler-Ordenado s (de_query archivo prioridad) n o =
      handshake_query_master-Ordenado las ic s o archivo prioridad
  master_network_handler-Ordenado s (de_worker w) n o =
      luego-Tras _ s _ (handshake_worker_master las w) _
        (handshake_worker_master-Ordenado las ic s o w n) λ _ u r. r
  master_network_handler-Ordenado s otro_saludo n o = o

  atender-Ordenado :
      (s : Master) (envio : Bool) (w : ℕ) (m : Mensaje)
      → Admitido m w s
      → Ordenado ic s
      → Tras (λ _ t. Ordenado ic t) (atender las envio w m s)
  unfolding atender
  atender-Ordenado s envio w (de_consulta pc) n o =
      consulta_interrupcion-Ordenado las ic s o envio w pc
  atender-Ordenado s envio w (de_lectura file tag contenido) n o =
      lectura_master-Ordenado las ic s o envio w file tag contenido
  atender-Ordenado s envio w de_instruccion n o = instruccion_master-Ordenado las ic s o envio w
  atender-Ordenado s envio w de_desconexion (k, h, b) o =
      desconexion_worker-Ordenado las ic s o w k h b
  atender-Ordenado s envio w (de_error c) n o = error_at_exec-Ordenado las ic s o w c
  atender-Ordenado s envio w sin_definir n o = o

  -- The thread of a worker keeps the invariant, whatever packages come before its disconnection.
  worker_handler-Ordenado :
      (s : Master) (w : ℕ) (ms : List (Bool × Mensaje))
      → SinDesconexion ms
      → Ordenado ic s
      → Tras (λ _ t. Ordenado ic t) (worker_handler las w ms s)
  unfolding worker_handler
  worker_handler-Ordenado s w [] n o = o
  worker_handler-Ordenado s w ((envio, m) ∷ ms) (n, ns) o =
      luego-Tras _ s _ (atender las envio w m) _
        (atender-Ordenado s envio w m (sigue_conectado m w s n) o)
        λ b t p. if-Tras _ t b _ _ (λ _. worker_handler-Ordenado t w ms ns p) (λ _. p)

  atender_query-Ordenado :
      (s : Master) (opcode : OpCode) (q : ℕ)
      → en_espera q s.querys ≡ false
      → Ordenado ic s
      → Tras (λ _ t. Ordenado ic t) (atender_query las opcode q s)
  unfolding atender_query
  atender_query-Ordenado s opcode q n o =
      if-Tras _ s (es_desconexion opcode) _ _ (λ _. query_handler-Ordenado las ic s o q n)
        (λ _. luego-Tras _ s _ (destruir_query q) _ (destruir_query-Ordenado ic s o q n) λ _ u r. r)

  Turno-Ordenado : {s t : Master} → Turno las ic s t → Ordenado ic s → Ordenado ic t
  Turno-Ordenado {s} {t} (conecta saludo b n e) o =
      Tras-hecho _ _ b t e (master_network_handler-Ordenado s saludo n o)
  Turno-Ordenado {s} {t} (atiende envio w m b n e) o =
      Tras-hecho _ _ b t e (atender-Ordenado s envio w m n o)
  Turno-Ordenado {s} {t} (reparte e) o = process_handler-Ordenado ic s o t e
  Turno-Ordenado {s} {t} (query_se_va opcode q b n e) o =
      Tras-hecho _ _ b t e (atender_query-Ordenado s opcode q n o)
  Turno-Ordenado {s} {t} (query_liberada q n e) o =
      Tras-hecho _ _ _ t e (destruir_query-Ordenado ic s o q n)

  pub Alcanza-Ordenado :
      (algoritmo : String) (tiempo : ℕ) (s : Master)
      → ic algoritmo "FIFO" ≡ true
      → Alcanza las ic algoritmo tiempo s
      → Ordenado ic s
  Alcanza-Ordenado algoritmo tiempo s h inicio = recien-Ordenado ic algoritmo tiempo h
  Alcanza-Ordenado algoritmo tiempo t h (sigue {s} r u) =
      Turno-Ordenado u (Alcanza-Ordenado algoritmo tiempo s h r)

  -- In every state that the master reaches under FIFO by connections, packages of workers, rounds
  -- of the scheduler and disconnections, where each worker comes with a number of its own, and but
  -- for the disconnection of a query that waits and of a worker that is free, a round of the
  -- scheduler uses no NULL: it waits, and then no query waits or no worker is free, or it ends, and
  -- then it has paired a free worker with the query that came first of all that wait.
  pub process_handler-Atendida :
      (algoritmo : String) (tiempo : ℕ) (s : Master)
      → ic algoritmo "FIFO" ≡ true
      → Alcanza las ic algoritmo tiempo s
      → EnPausa s ⊎ Atendida s
  process_handler-Atendida algoritmo tiempo s h r =
      ronda-Atendida ic s (Alcanza-Ordenado algoritmo tiempo s h r)
