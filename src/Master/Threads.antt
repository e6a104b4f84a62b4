-- ===== src/Master/Threads.antt =====
-- master/src/master_network_handler.c: the threads of the master around their handlers. A package is
-- what its code and its items say; `envio` is whether the `send` of its answer returned more than 0.
use Prim.Native.String.{String}
use tp_ssoo_2c.Base.{ℤ, ℕ, Bool, true, false, List, [], ◌∷◌, if◌then◌else◌}
use tp_ssoo_2c.Codes.{OpCode, desconexion, RtaStorage}
use tp_ssoo_2c.Master.{M, ◌>>=◌, ◌>>◌, pure}
use tp_ssoo_2c.Master.Util.{destruir_query}
use tp_ssoo_2c.Master.Handlers.{
  handshake_query_master, handshake_worker_master, consulta_interrupcion, lectura_master,
  instruccion_master, error_at_exec, desconexion_worker, query_handler,
}

-- The first package of a connection: from a Query Control, from a worker, or of another code. The
-- worker stands by its number.
pub data Saludo : Type 0 where
  de_query : String → ℤ → Saludo
  de_worker : ℕ → Saludo
  otro_saludo : Saludo

-- A package of a worker; `sin_definir` is one of another code.
pub data Mensaje : Type 0 where
  de_consulta : ℕ → Mensaje
  de_lectura : String → String → String → Mensaje
  de_instruccion : Mensaje
  de_desconexion : Mensaje
  de_error : RtaStorage → Mensaje
  sin_definir : Mensaje

-- `== DESCONEXION`.
abbrev pub es_desconexion : OpCode → Bool
es_desconexion desconexion = true
es_desconexion _ = false

module _ (list_add_sorted : (ℕ → ℕ → Bool) → ℕ → List ℕ → List ℕ) where
  -- A round of master_network_handler: true where `check_prior` waits.
  unfoldable pub master_network_handler : (String → String → Bool) → Saludo → M Bool
  master_network_handler ic (de_query archivo prioridad) =
      handshake_query_master list_add_sorted ic archivo prioridad
  master_network_handler ic (de_worker w) = do handshake_worker_master list_add_sorted w; pure false
  master_network_handler ic otro_saludo = pure false

  -- A round of worker_handler: true where the thread goes on.
  unfoldable pub atender : Bool → ℕ → Mensaje → M Bool
  atender envio w (de_consulta new_pc) = consulta_interrupcion list_add_sorted envio w new_pc
  atender envio w (de_lectura file tag contenido) =
      lectura_master list_add_sorted envio w file tag contenido
  atender envio w de_instruccion = instruccion_master list_add_sorted envio w
  atender envio w de_desconexion = desconexion_worker list_add_sorted w
  atender envio w (de_error c_error) = error_at_exec list_add_sorted w c_error
  atender envio w sin_definir = pure true

  -- The thread of a worker over the packages that have come: false where it has returned.
  unfoldable pub worker_handler : ℕ → List (Bool × Mensaje) → M Bool
  unfolding atender
  worker_handler w [] = pure true
  worker_handler w ((envio, m) ∷ ms) =
      let resto = worker_handler w ms in
      do sigue ← atender envio w m; if sigue then resto else pure false

  -- The one package of a Query Control: of another code than DESCONEXION it frees the query.
  unfoldable pub atender_query : OpCode → ℕ → M Bool
  atender_query opcode q =
      if es_desconexion opcode
      then query_handler list_add_sorted q
      else (do destruir_query q; pure false)
