-- ===== src/Worker/Main.antt =====
-- worker/src/main.c: the loop over the queries that the master sends, behind the handshakes. `leer` is the
-- content of the file of a query below PATH_SCRIPTS; a file that is not there is a NULL, which
-- parsear_archivo uses.
use Prim.Native.String.{String}
use tp_ssoo_2c.Base.{ℕ, Option, none, List, [], ◌∷◌}
use tp_ssoo_2c.Worker.Machine.{Entorno, M, ◌>>=◌, pure, salir, o_fallo}
use tp_ssoo_2c.Worker.Parser.{Parseo, parseado, inexistente, parsear_archivo}
use tp_ssoo_2c.Worker.Loop.{Fin, ejecutar_query}

-- A package of the master: SOLICITUD_EJECUCION with the file, the number of the query and its program
-- counter, or one of another code.
pub data Paquete : Type 0 where
  solicitud_ejecucion : String → ℕ → ℕ → Paquete
  otro_paquete : Paquete

-- An instruction that does not exist ends the program.
abbrev pub o_salir_parseo : {S A : Type 0} → Parseo A → M S A
o_salir_parseo (parseado a) = pure a
o_salir_parseo inexistente = salir
o_salir_parseo Parseo.fallo = o_fallo none

module _ (e : Entorno) (leer : String → Option String) where
  unfoldable pub atender_query : Paquete → M e.almacen.State Fin
  unfolding ejecutar_query parsear_archivo
  atender_query (solicitud_ejecucion archivo query_id pc) = do
    contenido ← o_fallo (leer archivo)
    instrucciones ←
        o_salir_parseo (parsear_archivo e.string_equals_ignore_case e.string_split contenido)
    ejecutar_query e instrucciones pc
  atender_query otro_paquete = salir

  -- The `while` over the packages that have come: how each query was left.
  unfoldable pub atender_querys : List Paquete → M e.almacen.State (List Fin)
  unfolding atender_query
  atender_querys [] = pure []
  atender_querys (p ∷ ps) = do fin ← atender_query p; fines ← atender_querys ps; pure (fin ∷ fines)
