-- ===== src/Worker/Loop.antt =====
-- worker/src/main.c: the loop over the instructions of a query.
use tp_ssoo_2c.Base.{ℕ, ◌+◌, Bool, true, false, List, [], ◌∷◌, drop, if◌then◌else◌}
use tp_ssoo_2c.Codes.{create, truncate, write, flush, commit, read, tag, delete, fin}
use tp_ssoo_2c.Worker.{FileTag}
use tp_ssoo_2c.Worker.Machine.{
  Entorno, consulta_interrupcion, M, ◌>>=◌, ◌>>◌, pure, get, avisar, esperar_master,
}
use tp_ssoo_2c.Worker.Interpreter.{
  Instruccion, flush_file_tag, interpretar_create, interpretar_truncate, interpretar_write,
  interpretar_flush, interpretar_commit, interpretar_read, interpretar_tag, interpretar_delete,
  interpretar_end,
}

-- How the loop was left: by END, for the interruption at a `pc`, or after the last instruction.
pub data Fin : Type 0 where
  por_end : Fin
  desalojada : ℕ → Fin
  agotada : Fin

module _ (e : Entorno) where
  -- The `switch`; whether it was END.
  unfoldable pub interpretar : Instruccion → M e.almacen.State Bool
  unfolding interpretar_create interpretar_truncate interpretar_write interpretar_flush
      interpretar_commit interpretar_read interpretar_tag interpretar_delete interpretar_end
  interpretar i = elim i.copi [
    | create ↦ (do interpretar_create e i; pure false)
    | commit ↦ (do interpretar_commit e i; pure false)
    | delete ↦ (do interpretar_delete e i; pure false)
    | flush ↦ (do interpretar_flush e i; pure false)
    | truncate ↦ (do interpretar_truncate e i; pure false)
    | tag ↦ (do interpretar_tag e i; pure false)
    | read ↦ (do interpretar_read e i; pure false)
    | write ↦ (do interpretar_write e i; pure false)
    | fin ↦ (do interpretar_end e i; pure true)
  ]

  -- What an interruption does first.
  unfoldable pub flush_todos : List FileTag → M e.almacen.State (Unit {0})
  unfolding flush_file_tag
  flush_todos [] = pure tt
  flush_todos (ft ∷ fts) = do flush_file_tag e ft.identificador; flush_todos fts

  unfoldable pub desalojar : M e.almacen.State (Unit {0})
  unfolding flush_todos
  desalojar = do s ← get; flush_todos s.file_tag_pages

  -- The instructions from `pc`.
  unfoldable pub ejecutar_desde : ℕ → List Instruccion → M e.almacen.State Fin
  unfolding interpretar desalojar
  ejecutar_desde pc [] = pure agotada
  ejecutar_desde pc (i ∷ resto) = do
    fue_end ← interpretar i
    if fue_end then pure por_end else (do
      avisar (consulta_interrupcion (pc + 1))
      resultado ← esperar_master e.resultado_consulta
      if resultado
          then (do desalojar; pure (desalojada (pc + 1)))
          else ejecutar_desde (pc + 1) resto)

  unfoldable pub ejecutar_query : List Instruccion → ℕ → M e.almacen.State Fin
  unfolding ejecutar_desde
  ejecutar_query instrucciones pc = ejecutar_desde pc (drop pc instrucciones)
