-- ===== src/Worker/QueryTests.antt =====
-- A query of two instructions, and the theorems on the interpreter and the parser at it.
use tp_ssoo_2c.Base.{true, ◌<◌, ◌≤◌, ◌*◌, ◌%◌, ◌↔◌, ◌⊎◌, ◌≡◌, refl, [], some, ◌∷◌, ◌==◌, arith}
use text.Mathlib.Text.{◌==◌ as str_eq}
use tp_ssoo_2c.Codes.{
  SetInstrucciones, create, truncate, write, flush, commit, read, tag, delete, fin,
}
use tp_ssoo_2c.Worker.Machine.{Estado, hecho}
use tp_ssoo_2c.Worker.Interpreter.{Instruccion, size_de_truncate, flush_paginas}
use tp_ssoo_2c.Worker.Parser.{parseado, parsear_archivo}
use tp_ssoo_2c.Worker.Loop.{
  ejecutar_desde, ejecutar_query, desalojada, interpretar, desalojar, flush_todos,
}
use tp_ssoo_2c.Worker.Told.{ultima_consulta}
use tp_ssoo_2c.Worker.Resume.{ejecutar_query-Avanza}
use tp_ssoo_2c.Worker.Tables.{agregar_file_tag}
use tp_ssoo_2c.Worker.Interpreter.{
  interpretar_create, instruccion_simple_storage, paquete_instruccion_storage, enviar_a_storage,
}
use tp_ssoo_2c.Worker.Machine.{consulta_interrupcion}
use tp_ssoo_2c.Worker.Sizes.{size_de_truncate-multiplo}
use tp_ssoo_2c.Worker.Syntax.{
  nombre, codigo, Distingue, SonLineas, EsLinea, f_flush, f_fin, parsear_archivo-SonLineas,
}
use tp_ssoo_2c.Codes.{err_fuera_limite}
use tp_ssoo_2c.Worker.{Memoria}
use tp_ssoo_2c.Worker.Machine.{Entorno, error_at_exec}
use tp_ssoo_2c.Worker.Tables.{buscar_file_tag, file_tag_de}
use tp_ssoo_2c.Worker.Interpreter.{interpretar_write, interpretar_read}
use tp_ssoo_2c.Worker.Limits.{FueraDeLimite, interpretar_write-FueraDeLimite}
use tp_ssoo_2c.Worker.Clean.{Cargada, Limpia, Limpiada}
use tp_ssoo_2c.Worker.Flushed.{Todas, Enviadas, flush_paginas-Limpia}
use tp_ssoo_2c.Worker.{nodo}
use tp_ssoo_2c.Worker.MemoryTests.{
  a_uno, almacen-Contesta, almacen, partir, entorno, pagina_0, frame_0, cargada, estado,
}

abbrev flush_a : Instruccion
flush_a = record { copi = flush; identificador = "FLUSH"; datos = "a:uno" ∷ [] }

abbrev crear_a : Instruccion
crear_a = record { copi = create; identificador = "CREATE"; datos = "a:uno" ∷ [] }

abbrev terminar : Instruccion
terminar = record { copi = fin; identificador = "END"; datos = [] }

-- The master wants the query to stop, and no File:Tag is in the memory.
abbrev impaciente : Entorno
impaciente = record entorno { resultado_consulta = λ avisos. some true }

abbrev vacio : Estado almacen.State
vacio = record estado { memoria = record cargada { file_tag_pages = [] } }

interrumpida :
    ejecutar_query impaciente (crear_a ∷ terminar ∷ []) 0 vacio
    ≡ hecho (desalojada 1) (record vacio { avisos = consulta_interrupcion 1 ∷ [] })
unfolding ejecutar_query ejecutar_desde interpretar interpretar_create instruccion_simple_storage
    paquete_instruccion_storage enviar_a_storage agregar_file_tag desalojar flush_todos
interrumpida = refl

ejecutar_query-Avanza_example :
    (0 < 1) × (1 ≤ 2) × (ultima_consulta (consulta_interrupcion 1 ∷ []) ≡ some 1)
ejecutar_query-Avanza_example =
    ejecutar_query-Avanza impaciente (crear_a ∷ terminar ∷ []) 0 1 vacio
      (record vacio { avisos = consulta_interrupcion 1 ∷ [] }) (omega arith) interrumpida

size_de_truncate-multiplo_example :
    (size_de_truncate 5 4 % 4 ≡ 0) ↔ ((5 % 4 ≡ 0) ⊎ (2 * (5 % 4) ≡ 4))
size_de_truncate-multiplo_example = size_de_truncate-multiplo 5 4 (omega arith)

abbrev Segun : SetInstrucciones → SetInstrucciones → Type 0
Segun a b = str_eq (nombre a) (nombre b) ≡ (codigo a == codigo b)

por_casos :
    (P : SetInstrucciones → Type 0)
    → P create
    → P truncate
    → P write
    → P flush
    → P commit
    → P read
    → P tag
    → P delete
    → P fin
    → (b : SetInstrucciones) → P b
por_casos P c0 c1 c2 c3 c4 c5 c6 c7 c8 create = c0
por_casos P c0 c1 c2 c3 c4 c5 c6 c7 c8 truncate = c1
por_casos P c0 c1 c2 c3 c4 c5 c6 c7 c8 write = c2
por_casos P c0 c1 c2 c3 c4 c5 c6 c7 c8 flush = c3
por_casos P c0 c1 c2 c3 c4 c5 c6 c7 c8 commit = c4
por_casos P c0 c1 c2 c3 c4 c5 c6 c7 c8 read = c5
por_casos P c0 c1 c2 c3 c4 c5 c6 c7 c8 tag = c6
por_casos P c0 c1 c2 c3 c4 c5 c6 c7 c8 delete = c7
por_casos P c0 c1 c2 c3 c4 c5 c6 c7 c8 fin = c8

distingue : Distingue str_eq partir
unfolding Distingue nombre
distingue create = por_casos (Segun create) refl refl refl refl refl refl refl refl refl
distingue truncate = por_casos (Segun truncate) refl refl refl refl refl refl refl refl refl
distingue write = por_casos (Segun write) refl refl refl refl refl refl refl refl refl
distingue flush = por_casos (Segun flush) refl refl refl refl refl refl refl refl refl
distingue commit = por_casos (Segun commit) refl refl refl refl refl refl refl refl refl
distingue read = por_casos (Segun read) refl refl refl refl refl refl refl refl refl
distingue tag = por_casos (Segun tag) refl refl refl refl refl refl refl refl refl
distingue delete = por_casos (Segun delete) refl refl refl refl refl refl refl refl refl
distingue fin = por_casos (Segun fin) refl refl refl refl refl refl refl refl refl

parsear_archivo-SonLineas_example :
    parsear_archivo str_eq partir "FLUSH a:uno\nEND" ≡ parseado (flush_a ∷ terminar ∷ [])
unfolding SonLineas EsLinea nombre
parsear_archivo-SonLineas_example =
    parsear_archivo-SonLineas str_eq partir distingue (flush_a ∷ terminar ∷ []) "FLUSH a:uno\nEND"
      ((refl, refl, f_flush), ((refl, refl, f_fin), tt))

flush_paginas-Limpia_example :
    (t : Estado almacen.State) × (flush_paginas entorno "a:uno" (0 ∷ []) estado ≡ hecho tt t)
    × Limpiada entorno cargada t.memoria
    × Todas entorno (Limpia entorno t.memoria) (0 ∷ [])
    × Enviadas entorno ("a", "uno") cargada (0 ∷ []) tt t.almacen
unfolding Todas Cargada nodo
flush_paginas-Limpia_example =
    flush_paginas-Limpia entorno "a:uno" ("a", "uno") (0 ∷ []) estado almacen-Contesta refl
      ((pagina_0, refl, λ d. (0, frame_0, refl, refl)), tt)

-- A READ at the address 8 of a File:Tag of one page of four bytes.
abbrev lector : Entorno
lector = record entorno {
  almacen = record almacen { info_file_tag = λ ft s. some (some 4, s) };
  atoi = λ s. 8;
}

abbrev leer_8 : Instruccion
leer_8 = record { copi = read; identificador = "READ"; datos = "a:uno" ∷ "8" ∷ "4" ∷ [] }

fuera : FueraDeLimite lector estado "a:uno" 2
unfolding buscar_file_tag file_tag_de
fuera = record {
  ft = a_uno;
  datos = ("a", "uno");
  size = 4;
  almacen = tt;
  conocido = refl;
  vivo = refl;
  partes = refl;
  informado = refl;
  tam = λ h. ground arith;
  al_dia = refl;
  fuera = omega arith;
}

interpretar_write-FueraDeLimite_example :
    (u : Memoria) × (interpretar_write lector leer_8 estado
      ≡ hecho tt (record estado { memoria = u; avisos = error_at_exec err_fuera_limite ∷ [] }))
    × (interpretar_read lector leer_8 estado
        ≡ hecho tt (record estado { memoria = u; avisos = error_at_exec err_fuera_limite ∷ [] }))
    × (u.paginas ≡ cargada.paginas)
    × (u.marco ≡ cargada.marco)
interpretar_write-FueraDeLimite_example =
    interpretar_write-FueraDeLimite lector estado "a:uno" 2 fuera leer_8 "8" "4" refl refl
