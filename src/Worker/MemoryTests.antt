-- ===== src/Worker/MemoryTests.antt =====
-- A small memory of pages, and the theorems on memoria.c at it.
use Prim.Native.String.{String}
use tp_ssoo_2c.Base.{
  ◌<◌, ◌/◌, set, ℕ, ◌≢◌, ◌≡◌, refl, if◌then◌else◌, true, false, none, some, List, [], ◌∷◌,
  get_elem?, arith,
}
use text.Mathlib.Text.{◌==◌ as str_eq}
use tp_ssoo_2c.Codes.{read, op_exitosa}
use tp_ssoo_2c.Worker.Machine.{Almacen, Entorno, Estado, hecho, fallo}
use tp_ssoo_2c.Worker.Tables.{file_tag_de, buscar_file_tag}
use tp_ssoo_2c.Worker.Frames.{init_memoria, libre_desde, marco_libre}
use tp_ssoo_2c.Worker.Pages.{escribir_pagina, leer_bytes, pagina_en_tabla, solicitar_pagina}
use tp_ssoo_2c.Worker.Interpreter.{Instruccion}
use tp_ssoo_2c.Worker.Access.{escribir_pagina-cut, leer_bytes-cut}
use tp_ssoo_2c.Worker.WriteRead.{Lugar, escribir_pagina-leer_bytes}
use tp_ssoo_2c.Worker.Missing.{pagina_en_tabla_limite}
use tp_ssoo_2c.Worker.{NodoPagina, FileTag, NodoMarco, Memoria, nodo}
use tp_ssoo_2c.Worker.Free.{Libre, marco_libre-Libre}
use tp_ssoo_2c.Worker.Started.{Iniciada, init_memoria-Iniciada}
use tp_ssoo_2c.Worker.Notify.{Contesta}
use tp_ssoo_2c.Worker.Fault.{Falta, solicitar_pagina-presente}

-- A File:Tag of one page of four bytes, in the first of two frames.
abbrev pub almacen : Almacen
almacen = record {
  State = Unit {0};
  info_file_tag = λ ft s. some (none, s);
  solicitud = λ ft n s. some ((op_exitosa, 0 ∷ 0 ∷ 0 ∷ 0 ∷ []), s);
  modificaciones = λ ft n bytes s. some (op_exitosa, s);
  instruccion = λ paquete s. some (op_exitosa, s);
}

abbrev pub partir : String → String → List String
partir linea sep =
    if str_eq linea "FLUSH a:uno\nEND"
    then "FLUSH a:uno" ∷ "END" ∷ []
    else if str_eq linea "FLUSH a:uno"
    then "FLUSH" ∷ "a:uno" ∷ []
    else if str_eq linea "END"
    then "END" ∷ []
    else "a" ∷ "uno" ∷ []

abbrev pub entorno : Entorno
entorno = record {
  almacen = almacen;
  resultado_lectura = λ avisos. some true;
  resultado_fin = λ avisos. some true;
  resultado_consulta = λ avisos. some false;
  string_equals_ignore_case = str_eq;
  string_split = partir;
  atoi = λ s. 0;
  bytes = λ s. [];
  temporal_gettime = λ n. n;
  malloc = λ n. [];
  algoritmo_reemplazo = "LRU";
}

abbrev pub pagina_0 : NodoPagina
pagina_0 = record {
  nro_pagina = 0;
  nro_marco = some 0;
  modificado = true;
  uso = false;
  presencia = true;
}

abbrev pub frame_0 : NodoMarco
frame_0 = record {
  identificador = "a:uno";
  puntero_marco = 1 ∷ 2 ∷ 3 ∷ 4 ∷ [];
  pagina = some 0;
  time = 0;
}

abbrev pub frame_1 : NodoMarco
frame_1 = record { identificador = ""; puntero_marco = 0 ∷ 0 ∷ 0 ∷ 0 ∷ []; pagina = none; time = 0 }

abbrev pub a_uno : FileTag
a_uno = record {
  direccion = 0;
  identificador = "a:uno";
  cantidad_paginas = 1;
  tabla_paginas = 0 ∷ [];
}

abbrev pub cargada : Memoria
cargada = record {
  marco = frame_0 ∷ frame_1 ∷ [];
  victima_clock = 0;
  paginas = some pagina_0 ∷ [];
  file_tag_pages = a_uno ∷ [];
  asignados = 1;
  bit_map = true ∷ false ∷ false ∷ [];
  tam_pagina = 4;
  lecturas = 0;
}

abbrev pub estado : Estado almacen.State
estado = record { memoria = cargada; almacen = tt; avisos = [] }

escribir_pagina-cut_example :
    escribir_pagina entorno 0 "a:uno" 2 (7 ∷ 8 ∷ 9 ∷ []) estado
    ≡ escribir_pagina entorno 0 "a:uno" 2 (7 ∷ 8 ∷ []) estado
unfolding nodo
escribir_pagina-cut_example =
    escribir_pagina-cut entorno estado 0 pagina_0 "a:uno" 2 (7 ∷ 8 ∷ 9 ∷ []) refl (omega arith)
      (omega arith)

leer_bytes-cut_example :
    leer_bytes entorno 0 "a:uno" 2 3 estado ≡ leer_bytes entorno 0 "a:uno" 2 2 estado
unfolding nodo
leer_bytes-cut_example =
    leer_bytes-cut entorno estado 0 pagina_0 "a:uno" 2 3 refl (omega arith) (omega arith)

lugar : Lugar cargada 0 1 2
unfolding nodo
lugar = record {
  pagina = pagina_0;
  indice = 0;
  marco = frame_0;
  es_nodo = refl;
  es_indice = refl;
  es_marco = refl;
  entero = refl;
  hasta = omega arith;
}

escribir_pagina-leer_bytes_example :
    (t : Memoria) × (u : Memoria) × (escribir_pagina entorno 0 "a:uno" 1 (7 ∷ 8 ∷ []) estado
      ≡ hecho tt (record estado { memoria = t }))
    × (nodo t.paginas 0 ≡ some (record lugar.pagina { modificado = true; uso = true }))
    × (leer_bytes entorno 0 "a:uno" 1 2 (record estado { memoria = t })
        ≡ hecho (7 ∷ 8 ∷ []) (record estado { memoria = u }))
    × ((j : ℕ) → lugar.indice ≢ j → get_elem? u.marco j ≡ get_elem? cargada.marco j)
escribir_pagina-leer_bytes_example =
    escribir_pagina-leer_bytes entorno estado 0 1 "a:uno" (7 ∷ 8 ∷ []) lugar

pagina_en_tabla_limite_example : pagina_en_tabla entorno "a:uno" 1 estado ≡ fallo
unfolding buscar_file_tag file_tag_de
pagina_en_tabla_limite_example = pagina_en_tabla_limite entorno estado "a:uno" a_uno refl refl

abbrev leer_b : Instruccion
leer_b = record { copi = read; identificador = "READ"; datos = "b:uno" ∷ "0" ∷ "4" ∷ [] }

init_memoria-Iniciada_example :
    (s : Memoria) × (init_memoria (λ i. frame_0) (5 ∷ 6 ∷ 7 ∷ 8 ∷ 9 ∷ []) 5 2 ≡ some s)
    × Iniciada (5 / 2) 2 (5 ∷ 6 ∷ 7 ∷ 8 ∷ 9 ∷ []) s
init_memoria-Iniciada_example =
    init_memoria-Iniciada (λ i. frame_0) (5 ∷ 6 ∷ 7 ∷ 8 ∷ 9 ∷ []) 5 2 (λ h. ground arith) refl

-- The page is not in the memory yet.
abbrev ausente : NodoPagina
ausente = record {
  nro_pagina = 0;
  nro_marco = none;
  modificado = false;
  uso = false;
  presencia = false;
}

abbrev sin_pagina : Estado almacen.State
sin_pagina = record estado {
  memoria = record cargada { paginas = some ausente ∷ []; bit_map = false ∷ false ∷ false ∷ [] };
}

falta : Falta entorno sin_pagina "a:uno" 0
unfolding buscar_file_tag file_tag_de marco_libre libre_desde nodo
falta = record {
  ft = a_uno;
  datos = ("a", "uno");
  bloque = 0 ∷ 0 ∷ 0 ∷ 0 ∷ [];
  almacen = tt;
  indice = 0;
  marco = frame_0;
  direccion = 0;
  pagina = ausente;
  conocido = refl;
  vivo = refl;
  partes = refl;
  enviado = refl;
  bits = omega arith;
  libre = refl;
  es_marco = refl;
  entero = refl;
  en_tabla = refl;
  es_nodo = refl;
}

solicitar_pagina-presente_example :
    (u : Memoria) × (solicitar_pagina entorno "a:uno" 0 sin_pagina
      ≡ hecho falta.direccion (record sin_pagina { memoria = u; almacen = falta.almacen }))
    × (nodo u.paginas falta.direccion
        ≡ some (record falta.pagina { nro_marco = some falta.indice; presencia = true }))
    × (get_elem? u.marco falta.indice
        ≡ some (record falta.marco {
          identificador = falta.ft.identificador;
          puntero_marco = falta.bloque;
          pagina = some falta.direccion;
        }))
    × (get_elem? sin_pagina.memoria.bit_map falta.indice ≡ some false)
    × ((l : ℕ) → l < falta.indice → get_elem? sin_pagina.memoria.bit_map l ≡ some true)
    × (u.bit_map ≡ set sin_pagina.memoria.bit_map falta.indice true)
    × ((j : ℕ) → falta.indice ≢ j → get_elem? u.marco j ≡ get_elem? sin_pagina.memoria.marco j)
solicitar_pagina-presente_example = solicitar_pagina-presente entorno sin_pagina "a:uno" 0 falta

pub almacen-Contesta : Contesta entorno
unfolding Contesta
almacen-Contesta ft n bytes s = (op_exitosa, tt, refl)

-- The first of the three frames is taken.
abbrev con_uno : Memoria
con_uno = record cargada {
  marco = frame_0 ∷ frame_0 ∷ frame_0 ∷ [];
  bit_map = true ∷ false ∷ true ∷ [];
}

marco_libre-Libre_example : Libre 0 3 (true ∷ false ∷ true ∷ []) (marco_libre con_uno)
marco_libre-Libre_example = marco_libre-Libre con_uno (omega arith)
