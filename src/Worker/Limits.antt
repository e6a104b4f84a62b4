-- ===== src/Worker/Limits.antt =====
-- A WRITE and a READ out of the limits of a File:Tag (worker/src/interpreter.c and memoria.c).
use Prim.Native.String.{String}
use tp_ssoo_2c.Base.{
  ℕ, ◌-◌, ◌/◌, ◌<◌, ◌≡◌, ◌≢◌, refl, none, some, [], ◌∷◌, length, take, take-length, lt→ltb, ne→==,
  arith,
}
use tp_ssoo_2c.Codes.{err_fuera_limite}
use tp_ssoo_2c.Worker.{FileTag, Memoria}
use tp_ssoo_2c.Worker.Machine.{Entorno, Estado, hecho, error_at_exec}
use tp_ssoo_2c.Worker.Tables.{
  file_tag_de, cambiar_file_tag, leer_file_tag, dividir, dos_primeros, agregar_file_tag,
  solicitar_metadata, buscar_file_tag, recortar_tabla, actualizar_tabla,
}
use tp_ssoo_2c.Worker.Pages.{fuera_de_tabla, pagina_en_tabla}
use tp_ssoo_2c.Worker.Interpreter.{
  Instruccion, escribir_hallada, leer_hallada, interpretar_write, interpretar_read,
}
use tp_ssoo_2c.Worker.TagTable.{file_tag_de-cambiar}
use tp_ssoo_2c.Worker.Missing.{file_tag_en_memoria-conocido, ltb_self}

menos_si_mismo : (n : ℕ) → n - n ≡ 0
menos_si_mismo n = omega arith

abbrev recortado : ℕ → FileTag → FileTag
recortado n t = record t { tabla_paginas = take n t.tabla_paginas }

module _ (e : Entorno) where
  -- Page `nro_pagina` lies more than one page behind the table of a known File:Tag, which is as long as the
  -- storage says.
  pub record FueraDeLimite (s : Estado e.almacen.State) (identificador : String) (nro_pagina : ℕ)
      : Type 0 where
    pub ft : FileTag
    pub datos : String × String
    pub size : ℕ
    pub almacen : e.almacen.State
    pub conocido : buscar_file_tag e identificador s.memoria.file_tag_pages ≡ some ft
    pub vivo : file_tag_de ft.direccion s.memoria.file_tag_pages ≡ some ft
    pub partes : dos_primeros (e.string_split ft.identificador ":") ≡ some datos
    pub informado : e.almacen.info_file_tag datos s.almacen ≡ some (some size, almacen)
    pub tam : s.memoria.tam_pagina ≢ 0
    pub al_dia : size / s.memoria.tam_pagina ≡ length ft.tabla_paginas
    pub fuera : length ft.tabla_paginas < nro_pagina

  module _ (s : Estado e.almacen.State) (identificador : String) (nro_pagina : ℕ)
      (x : FueraDeLimite s identificador nro_pagina) where
    abbrev final : Estado e.almacen.State
    final = record s {
      memoria = record s.memoria {
        file_tag_pages =
            cambiar_file_tag x.ft.direccion (recortado (length x.ft.tabla_paginas))
              s.memoria.file_tag_pages;
      };
      almacen = x.almacen;
    }

    pagina_en_tabla-none : pagina_en_tabla e identificador nro_pagina s ≡ hecho none final
    unfolding pagina_en_tabla fuera_de_tabla leer_file_tag actualizar_tabla solicitar_metadata
        agregar_file_tag dividir recortar_tabla
    pagina_en_tabla-none =
        rw
          (
            file_tag_en_memoria-conocido e s identificador x.ft x.conocido,
            x.vivo,
            lt→ltb (length x.ft.tabla_paginas) nro_pagina x.fuera,
            x.vivo,
            x.partes,
            x.informado,
            ne→== s.memoria.tam_pagina 0 x.tam,
            x.al_dia,
            ltb_self (length x.ft.tabla_paginas),
            menos_si_mismo (length x.ft.tabla_paginas),
            file_tag_de-cambiar x.ft.direccion (recortado (length x.ft.tabla_paginas)) (λ _. refl)
                s.memoria.file_tag_pages x.ft x.vivo,
            take-length x.ft.tabla_paginas,
            lt→ltb (length x.ft.tabla_paginas) nro_pagina x.fuera,
          )
          refl

    -- A WRITE and a READ at an address whose page number is greater than the number of pages of the table,
    -- so that the first page behind the last is left out, where the storage still gives the size that
    -- the table has, do nothing to pages and frames and tell the master ERR_FUERA_LIMITE; the worker goes
    -- on.
    pub interpretar_write-FueraDeLimite :
        (i : Instruccion) (base dato : String)
        → i.datos ≡ identificador ∷ base ∷ dato ∷ []
        → e.atoi base / s.memoria.tam_pagina ≡ nro_pagina
        → (u : Memoria) × (interpretar_write e i s
            ≡ hecho tt (record s {
              memoria = u;
              almacen = x.almacen;
              avisos = error_at_exec err_fuera_limite ∷ s.avisos;
            }))
          × (interpretar_read e i s
              ≡ hecho tt (record s {
                memoria = u;
                almacen = x.almacen;
                avisos = error_at_exec err_fuera_limite ∷ s.avisos;
              }))
          × (u.paginas ≡ s.memoria.paginas)
          × (u.marco ≡ s.memoria.marco)
    unfolding interpretar_write interpretar_read dividir escribir_hallada leer_hallada
    interpretar_write-FueraDeLimite i base dato d n = (
      final.memoria,
      rw (d, ne→== s.memoria.tam_pagina 0 x.tam, n, pagina_en_tabla-none) refl,
      rw (d, ne→== s.memoria.tam_pagina 0 x.tam, n, pagina_en_tabla-none) refl,
      refl,
      refl,
    )
