-- ===== src/Worker/Missing.antt =====
-- A File:Tag that the storage does not know, and a page behind the last one (worker/src/memoria.c).
use Prim.Native.String.{String}
use tp_ssoo_2c.Base.{ℕ, ◌≡◌, refl, false, none, some, length, get_elem?-none, ltb, arith}
use tp_ssoo_2c.Worker.{FileTag}
use tp_ssoo_2c.Worker.Machine.{Entorno, Estado, hecho, fallo}
use tp_ssoo_2c.Worker.Tables.{
  file_tag_de, leer_file_tag, dos_primeros, buscar_file_tag, direccion_o_agregar,
  file_tag_en_memoria,
}
use tp_ssoo_2c.Worker.Pages.{presentar, fuera_de_tabla, pagina_en_tabla}

pub ltb_self : (n : ℕ) → ltb n n ≡ false
ltb_self n = ground arith

module _ (e : Entorno) where
  pub file_tag_en_memoria-conocido :
      (s : Estado e.almacen.State) (identificador : String) (ft : FileTag)
      → buscar_file_tag e identificador s.memoria.file_tag_pages ≡ some ft
      → file_tag_en_memoria e identificador s ≡ hecho ft.direccion s
  unfolding file_tag_en_memoria direccion_o_agregar
  file_tag_en_memoria-conocido s identificador ft h = rw h refl

  -- The guard of pagina_en_Tabla lets the first number behind the last page through: where the table
  -- of a known File:Tag has as many pages as the number says, the worker uses a NULL.
  pub pagina_en_tabla_limite :
      (s : Estado e.almacen.State) (identificador : String) (ft : FileTag)
      → buscar_file_tag e identificador s.memoria.file_tag_pages ≡ some ft
      → file_tag_de ft.direccion s.memoria.file_tag_pages ≡ some ft
      → pagina_en_tabla e identificador (length ft.tabla_paginas) s ≡ fallo
  unfolding pagina_en_tabla fuera_de_tabla leer_file_tag presentar
  pagina_en_tabla_limite s identificador ft h k =
      rw
        (
          file_tag_en_memoria-conocido s identificador ft h,
          k,
          ltb_self (length ft.tabla_paginas),
          k,
          ltb_self (length ft.tabla_paginas),
          k,
          get_elem?-none ft.tabla_paginas (length ft.tabla_paginas) (omega arith),
        )
        refl

  -- The storage does not know the File:Tag, and neither does the worker.
  pub record Inexistente (s : Estado e.almacen.State) (identificador : String) : Type 0 where
    pub file_tag : String × String
    pub almacen : e.almacen.State
    pub partes : dos_primeros (e.string_split identificador ":") ≡ some file_tag
    pub desconocido : buscar_file_tag e identificador s.memoria.file_tag_pages ≡ none
    pub negado : e.almacen.info_file_tag file_tag s.almacen ≡ some (none, almacen)
