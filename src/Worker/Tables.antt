-- ===== src/Worker/Tables.antt =====
-- worker/src/memoria.c: the tables of pages, one for each File:Tag that the worker knows.
use Prim.Native.String.{String}
use tp_ssoo_2c.Base.{
  ℕ, zero, suc, ◌+◌, ◌-◌, ◌/◌, false, Option, none, some, List, [], ◌∷◌, ◌++◌, length, get_elem?,
  set, take, ltb, ◌==◌, if◌then◌else◌,
}
use tp_ssoo_2c.Worker.{NodoPagina, FileTag, nodo}
use tp_ssoo_2c.Worker.Machine.{
  Entorno, M, ◌>>=◌, ◌>>◌, pure, get, modificar, salir, o_salir, o_fallo, preguntar,
}

abbrev pub generar_nodo_pagina : ℕ → NodoPagina
generar_nodo_pagina nro_pagina = record {
  nro_pagina = nro_pagina;
  nro_marco = none;
  presencia = false;
  modificado = false;
  uso = false;
}

-- The nodes for the pages from `i`, and the pointers to them from `a`.
unfoldable pub generar_nodos : ℕ → ℕ → List (Option NodoPagina)
generar_nodos i zero = []
generar_nodos i (suc n) = some (generar_nodo_pagina i) ∷ generar_nodos (i + 1) n

unfoldable pub punteros : ℕ → ℕ → List ℕ
punteros a zero = []
punteros a (suc n) = a ∷ punteros (a + 1) n

-- A `file_tag` by its pointer.
unfoldable pub file_tag_de : ℕ → List FileTag → Option FileTag
file_tag_de a [] = none
file_tag_de a (ft ∷ fts) = if ft.direccion == a then some ft else file_tag_de a fts

unfoldable pub cambiar_file_tag : ℕ → (FileTag → FileTag) → List FileTag → List FileTag
cambiar_file_tag a f [] = []
cambiar_file_tag a f (ft ∷ fts) =
    if ft.direccion == a then f ft ∷ fts else ft ∷ cambiar_file_tag a f fts

module _ {S : Type 0} where
  unfoldable pub leer_file_tag : ℕ → M S FileTag
  leer_file_tag a = do s ← get; o_fallo (file_tag_de a s.file_tag_pages)

  unfoldable pub leer_nodo : ℕ → M S NodoPagina
  leer_nodo a = do s ← get; o_fallo (nodo s.paginas a)

  -- A field of `*a` is assigned.
  unfoldable pub cambiar_nodo : ℕ → (NodoPagina → NodoPagina) → M S (Unit {0})
  unfolding leer_nodo
  cambiar_nodo a f = do
    p ← leer_nodo a
    modificar λ s. record s { paginas = set s.paginas a (some (f p)) }

  unfoldable pub free_nodo : ℕ → M S (Unit {0})
  unfolding leer_nodo
  free_nodo a = do p ← leer_nodo a; modificar λ s. record s { paginas = set s.paginas a none }

  unfoldable pub free_nodos : List ℕ → M S (Unit {0})
  unfolding free_nodo
  free_nodos [] = pure tt
  free_nodos (a ∷ resto) = do free_nodo a; free_nodos resto

  unfoldable pub bitarray_clean_bit : Option ℕ → M S (Unit {0})
  bitarray_clean_bit none = o_fallo none
  bitarray_clean_bit (some i) = modificar λ s. record s { bit_map = set s.bit_map i false }

  -- Division by a `tam_pagina` of 0 faults.
  unfoldable pub dividir : ℕ → M S ℕ
  dividir n = do s ← get; if s.tam_pagina == 0 then o_fallo none else pure (n / s.tam_pagina)

  -- `cantidad_paginas--` of a count that is positive; the model ends where it is not.
  unfoldable pub descontar : ℕ → M S (Unit {0})
  unfolding leer_file_tag
  descontar a = do
    ft ← leer_file_tag a
    if ft.cantidad_paginas == 0
        then o_fallo none
        else modificar λ s. record s {
          file_tag_pages =
              cambiar_file_tag a (λ t. record t { cantidad_paginas = t.cantidad_paginas - 1 })
                s.file_tag_pages;
        }

abbrev pub dos_primeros : List String → Option (String × String)
dos_primeros (f ∷ t ∷ _) = some (f, t)
dos_primeros _ = none

module _ (e : Entorno) where
  -- The two parts of an identifier, which agregar_file_tag puts in a packet.
  unfoldable pub agregar_file_tag : String → M e.almacen.State (String × String)
  agregar_file_tag identificador = o_fallo (dos_primeros (e.string_split identificador ":"))

  unfoldable pub solicitar_metadata : String → M e.almacen.State ℕ
  unfolding agregar_file_tag
  solicitar_metadata identificador = do
    ft ← agregar_file_tag identificador
    size_ft ← preguntar (e.almacen.info_file_tag ft)
    o_salir size_ft

  unfoldable pub agregar_file_tag_en_memoria : String → M e.almacen.State ℕ
  unfolding solicitar_metadata dividir
  agregar_file_tag_en_memoria identificador = do
    size_ft ← solicitar_metadata identificador
    cantidad ← dividir size_ft
    s ← get
    modificar λ t. record t {
      paginas = t.paginas ++ generar_nodos 0 cantidad;
      asignados = t.asignados + 1;
      file_tag_pages =
          t.file_tag_pages
          ++ record {
            direccion = t.asignados;
            identificador = identificador;
            cantidad_paginas = cantidad;
            tabla_paginas = punteros (length t.paginas) cantidad;
          }
            ∷ [];
    }
    pure s.asignados

  unfoldable pub buscar_file_tag : String → List FileTag → Option FileTag
  buscar_file_tag identificador [] = none
  buscar_file_tag identificador (ft ∷ fts) =
      if e.string_equals_ignore_case ft.identificador identificador
      then some ft
      else buscar_file_tag identificador fts

  -- A pointer to the `file_tag` that was found; one that was not is asked for and added.
  unfoldable pub direccion_o_agregar : String → Option FileTag → M e.almacen.State ℕ
  unfolding agregar_file_tag_en_memoria
  direccion_o_agregar identificador (some ft) = pure ft.direccion
  direccion_o_agregar identificador none = agregar_file_tag_en_memoria identificador

  unfoldable pub file_tag_en_memoria : String → M e.almacen.State ℕ
  unfolding direccion_o_agregar
  file_tag_en_memoria identificador = do
    s ← get
    direccion_o_agregar identificador (buscar_file_tag identificador s.file_tag_pages)

  unfoldable pub quitar_file_tag : String → List FileTag → List FileTag
  quitar_file_tag identificador [] = []
  quitar_file_tag identificador (ft ∷ fts) =
      if e.string_equals_ignore_case ft.identificador identificador
      then fts
      else ft ∷ quitar_file_tag identificador fts

  unfoldable pub free_file_tag : FileTag → M e.almacen.State (Unit {0})
  unfolding quitar_file_tag free_nodos
  free_file_tag ft = do
    modificar λ s. record s { file_tag_pages = quitar_file_tag ft.identificador s.file_tag_pages }
    free_nodos ft.tabla_paginas

  -- The `for` of actualizar_tabla that takes pages off the end: rounds left, and the table. A page that
  -- is present is freed, and read afterwards for the log, which is a fault.
  unfoldable pub recortar_tabla : ℕ → ℕ → List ℕ → M e.almacen.State (Unit {0})
  recortar_tabla ft zero tabla = pure tt
  recortar_tabla ft (suc n) tabla = do
    let nro_entrada = length tabla - 1
    a ← o_fallo (get_elem? tabla nro_entrada)
    node_pg ← leer_nodo a
    (if node_pg.presencia
        then (if node_pg.modificado then salir else (do
          bitarray_clean_bit node_pg.nro_marco
          free_nodo a
          liberada ← leer_nodo a
          descontar ft))
        else pure tt)
    recortar_tabla ft n (take nro_entrada tabla)

  unfoldable pub actualizar_tabla : ℕ → M e.almacen.State (Unit {0})
  unfolding recortar_tabla
  actualizar_tabla a = do
    ft ← leer_file_tag a
    size ← solicitar_metadata ft.identificador
    new_cant_paginas ← dividir size
    let old_cant_paginas = length ft.tabla_paginas
    if ltb old_cant_paginas new_cant_paginas
        then modificar (λ s. record s {
          paginas =
              s.paginas ++ generar_nodos old_cant_paginas (new_cant_paginas - old_cant_paginas);
          file_tag_pages =
              cambiar_file_tag a
                (λ t. record t {
                  tabla_paginas =
                      t.tabla_paginas
                      ++ punteros (length s.paginas) (new_cant_paginas - old_cant_paginas);
                })
                s.file_tag_pages;
        })
        else (do
          recortar_tabla a (old_cant_paginas - new_cant_paginas) ft.tabla_paginas
          modificar λ s. record s {
            file_tag_pages =
                cambiar_file_tag a
                  (λ t. record t { tabla_paginas = take new_cant_paginas t.tabla_paginas })
                  s.file_tag_pages;
          })
