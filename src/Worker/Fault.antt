-- ===== src/Worker/Fault.antt =====
-- A page that is not in the memory is brought there (solicitar_pagina of worker/src/memoria.c).
use Prim.Native.String.{String}
use tp_ssoo_2c.Base.{
  ℕ, ◌+◌, ◌≡◌, ◌≢◌, ◌<◌, ◌≤◌, refl, ap, ◌∙◌, true, false, some, List, [], ◌∷◌, ◌++◌, length,
  get_elem?, set, drop, le→leb, get_elem?-set_self, get_elem?-set_ne, length-set, lt_of_get_elem?,
  append-nil, arith,
}
use tp_ssoo_2c.Codes.{op_exitosa}
use tp_ssoo_2c.Worker.{NodoPagina, FileTag, NodoMarco, Memoria, nodo}
use tp_ssoo_2c.Worker.Machine.{Entorno, Estado, hecho}
use tp_ssoo_2c.Worker.Tables.{
  file_tag_de, leer_file_tag, leer_nodo, cambiar_nodo, cambiar_file_tag, dos_primeros,
  agregar_file_tag, buscar_file_tag,
}
use tp_ssoo_2c.Worker.Ring.{nodo-set_self}
use tp_ssoo_2c.Worker.Missing.{file_tag_en_memoria-conocido}
use tp_ssoo_2c.Worker.Frames.{pisar, marco_libre, leer_marco, cambiar_marco, bitarray_set_bit}
use tp_ssoo_2c.Worker.Free.{Libre, marco_libre-Libre}
use tp_ssoo_2c.Worker.Pages.{contar, copiar_bloque, libre_o_victima, elegir_marco, solicitar_pagina}

drop-length : (xs : List ℕ) → drop (length xs) xs ≡ []
drop-length [] = refl
drop-length (x ∷ xs) = drop-length xs

-- A block of the size of its frame takes it whole.
pisar-entero :
    (bloque destino : List ℕ) → length bloque ≡ length destino → pisar 0 bloque destino ≡ bloque
unfolding pisar
pisar-entero bloque destino h =
    ap (λ n. bloque ++ drop n destino) (omega (arith, h))
    ∙ ap (λ r. bloque ++ r) (drop-length destino)
    ∙ append-nil bloque

module _ (e : Entorno) where
  -- A page of a known File:Tag, which the storage sends, and a free frame of its size.
  pub record Falta (s : Estado e.almacen.State) (identificador : String) (nro_pagina : ℕ)
      : Type 0 where
    pub ft : FileTag
    pub datos : String × String
    pub bloque : List ℕ
    pub almacen : e.almacen.State
    pub indice : ℕ
    pub marco : NodoMarco
    pub direccion : ℕ
    pub pagina : NodoPagina
    pub conocido : buscar_file_tag e identificador s.memoria.file_tag_pages ≡ some ft
    pub vivo : file_tag_de ft.direccion s.memoria.file_tag_pages ≡ some ft
    pub partes : dos_primeros (e.string_split identificador ":") ≡ some datos
    pub enviado :
        e.almacen.solicitud datos nro_pagina s.almacen ≡ some ((op_exitosa, bloque), almacen)
    pub bits : length s.memoria.marco ≤ length s.memoria.bit_map
    pub libre : marco_libre s.memoria ≡ some indice
    pub es_marco : get_elem? s.memoria.marco indice ≡ some marco
    pub entero : length bloque ≡ length marco.puntero_marco
    pub en_tabla : get_elem? ft.tabla_paginas nro_pagina ≡ some direccion
    pub es_nodo : nodo s.memoria.paginas direccion ≡ some pagina

  module _ (s : Estado e.almacen.State) (identificador : String) (nro_pagina : ℕ)
      (f : Falta s identificador nro_pagina) where
    abbrev presente : NodoPagina
    presente = record f.pagina { nro_marco = some f.indice; presencia = true }

    abbrev lleno : NodoMarco
    lleno = record f.marco {
      identificador = f.ft.identificador;
      puntero_marco = f.bloque;
      pagina = some f.direccion;
    }

    -- The frame with the block, before and behind the change of its pointer.
    abbrev copiado : NodoMarco
    copiado = record f.marco { puntero_marco = pisar 0 f.bloque f.marco.puntero_marco }

    abbrev final : NodoMarco
    final = record copiado { identificador = f.ft.identificador; pagina = some f.direccion }

    -- The memory behind the fault.
    abbrev cargado : Memoria
    cargado = record s.memoria {
      marco = set (set s.memoria.marco f.indice copiado) f.indice final;
      paginas = set s.memoria.paginas f.direccion (some presente);
      bit_map = set s.memoria.bit_map f.indice true;
      file_tag_pages =
          cambiar_file_tag f.ft.direccion
            (λ t. record t { cantidad_paginas = t.cantidad_paginas + 1 }) s.memoria.file_tag_pages;
    }

    solicitar_pagina-cargado :
        solicitar_pagina e identificador nro_pagina s
        ≡ hecho f.direccion (record s { memoria = cargado; almacen = f.almacen })
    unfolding solicitar_pagina agregar_file_tag elegir_marco libre_o_victima bitarray_set_bit
        leer_file_tag leer_nodo cambiar_nodo copiar_bloque leer_marco cambiar_marco contar
    solicitar_pagina-cargado =
        rw
          (
            file_tag_en_memoria-conocido e s identificador f.ft f.conocido,
            f.partes,
            f.enviado,
            f.libre,
            f.vivo,
            f.en_tabla,
            f.es_nodo,
            f.es_marco,
            le→leb (length f.bloque) (length f.marco.puntero_marco) (omega (arith, f.entero)),
            f.es_marco,
            get_elem?-set_self s.memoria.marco f.indice copiado
                (lt_of_get_elem? s.memoria.marco f.indice f.marco f.es_marco),
          )
          refl

    -- The bit of the frame was free, and those below it were not.
    el_menor :
        (get_elem? s.memoria.bit_map f.indice ≡ some false)
        × ((l : ℕ) → l < f.indice → get_elem? s.memoria.bit_map l ≡ some true)
    unfolding Libre
    el_menor =
        let m : Libre 0 (length s.memoria.marco) s.memoria.bit_map (some f.indice) =
          rw f.libre at (marco_libre-Libre s.memoria f.bits) in
        let (j, k, n, b, menores) = m in
        let e : j ≡ f.indice = omega arith in (rw (← e) b, λ l h. menores l (omega arith))

    -- A page fault, where the worker knows the File:Tag, the storage sends the page, the bitmap has a
    -- bit for each frame and marco_libre finds a frame, ends with the page: it is marked as present in
    -- that frame, which has the block of the storage and points to the page. The bit of that frame was
    -- clear and all lower ones were set; it is set now, and other frames and bits are as they were.
    pub solicitar_pagina-presente :
        (u : Memoria) × (solicitar_pagina e identificador nro_pagina s
          ≡ hecho f.direccion (record s { memoria = u; almacen = f.almacen }))
        × (nodo u.paginas f.direccion ≡ some presente)
        × (get_elem? u.marco f.indice ≡ some lleno)
        × (get_elem? s.memoria.bit_map f.indice ≡ some false)
        × ((l : ℕ) → l < f.indice → get_elem? s.memoria.bit_map l ≡ some true)
        × (u.bit_map ≡ set s.memoria.bit_map f.indice true)
        × ((j : ℕ) → f.indice ≢ j → get_elem? u.marco j ≡ get_elem? s.memoria.marco j)
    solicitar_pagina-presente =
        let lt = lt_of_get_elem? s.memoria.marco f.indice f.marco f.es_marco in
        (
          cargado,
          solicitar_pagina-cargado,
          nodo-set_self s.memoria.paginas f.direccion f.pagina presente f.es_nodo,
          get_elem?-set_self (set s.memoria.marco f.indice copiado) f.indice final
                (omega (arith, length-set s.memoria.marco f.indice copiado, lt))
              ∙ ap (λ bytes. some (record final { puntero_marco = bytes }))
                  (pisar-entero f.bloque f.marco.puntero_marco f.entero),
          el_menor.0,
          el_menor.1,
          refl,
          λ j k.
              get_elem?-set_ne (set s.memoria.marco f.indice copiado) f.indice j final k
              ∙ get_elem?-set_ne s.memoria.marco f.indice j copiado k,
        )
