-- ===== src/Worker/Pages.antt =====
-- worker/src/memoria.c: a page of a File:Tag is brought to the memory, written and read.
use Prim.Native.String.{String}
use tp_ssoo_2c.Base.{
  ℕ, zero, suc, ◌+◌, ◌-◌, ◌*◌, Bool, true, Option, none, some, List, [], ◌∷◌, ◌++◌, length,
  get_elem?, take, drop, ltb, leb, if◌then◌else◌,
}
use tp_ssoo_2c.Codes.{es_exitosa}
use tp_ssoo_2c.Worker.Machine.{
  Entorno, lectura_master, M, ◌>>=◌, ◌>>◌, pure, get, modificar, avisar, salir, o_fallo, preguntar,
  esperar_master,
}
use tp_ssoo_2c.Worker.Tables.{
  leer_file_tag, leer_nodo, cambiar_nodo, cambiar_file_tag, agregar_file_tag, file_tag_en_memoria,
  actualizar_tabla,
}
use tp_ssoo_2c.Worker.Evict.{algoritmo_reemplazo}
use tp_ssoo_2c.Worker.Frames.{
  ceil, pisar, marco_libre, leer_marco, cambiar_marco, bitarray_set_bit, interaccion_escritura,
  interaccion_lectura,
}

-- `cantidad_paginas++`.
unfoldable pub contar : {S : Type 0} → ℕ → M S (Unit {0})
unfolding cambiar_file_tag
contar a = modificar λ s. record s {
  file_tag_pages =
      cambiar_file_tag a (λ t. record t { cantidad_paginas = t.cantidad_paginas + 1 })
        s.file_tag_pages;
}

-- A block that the storage sends is copied to a frame; one that is longer than the frame would run
-- over the next one, where the model ends.
unfoldable pub copiar_bloque : {S : Type 0} → ℕ → List ℕ → M S (Unit {0})
unfolding leer_marco cambiar_marco pisar
copiar_bloque indice bloque = do
  m ← leer_marco (some indice)
  if leb (length bloque) (length m.puntero_marco)
      then cambiar_marco (some indice)
          (λ n. record n { puntero_marco = pisar 0 bloque n.puntero_marco })
      else o_fallo none

module _ (e : Entorno) where
  -- The frame that is free, or the one of a victim.
  unfoldable pub libre_o_victima : String → Option ℕ → M e.almacen.State ℕ
  unfolding algoritmo_reemplazo
  libre_o_victima identificador (some i) = pure i
  libre_o_victima identificador none = algoritmo_reemplazo e identificador

  unfoldable pub elegir_marco : String → M e.almacen.State ℕ
  unfolding libre_o_victima
  elegir_marco identificador = do s ← get; libre_o_victima identificador (marco_libre s)

  unfoldable pub solicitar_pagina : String → ℕ → M e.almacen.State ℕ
  unfolding file_tag_en_memoria agregar_file_tag elegir_marco bitarray_set_bit leer_file_tag
      cambiar_nodo copiar_bloque cambiar_marco contar
  solicitar_pagina identificador nro_pagina = do
    a ← file_tag_en_memoria e identificador
    datos ← agregar_file_tag e identificador
    rta ← preguntar (e.almacen.solicitud datos nro_pagina)
    (if es_exitosa rta.0 then pure tt else salir)
    indice ← elegir_marco identificador
    bitarray_set_bit indice
    ft ← leer_file_tag a
    pagina ← o_fallo (get_elem? ft.tabla_paginas nro_pagina)
    cambiar_nodo pagina λ p. record p { nro_marco = some indice; presencia = true }
    copiar_bloque indice rta.1
    cambiar_marco (some indice)
        λ m. record m { identificador = ft.identificador; pagina = some pagina }
    contar a
    pure pagina

  -- The page `nro_pagina` of the table of `*a`, in the memory.
  unfoldable pub presentar : ℕ → String → ℕ → M e.almacen.State ℕ
  unfolding leer_file_tag leer_nodo solicitar_pagina
  presentar a identificador nro_pagina = do
    ft ← leer_file_tag a
    pagina ← o_fallo (get_elem? ft.tabla_paginas nro_pagina)
    p ← leer_nodo pagina
    if p.presencia then pure pagina else solicitar_pagina identificador nro_pagina

  -- Whether the table of `*a` ends before page `nro_pagina`.
  unfoldable pub fuera_de_tabla : ℕ → ℕ → M e.almacen.State Bool
  unfolding leer_file_tag
  fuera_de_tabla a nro_pagina = do
    ft ← leer_file_tag a
    pure (ltb (length ft.tabla_paginas) nro_pagina)

  -- The NULL of a page outside of the table is `none`.
  unfoldable pub pagina_en_tabla : String → ℕ → M e.almacen.State (Option ℕ)
  unfolding file_tag_en_memoria fuera_de_tabla actualizar_tabla presentar
  pagina_en_tabla identificador nro_pagina = do
    a ← file_tag_en_memoria e identificador
    fuera ← fuera_de_tabla a nro_pagina
    (if fuera then actualizar_tabla e a else pure tt)
    sigue_fuera ← fuera_de_tabla a nro_pagina
    if sigue_fuera
        then pure none
        else (do pagina ← presentar a identificador nro_pagina; pure (some pagina))

  -- The `for` over the pages that follow the first: rounds left, the next page, and the data left.
  unfoldable pub escribir_resto : ℕ → String → ℕ → List ℕ → M e.almacen.State (Unit {0})
  unfolding pagina_en_tabla cambiar_nodo leer_nodo interaccion_escritura
  escribir_resto zero identificador pagina_siguiente datos = pure tt
  escribir_resto (suc n) identificador pagina_siguiente datos = do
    hallada ← pagina_en_tabla identificador pagina_siguiente
    a ← o_fallo hallada
    cambiar_nodo a λ p. record p { modificado = true; uso = true }
    extra ← leer_nodo a
    s ← get
    let bytes_escribir = if ltb (length datos) s.tam_pagina then length datos else s.tam_pagina
    interaccion_escritura e extra.nro_marco 0 (take bytes_escribir datos)
    escribir_resto n identificador (pagina_siguiente + 1) (drop bytes_escribir datos)

  unfoldable pub escribir_pagina : ℕ → String → ℕ → List ℕ → M e.almacen.State (Unit {0})
  unfolding leer_nodo leer_marco cambiar_nodo interaccion_escritura escribir_resto
  escribir_pagina a identificador direccion_base datos = do
    s ← get
    pagina ← leer_nodo a
    let direccion_en_pagina = direccion_base - s.tam_pagina * pagina.nro_pagina
    n_marco ← leer_marco pagina.nro_marco
    cambiar_nodo a λ p. record p { modificado = true; uso = true }
    let esp_libre = s.tam_pagina - direccion_en_pagina
    if leb (length datos) esp_libre
        then interaccion_escritura e pagina.nro_marco direccion_en_pagina datos
        else (do
          interaccion_escritura e pagina.nro_marco direccion_en_pagina (take esp_libre datos)
          escribir_resto (ceil (length datos) s.tam_pagina - 1) identificador
              (pagina.nro_pagina + 1) (drop esp_libre datos))

  -- The same for a read: rounds left, the next page, and how much is left; the bytes that were read.
  unfoldable pub leer_resto : ℕ → String → ℕ → ℕ → M e.almacen.State (List ℕ)
  unfolding pagina_en_tabla cambiar_nodo leer_nodo interaccion_lectura
  leer_resto zero identificador pagina_siguiente size_restante = pure []
  leer_resto (suc n) identificador pagina_siguiente size_restante = do
    hallada ← pagina_en_tabla identificador pagina_siguiente
    a ← o_fallo hallada
    cambiar_nodo a λ p. record p { uso = true }
    extra ← leer_nodo a
    s ← get
    let bytes_leer = if ltb size_restante s.tam_pagina then size_restante else s.tam_pagina
    leidos ← interaccion_lectura e extra.nro_marco 0 bytes_leer
    resto ← leer_resto n identificador (pagina_siguiente + 1) (size_restante - bytes_leer)
    pure (leidos ++ resto)

  -- The bytes that leer_pagina puts in `lectura`.
  unfoldable pub leer_bytes : ℕ → String → ℕ → ℕ → M e.almacen.State (List ℕ)
  unfolding leer_nodo cambiar_nodo interaccion_lectura leer_resto
  leer_bytes a identificador direccion size = do
    s ← get
    pagina ← leer_nodo a
    let direccion_en_pagina = direccion - s.tam_pagina * pagina.nro_pagina
    cambiar_nodo a λ p. record p { uso = true }
    let esp_lectura = s.tam_pagina - direccion_en_pagina
    if leb size esp_lectura
        then interaccion_lectura e pagina.nro_marco direccion_en_pagina size
        else (do
          leidos ← interaccion_lectura e pagina.nro_marco direccion_en_pagina esp_lectura
          resto ←
              leer_resto (ceil size s.tam_pagina - 1) identificador (pagina.nro_pagina + 1)
                (size - esp_lectura)
          pure (leidos ++ resto))

  -- What is not read keeps what the allocation held; the last byte is the NUL.
  unfoldable pub leer_pagina : ℕ → String → ℕ → ℕ → M e.almacen.State (Unit {0})
  unfolding leer_bytes pisar
  leer_pagina a identificador direccion size = do
    leidos ← leer_bytes a identificador direccion size
    avisar
        (lectura_master identificador (pisar size (0 ∷ []) (pisar 0 leidos (e.malloc (size + 1)))))
    result ← esperar_master e.resultado_lectura
    if result then pure tt else salir
