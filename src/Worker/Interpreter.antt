-- ===== src/Worker/Interpreter.antt =====
-- worker/src/interpreter.c: what each instruction of a query does.
use Prim.Native.String.{String}
use tp_ssoo_2c.Base.{
  Option, ℕ, ◌+◌, ◌/◌, ◌%◌, Bool, true, false, ◌&&◌, none, some, List, [], ◌∷◌, get_elem?, ◌==◌,
  if◌then◌else◌,
}
use tp_ssoo_2c.Codes.{
  RtaStorage, op_exitosa, not_def_err, err_fuera_limite, es_exitosa, SetInstrucciones, flush,
}
use tp_ssoo_2c.Storage.Server.{Paquete}
use tp_ssoo_2c.Worker.Machine.{
  Entorno, Aviso, instruccion_master, M, ◌>>=◌, ◌>>◌, pure, get, modificar, avisar, o_fallo,
  preguntar, esperar_master,
}
use tp_ssoo_2c.Worker.Tables.{
  leer_file_tag, leer_nodo, cambiar_nodo, bitarray_clean_bit, dividir, descontar, agregar_file_tag,
  buscar_file_tag, file_tag_en_memoria, quitar_file_tag, free_file_tag, actualizar_tabla,
}
use tp_ssoo_2c.Worker.Evict.{notif_query_error, notificar_cambios}
use tp_ssoo_2c.Worker.Frames.{leer_marco}
use tp_ssoo_2c.Worker.Pages.{pagina_en_tabla, escribir_pagina, leer_pagina}

pub record Instruccion : Type 0 where
  pub copi : SetInstrucciones
  pub identificador : String
  pub datos : List String

-- A result that the codes name; the others end in the query's error.
abbrev pub log_ejecucion : {S : Type 0} → RtaStorage → M S (Unit {0})
log_ejecucion resultado = if es_exitosa resultado then pure tt else notif_query_error resultado

-- A `resultado_t` as a number of `rta_storage`: OK is 0, ERROR is -1.
abbrev pub nro_resultado : Bool → RtaStorage
nro_resultado true = op_exitosa
nro_resultado false = not_def_err

abbrev pub dato : {S : Type 0} → Instruccion → ℕ → M S String
dato i n = o_fallo (get_elem? i.datos n)

-- The size that a TRUNCATE sends.
unfoldable pub size_de_truncate : ℕ → ℕ → ℕ
size_de_truncate size tam_pagina = if size % tam_pagina == 0 then size else size + size % tam_pagina

module _ (e : Entorno) where
  -- `size` and `destino` are what TRUNCATE and TAG add to the packet.
  unfoldable pub paquete_instruccion_storage :
      Instruccion → ℕ → String × String → M e.almacen.State Paquete
  unfolding agregar_file_tag
  paquete_instruccion_storage i size destino = do
    d ← dato i 0
    ft ← agregar_file_tag e d
    pure (record { copi = i.copi; file_tag = ft; size = size; destino = destino })

  unfoldable pub enviar_a_storage : Paquete → M e.almacen.State (Unit {0})
  enviar_a_storage paquete = do
    resultado ← preguntar (e.almacen.instruccion paquete)
    log_ejecucion resultado

  unfoldable pub enviar_a_master : Aviso → M e.almacen.State (Unit {0})
  enviar_a_master aviso = do
    avisar aviso
    resultado ← esperar_master e.resultado_fin
    log_ejecucion (nro_resultado resultado)

  unfoldable pub instruccion_simple_storage : Instruccion → M e.almacen.State (Unit {0})
  unfolding paquete_instruccion_storage enviar_a_storage
  instruccion_simple_storage i = do
    paquete ← paquete_instruccion_storage i 0 ("", "")
    enviar_a_storage paquete

  unfoldable pub interpretar_create : Instruccion → M e.almacen.State (Unit {0})
  unfolding instruccion_simple_storage
  interpretar_create = instruccion_simple_storage

  -- The pages of a table that are present and modified.
  unfoldable pub flush_paginas : String → List ℕ → M e.almacen.State (Unit {0})
  unfolding leer_nodo leer_marco notificar_cambios cambiar_nodo
  flush_paginas identificador [] = pure tt
  flush_paginas identificador (a ∷ tabla) = do
    pagina ← leer_nodo a
    (if pagina.modificado && pagina.presencia
        then (do
          n_marco ← leer_marco pagina.nro_marco
          notificar_cambios e a identificador n_marco.puntero_marco
          cambiar_nodo a λ p. record p { modificado = false })
        else pure tt)
    flush_paginas identificador tabla

  unfoldable pub flush_file_tag : String → M e.almacen.State (Unit {0})
  unfolding buscar_file_tag flush_paginas
  flush_file_tag identificador = do
    s ← get
    elim (buscar_file_tag e identificador s.file_tag_pages) [
      | none ↦ pure tt
      | some ft ↦ flush_paginas identificador ft.tabla_paginas
    ]

  unfoldable pub interpretar_flush : Instruccion → M e.almacen.State (Unit {0})
  unfolding flush_file_tag
  interpretar_flush i = do d ← dato i 0; flush_file_tag d

  unfoldable pub interpretar_commit : Instruccion → M e.almacen.State (Unit {0})
  unfolding interpretar_flush instruccion_simple_storage
  interpretar_commit i = do
    interpretar_flush (record { copi = flush; identificador = "FLUSH"; datos = i.datos })
    instruccion_simple_storage i

  -- The frames of a File:Tag are freed, until it counts no more pages.
  unfoldable pub liberar_marcos : ℕ → List ℕ → M e.almacen.State (Unit {0})
  unfolding leer_file_tag leer_nodo bitarray_clean_bit cambiar_nodo descontar
  liberar_marcos a [] = pure tt
  liberar_marcos a (pagina ∷ tabla) = do
    ft ← leer_file_tag a
    if ft.cantidad_paginas == 0 then pure tt else (do
      p ← leer_nodo pagina
      (if p.presencia
          then (do
            bitarray_clean_bit p.nro_marco
            cambiar_nodo pagina λ q. record q { presencia = false }
            descontar a)
          else pure tt)
      liberar_marcos a tabla)

  unfoldable pub olvidar_file_tag : String → M e.almacen.State (Unit {0})
  unfolding buscar_file_tag liberar_marcos leer_file_tag quitar_file_tag free_file_tag
  olvidar_file_tag identificador = do
    s ← get
    elim (buscar_file_tag e identificador s.file_tag_pages) [
      | none ↦ pure tt
      | some hallado ↦ (do
        liberar_marcos hallado.direccion hallado.tabla_paginas
        ft ← leer_file_tag hallado.direccion
        modificar
            λ t. record t { file_tag_pages = quitar_file_tag e identificador t.file_tag_pages }
        free_file_tag e ft)
    ]

  unfoldable pub interpretar_delete : Instruccion → M e.almacen.State (Unit {0})
  unfolding olvidar_file_tag instruccion_simple_storage
  interpretar_delete i = do d ← dato i 0; olvidar_file_tag d; instruccion_simple_storage i

  unfoldable pub interpretar_truncate : Instruccion → M e.almacen.State (Unit {0})
  unfolding dividir size_de_truncate paquete_instruccion_storage enviar_a_storage
      file_tag_en_memoria leer_file_tag actualizar_tabla
  interpretar_truncate i = do
    d ← dato i 1
    _ ← dividir (e.atoi d)
    s ← get
    let size = size_de_truncate (e.atoi d) s.tam_pagina
    paquete ← paquete_instruccion_storage i size ("", "")
    enviar_a_storage paquete
    identificador ← dato i 0
    a ← file_tag_en_memoria e identificador
    ft ← leer_file_tag a
    if size / s.tam_pagina == ft.cantidad_paginas then pure tt else actualizar_tabla e a

  unfoldable pub interpretar_tag : Instruccion → M e.almacen.State (Unit {0})
  unfolding paquete_instruccion_storage agregar_file_tag enviar_a_storage
  interpretar_tag i = do
    paquete ← paquete_instruccion_storage i 0 ("", "")
    d ← dato i 1
    destino ← agregar_file_tag e d
    enviar_a_storage (record paquete { destino = destino })

  -- The NULL of a page outside of the table is out of the limits of the file.
  unfoldable pub escribir_hallada : String → ℕ → List ℕ → Option ℕ → M e.almacen.State (Unit {0})
  unfolding escribir_pagina
  escribir_hallada identificador base contenido none = log_ejecucion err_fuera_limite
  escribir_hallada identificador base contenido (some pagina) = do
    escribir_pagina e pagina identificador base contenido
    log_ejecucion op_exitosa

  unfoldable pub interpretar_write : Instruccion → M e.almacen.State (Unit {0})
  unfolding dividir pagina_en_tabla escribir_hallada
  interpretar_write i = do
    identificador ← dato i 0
    base ← dato i 1
    contenido ← dato i 2
    nro_pagina ← dividir (e.atoi base)
    pagina ← pagina_en_tabla e identificador nro_pagina
    escribir_hallada identificador (e.atoi base) (e.bytes contenido) pagina

  unfoldable pub leer_hallada : String → ℕ → ℕ → Option ℕ → M e.almacen.State (Unit {0})
  unfolding leer_pagina
  leer_hallada identificador base size none = log_ejecucion err_fuera_limite
  leer_hallada identificador base size (some pagina) = do
    leer_pagina e pagina identificador base size
    log_ejecucion op_exitosa

  unfoldable pub interpretar_read : Instruccion → M e.almacen.State (Unit {0})
  unfolding dividir pagina_en_tabla leer_hallada
  interpretar_read i = do
    identificador ← dato i 0
    base ← dato i 1
    size ← dato i 2
    nro_pagina ← dividir (e.atoi base)
    pagina ← pagina_en_tabla e identificador nro_pagina
    leer_hallada identificador (e.atoi base) (e.atoi size) pagina

  unfoldable pub interpretar_end : Instruccion → M e.almacen.State (Unit {0})
  unfolding enviar_a_master
  interpretar_end i = enviar_a_master instruccion_master
