-- ===== src/Worker/Evict.antt =====
-- worker/src/algoritmos_reemplazo.c: a frame is taken from the page in it.
use Prim.Native.String.{String}
use tp_ssoo_2c.Base.{ℕ, ◌+◌, false, not, ◌&&◌, none, List, get_elem?, ◌==◌, if◌then◌else◌}
use tp_ssoo_2c.Codes.{RtaStorage, es_exitosa}
use tp_ssoo_2c.Worker.{NodoMarco}
use tp_ssoo_2c.Worker.Replacement.{mover_puntero_clock, victima_lru, victima_clock_m}
use tp_ssoo_2c.Worker.Machine.{
  Entorno, error_at_exec, M, ◌>>=◌, ◌>>◌, pure, get, modificar, avisar, o_fallo, preguntar,
}
use tp_ssoo_2c.Worker.Tables.{
  leer_file_tag, leer_nodo, cambiar_nodo, bitarray_clean_bit, descontar, agregar_file_tag,
  file_tag_en_memoria, free_file_tag,
}

abbrev pub notif_query_error : {S : Type 0} → RtaStorage → M S (Unit {0})
notif_query_error c_error = avisar (error_at_exec c_error)

-- The victim, through its frame: the address of its page.
abbrev pub pagina_de_marco : {S : Type 0} → NodoMarco → M S ℕ
pagina_de_marco m = o_fallo m.pagina

module _ (e : Entorno) where
  -- Page `a` goes to the storage with the bytes of its frame.
  unfoldable pub notificar_cambios : ℕ → String → List ℕ → M e.almacen.State (Unit {0})
  unfolding leer_nodo agregar_file_tag
  notificar_cambios a identificador p_marco = do
    ft ← agregar_file_tag e identificador
    victima ← leer_nodo a
    result ← preguntar (e.almacen.modificaciones ft victima.nro_pagina p_marco)
    if es_exitosa result then pure tt else notif_query_error result

  unfoldable pub actualizar_pagina : ℕ → M e.almacen.State ℕ
  unfolding leer_nodo cambiar_nodo bitarray_clean_bit
  actualizar_pagina a = do
    pagina ← leer_nodo a
    bitarray_clean_bit pagina.nro_marco
    cambiar_nodo a λ p. record p { presencia = false; modificado = false }
    o_fallo pagina.nro_marco

  unfoldable pub check_file_tag : String → String → M e.almacen.State (Unit {0})
  unfolding leer_file_tag descontar file_tag_en_memoria free_file_tag
  check_file_tag id_actual id_nuevo = do
    a ← file_tag_en_memoria e id_actual
    descontar a
    ft ← leer_file_tag a
    if (ft.cantidad_paginas == 0) && not (e.string_equals_ignore_case id_actual id_nuevo)
        then free_file_tag e ft
        else pure tt

  -- The page of a victim is written back where it was modified.
  unfoldable pub guardar_victima : ℕ → NodoMarco → M e.almacen.State (Unit {0})
  unfolding leer_nodo notificar_cambios
  guardar_victima a victima = do
    p ← leer_nodo a
    if p.modificado
        then notificar_cambios a victima.identificador victima.puntero_marco
        else pure tt

  unfoldable pub algoritmo_lru : String → M e.almacen.State ℕ
  unfolding victima_lru guardar_victima actualizar_pagina check_file_tag
  algoritmo_lru id_nueva_pagina = do
    s ← get
    victima ← o_fallo (victima_lru s.marco)
    a ← pagina_de_marco victima
    guardar_victima a victima
    nro_marco ← actualizar_pagina a
    check_file_tag victima.identificador id_nueva_pagina
    pure nro_marco

  unfoldable pub algoritmo_clock_m : String → M e.almacen.State ℕ
  unfolding victima_clock_m guardar_victima actualizar_pagina cambiar_nodo check_file_tag
      mover_puntero_clock
  algoritmo_clock_m id_nueva_pagina = do
    s ← get
    hallada ← o_fallo (victima_clock_m s)
    modificar λ _. hallada
    victima ← o_fallo (get_elem? hallada.marco hallada.victima_clock)
    a ← pagina_de_marco victima
    guardar_victima a victima
    nro_marco ← actualizar_pagina a
    cambiar_nodo a λ p. record p { uso = false }
    check_file_tag victima.identificador id_nueva_pagina
    modificar (mover_puntero_clock (nro_marco + 1))
    pure nro_marco

  -- `algoritmo_reemplazo` as worker/src/worker_init.c sets it; another name leaves it NULL.
  unfoldable pub algoritmo_reemplazo : String → M e.almacen.State ℕ
  unfolding algoritmo_lru algoritmo_clock_m
  algoritmo_reemplazo id_nueva_pagina =
      if e.string_equals_ignore_case e.algoritmo_reemplazo "LRU"
      then algoritmo_lru id_nueva_pagina
      else if e.string_equals_ignore_case e.algoritmo_reemplazo "CLOCK-M"
      then algoritmo_clock_m id_nueva_pagina
      else o_fallo none
