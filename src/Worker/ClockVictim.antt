-- ===== src/Worker/ClockVictim.antt =====
-- What an eviction by CLOCK-M (algoritmo_CLOCK_M of worker/src/algoritmos_reemplazo.c) leaves.
use Prim.Native.String.{String}
use tp_ssoo_2c.Base.{◌+◌, ◌≡◌, refl, false, some, List, length, get_elem?, set, ◌==◌, if◌then◌else◌}
use tp_ssoo_2c.Worker.{NodoPagina, NodoMarco, Memoria, nodo}
use tp_ssoo_2c.Worker.Replacement.{victima_clock_m, mover_puntero_clock}
use tp_ssoo_2c.Worker.Machine.{Entorno, Estado, hecho, Aviso}
use tp_ssoo_2c.Worker.Tables.{leer_nodo, cambiar_nodo}
use tp_ssoo_2c.Worker.Evict.{guardar_victima, algoritmo_clock_m}
use tp_ssoo_2c.Worker.Notify.{Contesta}
use tp_ssoo_2c.Worker.Ring.{nodo-set_self}
use tp_ssoo_2c.Worker.Victim.{
  Guardada, Expulsable, contada, check_file_tag-quedan, expulsada, libre, actualizar_pagina-libre,
  guardar-Expulsable,
}

module _ (e : Entorno) (s : Estado e.almacen.State) (id_nueva_pagina : String) (hallada : Memoria)
    (victima : NodoMarco) (elegida : victima_clock_m s.memoria ≡ some hallada)
    (es_marco : get_elem? hallada.marco hallada.victima_clock ≡ some victima)
    (x : Expulsable e hallada victima) where
  -- The state with the pointer at the victim.
  abbrev en_victima : Estado e.almacen.State
  en_victima = record s { memoria = hallada }

  abbrev sin_uso : NodoPagina
  sin_uso = record x.pagina { presencia = false; modificado = false; uso = false }

  abbrev quitada : Memoria
  quitada = record hallada {
    bit_map = set hallada.bit_map x.indice false;
    paginas =
        set (set hallada.paginas x.direccion (some (expulsada e en_victima victima x))) x.direccion
          (some sin_uso);
  }

  expulsada-nodo :
      nodo (set hallada.paginas x.direccion (some (expulsada e en_victima victima x))) x.direccion
      ≡ some (expulsada e en_victima victima x)
  expulsada-nodo =
      nodo-set_self hallada.paginas x.direccion x.pagina (expulsada e en_victima victima x)
        x.es_nodo

  quitar :
      (t : e.almacen.State) (avisos : List Aviso)
      → cambiar_nodo x.direccion
          (λ p. record p { uso = false })
          (record s { memoria = libre e en_victima victima x; almacen = t; avisos = avisos })
        ≡ hecho tt (record s { memoria = quitada; almacen = t; avisos = avisos })
  unfolding cambiar_nodo leer_nodo
  quitar t avisos = rw expulsada-nodo refl

  algoritmo_clock_m-final :
      (t : e.almacen.State) (avisos : List Aviso)
      → guardar_victima e x.direccion victima en_victima
        ≡ hecho tt (record en_victima { almacen = t; avisos = avisos })
      → algoritmo_clock_m e id_nueva_pagina s
        ≡ hecho x.indice (record s {
          memoria = mover_puntero_clock (x.indice + 1) (contada e x.ft quitada);
          almacen = t;
          avisos = avisos;
        })
  unfolding algoritmo_clock_m
  algoritmo_clock_m-final t avisos h =
      rw
        (
          elegida,
          es_marco,
          x.es_pagina,
          h,
          actualizar_pagina-libre e en_victima victima x t avisos,
          quitar t avisos,
          check_file_tag-quedan e (record s { memoria = quitada; almacen = t; avisos = avisos })
              x.ft victima.identificador id_nueva_pagina x.conocido x.vivo x.quedan,
        )
        refl

  -- An eviction by CLOCK-M of a page of a File:Tag that counts more than this page, with the pointer at the
  -- victim behind the search, ends with the frame of the victim. The frame went to the storage where the
  -- page was modified, and nothing was sent otherwise; the page is neither present, modified nor in use,
  -- its bit is free, and the pointer is at the next frame, the first one behind the last.
  pub algoritmo_clock_m-Guardada :
      Contesta e
      → (u : Memoria) × (t : e.almacen.State) × (avisos : List Aviso) × (algoritmo_clock_m e
            id_nueva_pagina s
          ≡ hecho x.indice (record s { memoria = u; almacen = t; avisos = avisos }))
        × Guardada e x.pagina x.datos victima.puntero_marco s.almacen t
        × (nodo u.paginas x.direccion ≡ some sin_uso)
        × (u.bit_map ≡ set hallada.bit_map x.indice false)
        × (u.victima_clock ≡ (if x.indice + 1 == length hallada.marco then 0 else x.indice + 1))
        × (u.marco ≡ hallada.marco)
  unfolding mover_puntero_clock
  algoritmo_clock_m-Guardada c =
      let (t, avisos, eq, guardada) = guardar-Expulsable e en_victima victima x c in
      (
        mover_puntero_clock (x.indice + 1) (contada e x.ft quitada),
        t,
        avisos,
        algoritmo_clock_m-final t avisos eq,
        guardada,
        nodo-set_self (set hallada.paginas x.direccion (some (expulsada e en_victima victima x)))
            x.direccion (expulsada e en_victima victima x) sin_uso expulsada-nodo,
        refl,
        refl,
        refl,
      )
