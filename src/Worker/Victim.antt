-- ===== src/Worker/Victim.antt =====
-- What an eviction leaves, by LRU here (algoritmo_LRU of worker/src/algoritmos_reemplazo.c) leaves.
use Prim.Native.String.{String}
use tp_ssoo_2c.Base.{
  ℕ, ◌-◌, ◌<◌, ◌≡◌, ◌⊎◌, inl, inr, refl, true, false, some, List, set, ne→==, Bool-cases, arith,
}
use tp_ssoo_2c.Codes.{RtaStorage}
use tp_ssoo_2c.Worker.{NodoPagina, FileTag, NodoMarco, Memoria, nodo}
use tp_ssoo_2c.Worker.Replacement.{victima_lru}
use tp_ssoo_2c.Worker.Machine.{Entorno, Estado, hecho, Aviso}
use tp_ssoo_2c.Worker.Tables.{
  file_tag_de, cambiar_file_tag, leer_file_tag, leer_nodo, cambiar_nodo, bitarray_clean_bit,
  descontar, dos_primeros, buscar_file_tag,
}
use tp_ssoo_2c.Worker.Evict.{guardar_victima, actualizar_pagina, check_file_tag, algoritmo_lru}
use tp_ssoo_2c.Worker.Notify.{Contesta, notificar_cambios-hecho}
use tp_ssoo_2c.Worker.Ring.{nodo-set_self}
use tp_ssoo_2c.Worker.TagTable.{file_tag_de-cambiar}
use tp_ssoo_2c.Worker.Missing.{file_tag_en_memoria-conocido}

abbrev descontado : FileTag → FileTag
descontado t = record t { cantidad_paginas = t.cantidad_paginas - 1 }

module _ (e : Entorno) where
  -- What was sent for a victim: its frame where the page was modified, and nothing else.
  unfoldable pub Guardada :
      NodoPagina → String × String → List ℕ → e.almacen.State → e.almacen.State → Type 0
  Guardada p datos bytes s t =
      ((p.modificado ≡ true)
        × (r : RtaStorage) × (e.almacen.modificaciones datos p.nro_pagina bytes s ≡ some (r, t)))
      ⊎ ((p.modificado ≡ false) × (t ≡ s))

  guardar_victima-Guardada :
      (a : ℕ) (v : NodoMarco) (datos : String × String) (s : Estado e.almacen.State)
      (p : NodoPagina)
      → Contesta e
      → dos_primeros (e.string_split v.identificador ":") ≡ some datos
      → nodo s.memoria.paginas a ≡ some p
      → (t : e.almacen.State) × (avisos : List Aviso) × (guardar_victima e a v s
          ≡ hecho tt (record s { almacen = t; avisos = avisos }))
        × Guardada p datos v.puntero_marco s.almacen t
  unfolding Guardada guardar_victima leer_nodo
  guardar_victima-Guardada a v datos s p c d h = elim (Bool-cases p.modificado) [
    | inl m ↦
        let (r, t, avisos, enviada, eq) =
          notificar_cambios-hecho e a v.identificador datos v.puntero_marco s p c d h in
        (t, avisos, rw (h, m) eq, inl (m, r, enviada))
    | inr n ↦ (s.almacen, s.avisos, rw (h, n) refl, inr (n, refl))
  ]

  -- The page in the frame of a victim, of a File:Tag that counts more pages than this one.
  pub record Expulsable (s : Memoria) (victima : NodoMarco) : Type 0 where
    pub direccion : ℕ
    pub pagina : NodoPagina
    pub indice : ℕ
    pub datos : String × String
    pub ft : FileTag
    pub es_pagina : victima.pagina ≡ some direccion
    pub es_nodo : nodo s.paginas direccion ≡ some pagina
    pub es_indice : pagina.nro_marco ≡ some indice
    pub partes : dos_primeros (e.string_split victima.identificador ":") ≡ some datos
    pub conocido : buscar_file_tag e victima.identificador s.file_tag_pages ≡ some ft
    pub vivo : file_tag_de ft.direccion s.file_tag_pages ≡ some ft
    pub quedan : 1 < ft.cantidad_paginas

  -- The `file_tag` counts one page less, and stays.
  abbrev pub contada : FileTag → Memoria → Memoria
  contada ft s = record s {
    file_tag_pages = cambiar_file_tag ft.direccion descontado s.file_tag_pages;
  }

  pub check_file_tag-quedan :
      (t : Estado e.almacen.State) (ft : FileTag) (id_actual id_nuevo : String)
      → buscar_file_tag e id_actual t.memoria.file_tag_pages ≡ some ft
      → file_tag_de ft.direccion t.memoria.file_tag_pages ≡ some ft
      → 1 < ft.cantidad_paginas
      → check_file_tag e id_actual id_nuevo t
        ≡ hecho tt (record t { memoria = contada ft t.memoria })
  unfolding check_file_tag leer_file_tag descontar
  check_file_tag-quedan t ft id_actual id_nuevo h k q =
      rw
        (
          file_tag_en_memoria-conocido e t id_actual ft h,
          k,
          ne→== ft.cantidad_paginas 0 (omega (arith, q)),
          file_tag_de-cambiar ft.direccion descontado (λ _. refl) t.memoria.file_tag_pages ft k,
          ne→== (ft.cantidad_paginas - 1) 0 (omega (arith, q)),
        )
        refl

  module _ (s : Estado e.almacen.State) (victima : NodoMarco)
      (x : Expulsable s.memoria victima) where
    abbrev pub expulsada : NodoPagina
    expulsada = record x.pagina { presencia = false; modificado = false }

    abbrev pub libre : Memoria
    libre = record s.memoria {
      bit_map = set s.memoria.bit_map x.indice false;
      paginas = set s.memoria.paginas x.direccion (some expulsada);
    }

    pub actualizar_pagina-libre :
        (t : e.almacen.State) (avisos : List Aviso)
        → actualizar_pagina e x.direccion (record s { almacen = t; avisos = avisos })
          ≡ hecho x.indice (record s { memoria = libre; almacen = t; avisos = avisos })
    unfolding actualizar_pagina leer_nodo cambiar_nodo bitarray_clean_bit
    actualizar_pagina-libre t avisos = rw (x.es_nodo, x.es_indice, x.es_nodo, x.es_indice) refl

    pub guardar-Expulsable :
        Contesta e
        → (t : e.almacen.State) × (avisos : List Aviso) × (guardar_victima e x.direccion victima s
            ≡ hecho tt (record s { almacen = t; avisos = avisos }))
          × Guardada x.pagina x.datos victima.puntero_marco s.almacen t
    guardar-Expulsable c =
        guardar_victima-Guardada x.direccion victima x.datos s x.pagina c x.partes x.es_nodo

  module _ (s : Estado e.almacen.State) (id_nueva_pagina : String) (victima : NodoMarco)
      (elegida : victima_lru s.memoria.marco ≡ some victima)
      (x : Expulsable s.memoria victima) where
    algoritmo_lru-final :
        (t : e.almacen.State) (avisos : List Aviso)
        → guardar_victima e x.direccion victima s
          ≡ hecho tt (record s { almacen = t; avisos = avisos })
        → algoritmo_lru e id_nueva_pagina s
          ≡ hecho x.indice (record s {
            memoria = contada x.ft (libre s victima x);
            almacen = t;
            avisos = avisos;
          })
    unfolding algoritmo_lru
    algoritmo_lru-final t avisos h =
        rw
          (
            elegida,
            x.es_pagina,
            h,
            actualizar_pagina-libre s victima x t avisos,
            check_file_tag-quedan
                (record s { memoria = libre s victima x; almacen = t; avisos = avisos }) x.ft
                victima.identificador id_nueva_pagina x.conocido x.vivo x.quedan,
          )
          refl

    -- An eviction by LRU of a page of a File:Tag that counts more than this page ends with the frame of
    -- the victim. The frame went to the storage where the page was modified, and nothing was sent
    -- otherwise; the page is neither present nor modified any more, its bit is free, and the frames are
    -- as they were.
    pub algoritmo_lru-Guardada :
        Contesta e
        → (u : Memoria) × (t : e.almacen.State) × (avisos : List Aviso) × (algoritmo_lru e
              id_nueva_pagina s
            ≡ hecho x.indice (record s { memoria = u; almacen = t; avisos = avisos }))
          × Guardada x.pagina x.datos victima.puntero_marco s.almacen t
          × (nodo u.paginas x.direccion
              ≡ some (record x.pagina { presencia = false; modificado = false }))
          × (u.bit_map ≡ set s.memoria.bit_map x.indice false)
          × (u.marco ≡ s.memoria.marco)
    algoritmo_lru-Guardada c =
        let (t, avisos, eq, guardada) = guardar-Expulsable s victima x c in
        (
          contada x.ft (libre s victima x),
          t,
          avisos,
          algoritmo_lru-final t avisos eq,
          guardada,
          nodo-set_self s.memoria.paginas x.direccion x.pagina (expulsada s victima x) x.es_nodo,
          refl,
          refl,
        )
