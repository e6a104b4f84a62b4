-- ===== src/Worker/WriteRead.antt =====
-- What is written to a page is read from it (escribir_pagina and leer_pagina of worker/src/memoria.c).
use Prim.Native.String.{String}
use tp_ssoo_2c.Base.{
  ℕ, ◌+◌, ◌-◌, ◌*◌, ◌≤◌, ◌≡◌, ◌≢◌, ap, ◌∙◌, true, some, List, length, get_elem?, set, take, drop,
  leb, le→leb, arith,
}
use tp_ssoo_2c.Worker.{NodoPagina, NodoMarco, Memoria, nodo}
use tp_ssoo_2c.Worker.Machine.{Entorno, Estado, hecho}
use tp_ssoo_2c.Worker.Tables.{leer_nodo, cambiar_nodo}
use tp_ssoo_2c.Worker.Frames.{pisar, leer_marco, interaccion_escritura, interaccion_lectura}
use tp_ssoo_2c.Worker.Touch.{
  Toque, interaccion_escritura-Toque, interaccion_lectura-Toque, leer-pisar,
}
use tp_ssoo_2c.Worker.Ring.{nodo-set_self}
use tp_ssoo_2c.Worker.Pages.{escribir_pagina, leer_bytes}

abbrev en_pagina : Memoria → NodoPagina → ℕ → ℕ
en_pagina s p base = base - s.tam_pagina * p.nro_pagina

-- `n` bytes from the address `base` lie in the page `*a`, which is in the memory.
pub record Lugar (s : Memoria) (a base n : ℕ) : Type 0 where
  pub pagina : NodoPagina
  pub indice : ℕ
  pub marco : NodoMarco
  pub es_nodo : nodo s.paginas a ≡ some pagina
  pub es_indice : pagina.nro_marco ≡ some indice
  pub es_marco : get_elem? s.marco indice ≡ some marco
  pub entero : length marco.puntero_marco ≡ s.tam_pagina
  pub hasta : en_pagina s pagina base + n ≤ s.tam_pagina

module _ (e : Entorno) (s : Estado e.almacen.State) (a base : ℕ) (identificador : String)
    (datos : List ℕ) (l : Lugar s.memoria a base (length datos)) where
  abbrev marcada : NodoPagina
  marcada = record l.pagina { modificado = true; uso = true }

  abbrev escrito : NodoMarco
  escrito = record l.marco {
    puntero_marco = pisar (en_pagina s.memoria l.pagina base) datos l.marco.puntero_marco;
  }

  -- The page is marked, and the data is in its frame.
  Escrita : Memoria → Type 0
  Escrita t =
      Toque l.indice escrito (record s.memoria { paginas = set s.memoria.paginas a (some marcada) })
        t

  cabe : leb (length datos) (s.memoria.tam_pagina - en_pagina s.memoria l.pagina base) ≡ true
  cabe = le→leb _ _ (omega (arith, l.hasta))

  -- The state in which the page is marked already.
  abbrev marcado : Estado e.almacen.State
  marcado = record s {
    memoria = record s.memoria { paginas = set s.memoria.paginas a (some marcada) };
  }

  escribir_pagina-cabe :
      (t : Estado e.almacen.State)
      → interaccion_escritura e (some l.indice) (en_pagina s.memoria l.pagina base) datos marcado
        ≡ hecho tt t
      → escribir_pagina e a identificador base datos s ≡ hecho tt t
  unfolding escribir_pagina leer_nodo leer_marco cambiar_nodo
  escribir_pagina-cabe t h = rw (l.es_nodo, l.es_indice, l.es_marco, l.es_nodo, cabe) h

  escribir_pagina-Escrita :
      (t : Memoria) × (escribir_pagina e a identificador base datos s
        ≡ hecho tt (record s { memoria = t }))
      × Escrita t
  unfolding Escrita
  escribir_pagina-Escrita =
      let (t, eq, toque) =
        interaccion_escritura-Toque e l.indice (en_pagina s.memoria l.pagina base) datos marcado
          l.marco l.es_marco in
      (t, escribir_pagina-cabe (record s { memoria = t }) eq, toque)

  leer_bytes-cabe :
      (t : Memoria) (u : Estado e.almacen.State)
      → nodo t.paginas a ≡ some marcada
      → leb (length datos) (t.tam_pagina - en_pagina t l.pagina base) ≡ true
      → interaccion_lectura e
          (some l.indice)
          (en_pagina t l.pagina base)
          (length datos)
          (record s { memoria = record t { paginas = set t.paginas a (some marcada) } })
        ≡ hecho datos u
      → leer_bytes e a identificador base (length datos) (record s { memoria = t }) ≡ hecho datos u
  unfolding leer_bytes leer_nodo cambiar_nodo
  leer_bytes-cabe t u p k h = rw (p, l.es_indice, p, k) h

  leer_bytes-Escrita :
      (t : Memoria)
      → Escrita t
      → (u : Memoria) × (leer_bytes e a identificador base (length datos) (record s { memoria = t })
          ≡ hecho datos (record s { memoria = u }))
        × ((j : ℕ) → l.indice ≢ j → get_elem? u.marco j ≡ get_elem? s.memoria.marco j)
  unfolding Escrita
  leer_bytes-Escrita t h =
      let p =
        ap (λ ps. nodo ps a) h.mismas
        ∙ nodo-set_self s.memoria.paginas a l.pagina marcada l.es_nodo in
      let (u, eq, toque) =
        interaccion_lectura-Toque e l.indice (en_pagina t l.pagina base) (length datos)
          (record s { memoria = record t { paginas = set t.paginas a (some marcada) } }) h.marco
          h.es in
      (
        u,
        leer_bytes-cabe t (record s { memoria = u }) p (rw h.tam cabe)
            (eq ∙ ap (λ ds. hecho ds (record s { memoria = u })) leido),
        λ j k. toque.otros j k ∙ h.otros j k,
      )
    where
      leido : take (length datos) (drop (en_pagina t l.pagina base) h.marco.puntero_marco) ≡ datos
      leido =
          rw (h.contenido, h.tam)
            (leer-pisar (en_pagina s.memoria l.pagina base) datos l.marco.puntero_marco
              (omega (arith, l.hasta, l.entero)))

  -- Data that fits in the page of its address, a page that is in the memory, is written there, and a
  -- read of the same place and length then gives it back. Other frames and the storage stay as they
  -- were, and the page is marked as modified.
  pub escribir_pagina-leer_bytes :
      (t : Memoria) × (u : Memoria) × (escribir_pagina e a identificador base datos s
        ≡ hecho tt (record s { memoria = t }))
      × (nodo t.paginas a ≡ some marcada)
      × (leer_bytes e a identificador base (length datos) (record s { memoria = t })
          ≡ hecho datos (record s { memoria = u }))
      × ((j : ℕ) → l.indice ≢ j → get_elem? u.marco j ≡ get_elem? s.memoria.marco j)
  unfolding Escrita
  escribir_pagina-leer_bytes =
      let (t, eq, h) = escribir_pagina-Escrita in
      let (u, leida, otros) = leer_bytes-Escrita t h in
      (
        t,
        u,
        eq,
        ap (λ ps. nodo ps a) h.mismas
            ∙ nodo-set_self s.memoria.paginas a l.pagina marcada l.es_nodo,
        leida,
        otros,
      )
