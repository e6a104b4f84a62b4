-- ===== src/Worker/FlatWrite.antt =====
-- A write over the pages of a File:Tag (escribir_pagina of worker/src/memoria.c) against the bytes of its
-- pages one behind the other.
use Prim.Native.String.{String}
use tp_ssoo_2c.Base.{
  ℕ, ◌+◌, ◌-◌, ◌*◌, ◌<◌, ◌≤◌, ◌≡◌, refl, sym, ◌∙◌, some, List, length, get_elem?, set, take, drop,
  Bool-cases, inl, inr, arith, leb, le→leb, leb→le, lt→leb-false, some_inj, length-set, length-take,
  lt_of_get_elem?,
}
use tp_ssoo_2c.Worker.{NodoPagina, FileTag, Memoria, nodo}
use tp_ssoo_2c.Worker.Machine.{Entorno, Estado, hecho}
use tp_ssoo_2c.Worker.Tables.{leer_nodo, cambiar_nodo}
use tp_ssoo_2c.Worker.Frames.{ceil, pisar, leer_marco, interaccion_escritura}
use tp_ssoo_2c.Worker.Pages.{escribir_resto, escribir_pagina}
use tp_ssoo_2c.Worker.Touch.{length-pisar}
use tp_ssoo_2c.Worker.Flat.{Presente, Cargado}
use tp_ssoo_2c.Worker.Blocks.{aplanar, Llenos, todos-Llenos, take_all}
use tp_ssoo_2c.Worker.Span.{ceil_pos, ceil_largo, alcance_corto}
use tp_ssoo_2c.Worker.Patches.{aplanar-set, aplanar-largo}
use tp_ssoo_2c.Worker.FlatTouch.{Separadas, SinRepetir, marcado, escribir_marcada}
use tp_ssoo_2c.Worker.FlatRest.{
  Escrita, Escrita-trans, Escrita-Cambia, pagina_cargada, escribir_resto-aplanar,
}

module _ (e : Entorno) (identificador : String) (ft : FileTag) (unicas : SinRepetir e ft) where
  -- The page of the address, and where in it the write starts.
  module _ (s : Estado e.almacen.State) (bloques : List (List ℕ)) (k a base : ℕ) (datos : List ℕ)
      (b : List ℕ) (p : Presente s.memoria a b) (c : Cargado e s.memoria identificador ft bloques)
      (sep : Separadas s.memoria) (g : get_elem? ft.tabla_paginas k ≡ some a)
      (n : p.pagina.nro_pagina ≡ k) (desde : k * s.memoria.tam_pagina ≤ base)
      (hasta : base < k * s.memoria.tam_pagina + s.memoria.tam_pagina)
      (h : get_elem? bloques k ≡ some b) where
    abbrev tam : ℕ
    tam = s.memoria.tam_pagina

    abbrev off : ℕ
    off = base - k * tam

    hb : length b ≡ tam
    hb = c.enteros k b h

    llenos : Llenos tam bloques
    llenos = todos-Llenos tam bloques c.enteros

    zoff : base - tam * p.pagina.nro_pagina ≡ off
    zoff = rw n (omega arith)

    suma : k * tam + off ≡ base
    suma = omega arith

    dentro : k < length bloques
    dentro = lt_of_get_elem? bloques k b h

    leido : leer_marco p.pagina.nro_marco s ≡ hecho p.marco s
    unfolding leer_marco
    leido = rw (p.es_indice, p.es_marco) refl

    abbrev Plana : Memoria → List (List ℕ) → Type 0
    Plana u bloques' =
        (escribir_pagina e a identificador base datos s ≡ hecho tt (record s { memoria = u }))
        × Escrita e identificador ft unicas s.memoria u bloques bloques'
        × (aplanar bloques'
            ≡ pisar base (take (ceil (length datos) tam * tam - off) datos) (aplanar bloques))

    escribir_pagina-cabe :
        length datos ≤ tam - off → (u : Memoria) × (bloques' : List (List ℕ)) × Plana u bloques'
    unfolding escribir_pagina cambiar_nodo leer_nodo
    escribir_pagina-cabe l =
        let (u, eq, q) = escribir_marcada e s a off datos b p sep in
        let o : length (pisar off datos b) ≡ tam =
          length-pisar off datos b (omega (arith, hb)) ∙ hb in
        (
          u,
          set bloques k (pisar off datos b),
          (
            rw (p.es_nodo, leido, p.es_nodo, zoff, le→leb (length datos) (tam - off) l) eq,
            Escrita-Cambia e identificador ft unicas s.memoria u bloques k a (pisar off datos b) c
                sep g dentro o q,
            aplanar-set k off tam datos bloques b llenos h (omega arith)
                ∙ rw
                    (
                      suma,
                      take_all (ceil (length datos) tam * tam - off) datos
                          (alcance_corto (length datos) tam off (omega arith) (omega arith) l),
                    )
                    refl,
          ),
        )

    partida :
        (t u : Memoria)
        → tam - off < length datos
        → interaccion_escritura e p.pagina.nro_marco off
            (take (tam - off) datos)
            (marcado e s a p.pagina)
          ≡ hecho tt (record s { memoria = t })
        → escribir_resto e
            (ceil (length datos) tam - 1)
            identificador
            (k + 1)
            (drop (tam - off) datos)
            (record s { memoria = t })
          ≡ hecho tt (record s { memoria = u })
        → escribir_pagina e a identificador base datos s ≡ hecho tt (record s { memoria = u })
    unfolding escribir_pagina cambiar_nodo leer_nodo
    partida t u l eq eq' =
        rw (p.es_nodo, leido, p.es_nodo, zoff, lt→leb-false (tam - off) (length datos) l, eq, n) eq'

    escribir_pagina-sigue :
        tam - off < length datos
        → k + ceil (length datos) tam ≤ length bloques
        → (u : Memoria) × (bloques' : List (List ℕ)) × Plana u bloques'
    escribir_pagina-sigue l caben =
        let x : List ℕ = take (tam - off) datos in
        let lx : length x ≡ tam - off = length-take (tam - off) datos (omega arith) in
        let pos : 1 ≤ ceil (length datos) tam =
          ceil_pos (length datos) tam (omega arith) (omega arith) in
        let m : ℕ = ceil (length datos) tam - 1 in
        let (t, eq, q) = escribir_marcada e s a off x b p sep in
        let o : length (pisar off x b) ≡ tam = length-pisar off x b (omega (arith, hb, lx)) ∙ hb in
        let w : Escrita e identificador ft unicas s.memoria t bloques
            (set bloques k (pisar off x b)) =
          Escrita-Cambia e identificador ft unicas s.memoria t bloques k a (pisar off x b) c sep g
            dentro o q in
        let (u, bloques', eq', v, f) =
          escribir_resto-aplanar e identificador ft unicas m (k + 1) (drop (tam - off) datos)
            (record s { memoria = t }) (set bloques k (pisar off x b)) w.cargado w.separadas
            (omega (arith, length-set bloques k (pisar off x b))) in
        let z : ceil (length datos) tam * tam - off ≡ tam - off + m * tam =
          omega (arith, ceil_largo (length datos) tam pos) in
        (
          u,
          bloques',
          (
            partida t u l eq eq',
            Escrita-trans e identificador ft unicas s.memoria t u bloques
                (set bloques k (pisar off x b)) bloques' w v,
            rw w.tam at f
                ∙ (aplanar-largo k off m tam datos bloques b llenos h (omega arith) (omega arith)
                    ∙ rw (suma, z) refl),
          ),
        )

    escribir_pagina-Plana :
        k + ceil (length datos) tam ≤ length bloques
        → (u : Memoria) × (bloques' : List (List ℕ)) × Plana u bloques'
    escribir_pagina-Plana caben = elim (Bool-cases (leb (length datos) (tam - off))) [
      | inl t ↦ escribir_pagina-cabe (leb→le (length datos) (tam - off) t)
      | inr f ↦ escribir_pagina-sigue (ground arith) caben
    ]

  -- With all pages of a known File:Tag in the memory, each in a frame of its own, a write of `datos` to an
  -- address in the page `*a`, the page `k` of the table, ends, and then the bytes of the pages one behind
  -- the other are those of before with `datos` put over them from the address on: all of it, or as much
  -- as lies in ceil(size/tam_pagina) pages from page `k`, where these are pages of the table. Pages that
  -- are not of the File:Tag keep their bytes.
  pub escribir_pagina-aplanar :
      (s : Estado e.almacen.State) (bloques : List (List ℕ)) (k a base : ℕ) (datos : List ℕ)
      → Cargado e s.memoria identificador ft bloques
      → Separadas s.memoria
      → get_elem? ft.tabla_paginas k ≡ some a
      → ((p : NodoPagina) → nodo s.memoria.paginas a ≡ some p → p.nro_pagina ≡ k)
      → k * s.memoria.tam_pagina ≤ base
      → base < k * s.memoria.tam_pagina + s.memoria.tam_pagina
      → k < length bloques
      → k + ceil (length datos) s.memoria.tam_pagina ≤ length bloques
      → (u : Memoria) × (bloques' : List (List ℕ)) × (escribir_pagina e a identificador base datos s
          ≡ hecho tt (record s { memoria = u }))
        × Escrita e identificador ft unicas s.memoria u bloques bloques'
        × (aplanar bloques'
            ≡ pisar base
                (take
                  (ceil (length datos) s.memoria.tam_pagina * s.memoria.tam_pagina
                    - (base - k * s.memoria.tam_pagina))
                  datos)
                (aplanar bloques))
  escribir_pagina-aplanar s bloques k a base datos c sep g numerada desde hasta hay caben =
      let (b, a', h, g', p') = pagina_cargada e identificador ft unicas s.memoria bloques k c hay in
      let same : a' ≡ a = some_inj a' a (sym g' ∙ g) in
      let p : Presente s.memoria a b = rw same at p' in
      let n : p.pagina.nro_pagina ≡ k = numerada p.pagina p.es_nodo in
      let (u, bloques', (eq, w, f)) =
        escribir_pagina-Plana s bloques k a base datos b p c sep g n desde hasta h caben in
      (u, bloques', eq, w, f)
