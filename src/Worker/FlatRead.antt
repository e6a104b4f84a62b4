-- ===== src/Worker/FlatRead.antt =====
-- A read over the pages of a File:Tag (leer_pagina of worker/src/memoria.c) against the bytes of its
-- pages one behind the other.
use Prim.Native.String.{String}
use tp_ssoo_2c.Base.{
  ℕ, zero, suc, ◌+◌, ◌-◌, ◌*◌, ◌<◌, ◌≤◌, ◌≡◌, refl, ap, sym, ◌∙◌, true, false, some, List, [], ◌∷◌,
  ◌++◌, length, get_elem?, set, take, drop, Bool-cases, inl, inr, arith, leb, leb→le,
  lt_of_get_elem?, some_inj,
}
use tp_ssoo_2c.Worker.{NodoPagina, FileTag, Memoria, nodo}
use tp_ssoo_2c.Worker.Machine.{Entorno, Estado, hecho}
use tp_ssoo_2c.Worker.Tables.{leer_nodo, cambiar_nodo}
use tp_ssoo_2c.Worker.Frames.{ceil, interaccion_lectura}
use tp_ssoo_2c.Worker.Pages.{leer_resto, leer_bytes}
use tp_ssoo_2c.Worker.Ring.{nodo-set_self}
use tp_ssoo_2c.Worker.Touch.{interaccion_lectura-Toque}
use tp_ssoo_2c.Worker.Flat.{
  Presente, bytes_de-Presente, Misma, Misma-refl, Misma-trans, Misma-poner, Misma-Toque, Cargado,
  Cargado-Misma, pagina_en_tabla-presente,
}
use tp_ssoo_2c.Worker.Blocks.{
  aplanar, corte, take_nil, take-corte, drop_cons, Llenos, todos-Llenos, Llenos-drop,
  drop-aplanar_off, drop_lt, length-drop_list,
}
use tp_ssoo_2c.Worker.Span.{leido_corto, leido_largo}

module _ (e : Entorno) where
  abbrev con_uso : NodoPagina → NodoPagina
  con_uso p = record p { uso = true }

  abbrev usada : Estado e.almacen.State → ℕ → NodoPagina → Estado e.almacen.State
  usada s a p = record s {
    memoria = record s.memoria { paginas = set s.memoria.paginas a (some (con_uso p)) };
  }

  -- A part of a page is read behind the mark of its use.
  leer_usada :
      (s : Estado e.almacen.State) (a direccion n : ℕ) (bytes : List ℕ)
      (p : Presente s.memoria a bytes)
      → (u : Memoria) × (interaccion_lectura e p.pagina.nro_marco direccion n (usada s a p.pagina)
          ≡ hecho (take n (drop direccion bytes)) (record s { memoria = u }))
        × Misma s.memoria u
  leer_usada s a direccion n bytes p =
      let t = usada s a p.pagina in
      let (u, eq, toque) = interaccion_lectura-Toque e p.indice direccion n t p.marco p.es_marco in
      (
        u,
        ap (λ o. interaccion_lectura e o direccion n t) p.es_indice ∙ rw (← p.bytes_del_marco) eq,
        Misma-trans s.memoria t.memoria u
            (Misma-poner s.memoria a p.pagina (con_uso p.pagina) p.es_nodo refl refl)
            (Misma-Toque p.indice p.marco t.memoria u p.es_marco toque),
      )

  module _ (identificador : String) (ft : FileTag) (bloques : List (List ℕ)) where
    -- A page of the table, and what it holds.
    pagina_cargada :
        (s : Memoria) (j : ℕ) (b : List ℕ)
        → Cargado e s identificador ft bloques
        → get_elem? bloques j ≡ some b
        → (a : ℕ) × (get_elem? ft.tabla_paginas j ≡ some a) × Presente s a b
    pagina_cargada s j b c h = let (a, k, l) = c.en_tabla j b h in (a, k, bytes_de-Presente s a b l)

    leer_resto-aplanar :
        (n j size : ℕ) (s : Estado e.almacen.State) (bs : List (List ℕ))
        → Cargado e s.memoria identificador ft bloques
        → drop j bloques ≡ bs
        → n ≤ length bs
        → (u : Memoria) × (leer_resto e n identificador j size s
            ≡ hecho (take size (aplanar (take n bs))) (record s { memoria = u }))
          × Misma s.memoria u
    unfolding leer_resto cambiar_nodo leer_nodo
    leer_resto-aplanar zero j size s bs c d l =
        (s.memoria, rw (take_nil size) refl, Misma-refl s.memoria)
    leer_resto-aplanar (suc n) j size s [] c d l = absurd (omega arith)
    leer_resto-aplanar (suc n) j size s (b ∷ bs) c d l =
        let (h, k) = drop_cons j bloques b bs d in
        let (a, g, p) = pagina_cargada s.memoria j b c h in
        let (t, eq, m) = leer_usada s a 0 (corte size s.memoria.tam_pagina) b p in
        let (u, eq', m') =
          leer_resto-aplanar n (j + 1) (size - corte size s.memoria.tam_pagina)
            (record s { memoria = t }) bs (Cargado-Misma e s.memoria t identificador ft bloques c m)
            k (omega arith) in
        let cortado : take (corte size s.memoria.tam_pagina) b
              ++ take (size - corte size s.memoria.tam_pagina) (aplanar (take n bs))
            ≡ take size (b ++ aplanar (take n bs)) =
          rw (← c.enteros j b h) (take-corte size b (aplanar (take n bs))) in
        (
          u,
          rw
              (
                pagina_en_tabla-presente e s identificador ft j a p.pagina c.conocido c.vivo g
                    p.es_nodo p.presencia,
                p.es_nodo,
                nodo-set_self s.memoria.paginas a p.pagina (con_uso p.pagina) p.es_nodo,
                eq,
                eq',
              )
              (ap (λ z. hecho z (record s { memoria = u })) cortado),
          Misma-trans s.memoria t u m m',
        )

    leer_bytes-cabe :
        (s : Estado e.almacen.State) (a base size off : ℕ) (b : List ℕ) (p : Presente s.memoria a b)
        → base - s.memoria.tam_pagina * p.pagina.nro_pagina ≡ off
        → leb size (s.memoria.tam_pagina - off) ≡ true
        → (u : Memoria) × (leer_bytes e a identificador base size s
            ≡ hecho (take size (drop off b)) (record s { memoria = u }))
          × Misma s.memoria u
    unfolding leer_bytes cambiar_nodo leer_nodo
    leer_bytes-cabe s a base size off b p z f =
        let (u, eq, m) = leer_usada s a off size b p in
        (u, rw (p.es_nodo, p.es_nodo, z, f, eq) refl, m)

    leer_bytes-sigue :
        (s : Estado e.almacen.State) (a base size off : ℕ) (b : List ℕ) (bs : List (List ℕ))
        (p : Presente s.memoria a b)
        → Cargado e s.memoria identificador ft bloques
        → base - s.memoria.tam_pagina * p.pagina.nro_pagina ≡ off
        → leb size (s.memoria.tam_pagina - off) ≡ false
        → drop (p.pagina.nro_pagina + 1) bloques ≡ bs
        → ceil size s.memoria.tam_pagina - 1 ≤ length bs
        → (u : Memoria) × (leer_bytes e a identificador base size s
            ≡ hecho
                (take (s.memoria.tam_pagina - off) (drop off b)
                  ++ take
                      (size - (s.memoria.tam_pagina - off))
                      (aplanar (take (ceil size s.memoria.tam_pagina - 1) bs)))
                (record s { memoria = u }))
          × Misma s.memoria u
    unfolding leer_bytes cambiar_nodo leer_nodo
    leer_bytes-sigue s a base size off b bs p c z f d l =
        let (t, eq, m) = leer_usada s a off (s.memoria.tam_pagina - off) b p in
        let (u, eq', m') =
          leer_resto-aplanar (ceil size s.memoria.tam_pagina - 1) (p.pagina.nro_pagina + 1)
            (size - (s.memoria.tam_pagina - off)) (record s { memoria = t }) bs
            (Cargado-Misma e s.memoria t identificador ft bloques c m) d l in
        (u, rw (p.es_nodo, p.es_nodo, z, f, eq, eq') refl, Misma-trans s.memoria t u m m')

    abbrev Leida : Estado e.almacen.State → ℕ → ℕ → ℕ → List ℕ → Type 0
    Leida s a base size leidos =
        (u : Memoria) × (leer_bytes e a identificador base size s
          ≡ hecho leidos (record s { memoria = u }))
        × Misma s.memoria u

    -- The page of the address, and where in it the read starts.
    module _ (s : Estado e.almacen.State) (k a base size : ℕ) (b : List ℕ) (bs : List (List ℕ))
        (p : Presente s.memoria a b) (c : Cargado e s.memoria identificador ft bloques)
        (n : p.pagina.nro_pagina ≡ k) (desde : k * s.memoria.tam_pagina ≤ base)
        (hasta : base < k * s.memoria.tam_pagina + s.memoria.tam_pagina)
        (h : get_elem? bloques k ≡ some b) (d : drop k bloques ≡ b ∷ bs) where
      abbrev tam : ℕ
      tam = s.memoria.tam_pagina

      abbrev off : ℕ
      off = base - k * tam

      hb : length b ≡ tam
      hb = c.enteros k b h

      llenos : Llenos tam bs
      llenos = (rw d at (Llenos-drop k tam bloques (todos-Llenos tam bloques c.enteros))).1

      zoff : base - tam * p.pagina.nro_pagina ≡ off
      zoff = rw n (omega arith)

      suma : k * tam + off ≡ base
      suma = omega arith

      largo : k ≤ length bloques
      largo = omega (arith, lt_of_get_elem? bloques k b h)

      plano : drop base (aplanar bloques) ≡ drop off b ++ aplanar bs
      plano =
          ap (λ x. drop x (aplanar bloques)) (sym suma)
          ∙ drop-aplanar_off k off tam bloques b bs (todos-Llenos tam bloques c.enteros) d largo
              (omega arith)

      leer_bytes-plano :
          ceil size tam ≤ suc (length bs)
          → Leida s a base size
              (take size (take (ceil size tam * tam - off) (drop base (aplanar bloques))))
      leer_bytes-plano l = elim (Bool-cases (leb size (tam - off))) [
        | inl t ↦
            rw
              (
                plano,
                leido_corto size tam off b (aplanar bs) hb (omega arith) (omega arith)
                    (leb→le size (tam - off) t),
              )
              (leer_bytes-cabe s a base size off b p zoff t)
        | inr f ↦
            rw
              (
                plano,
                leido_largo size tam off b bs hb llenos (omega arith) (ground arith) (omega arith)
                    (omega arith),
              )
              (leer_bytes-sigue s a base size off b bs p c zoff f
                (rw n (drop_cons k bloques b bs d).1) (omega arith))
      ]

    -- With all pages of a known File:Tag in the memory, a read of `size` bytes from an address in the page
    -- `*a`, the page `k` of the table, ends, and it has the bytes from there on of the pages one behind the
    -- other: all `size`, or as many as lie in ceil(size/tam_pagina) pages from page `k`, where these are
    -- pages of the table. No byte of a page changes.
    pub leer_bytes-aplanar :
        (s : Estado e.almacen.State) (k a base size : ℕ)
        → Cargado e s.memoria identificador ft bloques
        → get_elem? ft.tabla_paginas k ≡ some a
        → ((p : NodoPagina) → nodo s.memoria.paginas a ≡ some p → p.nro_pagina ≡ k)
        → k * s.memoria.tam_pagina ≤ base
        → base < k * s.memoria.tam_pagina + s.memoria.tam_pagina
        → k < length bloques
        → k + ceil size s.memoria.tam_pagina ≤ length bloques
        → (u : Memoria) × (leer_bytes e a identificador base size s
            ≡ hecho
                (take size (
                  take
                    (ceil size s.memoria.tam_pagina * s.memoria.tam_pagina
                      - (base - k * s.memoria.tam_pagina))
                    (drop base (aplanar bloques))))
                (record s { memoria = u }))
          × Misma s.memoria u
    leer_bytes-aplanar s k a base size c g numerada desde hasta hay caben =
        let tam = s.memoria.tam_pagina in
        let (b, bs, h, d) = drop_lt k bloques hay in
        let (a', g', p') = pagina_cargada s.memoria k b c h in
        let same : a' ≡ a = some_inj a' a (sym g' ∙ g) in
        let p : Presente s.memoria a b = rw same at p' in
        let n : p.pagina.nro_pagina ≡ k = numerada p.pagina p.es_nodo in
        leer_bytes-plano s k a base size b bs p c n desde hasta h d
          (omega (arith, length-drop_list k bloques, ap length d))
