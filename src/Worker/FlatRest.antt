-- ===== src/Worker/FlatRest.antt =====
-- The pages behind the first of a write (the `for` of escribir_pagina, worker/src/memoria.c), against the
-- bytes of the pages of the File:Tag one behind the other.
use Prim.Native.String.{String}
use tp_ssoo_2c.Base.{
  ℕ, zero, suc, ◌+◌, ◌*◌, ◌<◌, ◌≤◌, ◌≡◌, ◌≢◌, refl, ◌∙◌, some, List, length, get_elem?, set, take,
  drop, arith, length-set, get_elem?-some_of_lt,
}
use tp_ssoo_2c.Worker.{FileTag, Memoria}
use tp_ssoo_2c.Worker.Machine.{Entorno, Estado, hecho}
use tp_ssoo_2c.Worker.Tables.{leer_nodo, cambiar_nodo}
use tp_ssoo_2c.Worker.Frames.{pisar}
use tp_ssoo_2c.Worker.Pages.{escribir_resto}
use tp_ssoo_2c.Worker.Ring.{nodo-set_self}
use tp_ssoo_2c.Worker.Touch.{length-pisar}
use tp_ssoo_2c.Worker.Flat.{
  bytes_de, Presente, bytes_de-Presente, Cargado, pagina_en_tabla-presente,
}
use tp_ssoo_2c.Worker.Blocks.{aplanar, corte, todos-Llenos, por_cero}
use tp_ssoo_2c.Worker.Patches.{pisar_nada, length-corte, aplanar-ronda}
use tp_ssoo_2c.Worker.FlatTouch.{
  Separadas, SinRepetir, Cambia, Cargado-Cambia, Separadas-Cambia, sucio, escribir_marcada,
}

module _ (e : Entorno) (identificador : String) (ft : FileTag) (unicas : SinRepetir e ft) where
  -- The pages of the File:Tag hold other blocks, and other pages are as they were.
  pub record Escrita (s u : Memoria) (bloques bloques' : List (List ℕ)) : Type 0 where
    pub cargado : Cargado e u identificador ft bloques'
    pub separadas : Separadas u
    pub ajenas :
        (x : ℕ) → ((j : ℕ) → get_elem? ft.tabla_paginas j ≢ some x) → bytes_de u x ≡ bytes_de s x
    pub largo : length bloques' ≡ length bloques
    pub tam : u.tam_pagina ≡ s.tam_pagina

  Escrita-refl :
      (s : Memoria) (bloques : List (List ℕ))
      → Cargado e s identificador ft bloques
      → Separadas s
      → Escrita s s bloques bloques
  Escrita-refl s bloques c p = record {
    cargado = c;
    separadas = p;
    ajenas = λ x h. refl;
    largo = refl;
    tam = refl;
  }

  pub Escrita-trans :
      (s t u : Memoria) (a b c : List (List ℕ))
      → Escrita s t a b
      → Escrita t u b c
      → Escrita s u a c
  Escrita-trans s t u a b c g h = record {
    cargado = h.cargado;
    separadas = h.separadas;
    ajenas = λ x k. h.ajenas x k ∙ g.ajenas x k;
    largo = h.largo ∙ g.largo;
    tam = h.tam ∙ g.tam;
  }

  -- One page is written.
  pub Escrita-Cambia :
      (s u : Memoria) (bloques : List (List ℕ)) (j a : ℕ) (bytes : List ℕ)
      → Cargado e s identificador ft bloques
      → Separadas s
      → get_elem? ft.tabla_paginas j ≡ some a
      → j < length bloques
      → length bytes ≡ s.tam_pagina
      → Cambia a bytes s u
      → Escrita s u bloques (set bloques j bytes)
  Escrita-Cambia s u bloques j a bytes c p g m l k = record {
    cargado = Cargado-Cambia e s u identificador ft bloques j a bytes c unicas g m l k;
    separadas = Separadas-Cambia e a bytes s u k p;
    ajenas = λ x h. k.otras x (λ z. h j (rw (← z) g));
    largo = length-set bloques j bytes;
    tam = k.tam;
  }

  pub pagina_cargada :
      (s : Memoria) (bloques : List (List ℕ)) (j : ℕ)
      → Cargado e s identificador ft bloques
      → j < length bloques
      → (b : List ℕ) × (a : ℕ) × (get_elem? bloques j ≡ some b)
        × (get_elem? ft.tabla_paginas j ≡ some a)
        × Presente s a b
  pagina_cargada s bloques j c m =
      let (b, h) = get_elem?-some_of_lt bloques j m in
      let (a, k, l) = c.en_tabla j b h in (b, a, h, k, bytes_de-Presente s a b l)

  pub escribir_resto-aplanar :
      (n j : ℕ) (datos : List ℕ) (s : Estado e.almacen.State) (bloques : List (List ℕ))
      → Cargado e s.memoria identificador ft bloques
      → Separadas s.memoria
      → j + n ≤ length bloques
      → (u : Memoria) × (bloques' : List (List ℕ)) × (escribir_resto e n identificador j datos s
          ≡ hecho tt (record s { memoria = u }))
        × Escrita s.memoria u bloques bloques'
        × (aplanar bloques'
            ≡ pisar
                (j * s.memoria.tam_pagina)
                (take (n * s.memoria.tam_pagina) datos)
                (aplanar bloques))
  unfolding escribir_resto cambiar_nodo leer_nodo
  escribir_resto-aplanar zero j datos s bloques c p l = (
    s.memoria,
    bloques,
    refl,
    Escrita-refl s.memoria bloques c p,
    rw (por_cero s.memoria.tam_pagina, pisar_nada (j * s.memoria.tam_pagina) (aplanar bloques))
        refl,
  )
  escribir_resto-aplanar (suc n) j datos s bloques c p l =
      let tam : ℕ = s.memoria.tam_pagina in
      let x : List ℕ = take (corte (length datos) tam) datos in
      let (b, a, h, g, q) = pagina_cargada s.memoria bloques j c (omega arith) in
      let (t, eq, k) = escribir_marcada e s a 0 x b q p in
      let o : length (pisar 0 x b) ≡ tam =
        length-pisar 0 x b (omega (arith, length-corte datos tam, c.enteros j b h))
        ∙ c.enteros j b h in
      let w : Escrita s.memoria t bloques (set bloques j (pisar 0 x b)) =
        Escrita-Cambia s.memoria t bloques j a (pisar 0 x b) c p g (omega arith) o k in
      let (u, bloques', eq', v, f) =
        escribir_resto-aplanar n (j + 1) (drop (corte (length datos) tam) datos)
          (record s { memoria = t }) (set bloques j (pisar 0 x b)) w.cargado w.separadas
          (omega (arith, length-set bloques j (pisar 0 x b))) in
      (
        u,
        bloques',
        rw
            (
              pagina_en_tabla-presente e s identificador ft j a q.pagina c.conocido c.vivo g
                  q.es_nodo q.presencia,
              q.es_nodo,
              nodo-set_self s.memoria.paginas a q.pagina (sucio e q.pagina) q.es_nodo,
              eq,
            )
            eq',
        Escrita-trans s.memoria t u bloques (set bloques j (pisar 0 x b)) bloques' w v,
        rw w.tam at f
            ∙ aplanar-ronda j n tam datos bloques b (todos-Llenos tam bloques c.enteros) h,
      )
