-- ===== src/Worker/Touch.antt =====
-- What interaccion_con_memoria (worker/src/memoria.c) leaves of the memory.
use tp_ssoo_2c.Base.{
  ℕ, zero, suc, ◌+◌, ◌≤◌, ◌≡◌, ◌≢◌, refl, ◌∙◌, some, List, [], ◌∷◌, ◌++◌, length, get_elem?, set,
  take, drop, get_elem?-set_self, get_elem?-set_ne, lt_of_get_elem?, length-append, length-take,
  length-drop, take_append_length, Bool-cases, inl, inr, arith,
}
use tp_ssoo_2c.Worker.{NodoMarco, Memoria}
use tp_ssoo_2c.Worker.Machine.{Entorno, Estado, hecho}
use tp_ssoo_2c.Worker.Frames.{
  pisar, cambiar_marco, leer_marco, fechar, interaccion_escritura, interaccion_lectura,
}

drop-append_take : (n : ℕ) (xs ys : List ℕ) → n ≤ length xs → drop n (take n xs ++ ys) ≡ ys
drop-append_take zero xs ys h = refl
drop-append_take (suc n) [] ys h = absurd (omega arith)
drop-append_take (suc n) (x ∷ xs) ys h = drop-append_take n xs ys (omega arith)

drop-pisar :
    (direccion : ℕ) (datos destino : List ℕ)
    → direccion ≤ length destino
    → drop direccion (pisar direccion datos destino)
      ≡ datos ++ drop (direccion + length datos) destino
unfolding pisar
drop-pisar n datos destino h =
    drop-append_take n destino (datos ++ drop (n + length datos) destino) h

-- What was put in a buffer is read from there.
pub leer-pisar :
    (direccion : ℕ) (datos destino : List ℕ)
    → direccion ≤ length destino
    → take (length datos) (drop direccion (pisar direccion datos destino)) ≡ datos
leer-pisar n datos destino h =
    rw (drop-pisar n datos destino h) (take_append_length datos (drop (n + length datos) destino))

pub length-pisar :
    (direccion : ℕ) (datos destino : List ℕ)
    → direccion + length datos ≤ length destino
    → length (pisar direccion datos destino) ≡ length destino
unfolding pisar
length-pisar n datos destino h =
    rw
      (
        length-append (take n destino) (datos ++ drop (n + length datos) destino),
        length-append datos (drop (n + length datos) destino),
      )
      (omega (arith, length-take n destino (omega arith), length-drop (n + length datos) destino))

-- Only the frame `i` may differ, and it is `n` but for its time.
pub record Toque (i : ℕ) (n : NodoMarco) (s u : Memoria) : Type 0 where
  pub marco : NodoMarco
  pub es : get_elem? u.marco i ≡ some marco
  pub contenido : marco.puntero_marco ≡ n.puntero_marco
  pub misma : marco.pagina ≡ n.pagina
  pub otros : (j : ℕ) → i ≢ j → get_elem? u.marco j ≡ get_elem? s.marco j
  pub mismas : u.paginas ≡ s.paginas
  pub tablas : u.file_tag_pages ≡ s.file_tag_pages
  pub bits : u.bit_map ≡ s.bit_map
  pub tam : u.tam_pagina ≡ s.tam_pagina

cambiar_marco-hecho :
    {S : Type 0} (i : ℕ) (f : NodoMarco → NodoMarco) (s : Estado S) (m : NodoMarco)
    → get_elem? s.memoria.marco i ≡ some m
    → cambiar_marco (some i) f s
      ≡ hecho tt (record s { memoria = record s.memoria { marco = set s.memoria.marco i (f m) } })
unfolding cambiar_marco
cambiar_marco-hecho i f s m h = rw h refl

cambiado :
    (i : ℕ) (s : Memoria) (m n : NodoMarco) (l time : ℕ)
    → get_elem? s.marco i ≡ some m
    → Toque i n s (record s { marco = set s.marco i (record n { time = time }); lecturas = l })
cambiado i s m n l time h = record {
  marco = record n { time = time };
  es = get_elem?-set_self s.marco i (record n { time = time }) (lt_of_get_elem? s.marco i m h);
  contenido = refl;
  misma = refl;
  otros = λ j k. get_elem?-set_ne s.marco i j (record n { time = time }) k;
  mismas = refl;
  tablas = refl;
  bits = refl;
  tam = refl;
}

Toque-trans :
    (i : ℕ) (m n : NodoMarco) (s t u : Memoria) → Toque i m s t → Toque i n t u → Toque i n s u
Toque-trans i m n s t u g h = record {
  marco = h.marco;
  es = h.es;
  contenido = h.contenido;
  misma = h.misma;
  otros = λ j k. h.otros j k ∙ g.otros j k;
  mismas = h.mismas ∙ g.mismas;
  tablas = h.tablas ∙ g.tablas;
  bits = h.bits ∙ g.bits;
  tam = h.tam ∙ g.tam;
}

module _ (e : Entorno) where
  fechar-Toque :
      (i : ℕ) (s : Estado e.almacen.State) (m : NodoMarco)
      → get_elem? s.memoria.marco i ≡ some m
      → (u : Memoria) × (fechar e (some i) s ≡ hecho tt (record s { memoria = u }))
        × Toque i m s.memoria u
  unfolding fechar
  fechar-Toque i s m h =
      elim (Bool-cases (e.string_equals_ignore_case e.algoritmo_reemplazo "LRU")) [
        | inl t ↦ (
          _,
          rw
              (
                t,
                cambiar_marco-hecho i
                    (λ n. record n { time = e.temporal_gettime s.memoria.lecturas })
                    (record s { memoria = record s.memoria { lecturas = s.memoria.lecturas + 1 } })
                    m h,
              )
              refl,
          cambiado i s.memoria m m (s.memoria.lecturas + 1) (e.temporal_gettime s.memoria.lecturas)
              h,
        )
        | inr f ↦ (
          s.memoria,
          rw f refl,
          record {
            marco = m;
            es = h;
            contenido = refl;
            misma = refl;
            otros = λ j k. refl;
            mismas = refl;
            tablas = refl;
            bits = refl;
            tam = refl;
          },
        )
      ]

  -- The bytes `datos` are put in the frame, and all else is as it was.
  pub interaccion_escritura-Toque :
      (i direccion : ℕ) (datos : List ℕ) (s : Estado e.almacen.State) (m : NodoMarco)
      → get_elem? s.memoria.marco i ≡ some m
      → (u : Memoria) × (interaccion_escritura e (some i) direccion datos s
          ≡ hecho tt (record s { memoria = u }))
        × Toque i (record m { puntero_marco = pisar direccion datos m.puntero_marco }) s.memoria u
  unfolding interaccion_escritura
  interaccion_escritura-Toque i direccion datos s m h =
      let n : NodoMarco = record m { puntero_marco = pisar direccion datos m.puntero_marco } in
      let t : Memoria = record s.memoria { marco = set s.memoria.marco i n } in
      let (u, eq, toque) =
        fechar-Toque i (record s { memoria = t }) n
          (get_elem?-set_self s.memoria.marco i n (lt_of_get_elem? s.memoria.marco i m h)) in
      (
        u,
        rw
            (cambiar_marco-hecho i
              (λ m. record m { puntero_marco = pisar direccion datos m.puntero_marco }) s m h)
            eq,
        Toque-trans i n n s.memoria t u (cambiado i s.memoria m n s.memoria.lecturas n.time h)
            toque,
      )

  -- The bytes are read, and all is as it was.
  pub interaccion_lectura-Toque :
      (i direccion size : ℕ) (s : Estado e.almacen.State) (m : NodoMarco)
      → get_elem? s.memoria.marco i ≡ some m
      → (u : Memoria) × (interaccion_lectura e (some i) direccion size s
          ≡ hecho (take size (drop direccion m.puntero_marco)) (record s { memoria = u }))
        × Toque i m s.memoria u
  unfolding interaccion_lectura leer_marco
  interaccion_lectura-Toque i direccion size s m h =
      let (u, eq, toque) = fechar-Toque i s m h in (u, rw (h, eq) refl, toque)
