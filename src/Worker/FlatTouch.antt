-- ===== src/Worker/FlatTouch.antt =====
-- A write to a page that is in the memory of a worker (worker/src/memoria.c), and the other pages.
use Prim.Native.String.{String}
use native.Mathlib.Decide.{ℕ_discrete}
use tp_ssoo_2c.Base.{
  ℕ, ◌<◌, ◌≡◌, ◌≢◌, refl, ap, sym, ◌∙◌, true, Option, none, some, List, length, get_elem?, set,
  if◌then◌else◌, Bool-cases, Option-cases, inl, inr, some_inj, get_elem?-set_self, get_elem?-set_ne,
}
use tp_ssoo_2c.Worker.{NodoPagina, NodoMarco, FileTag, Memoria, nodo}
use tp_ssoo_2c.Worker.Machine.{Entorno, Estado, hecho}
use tp_ssoo_2c.Worker.Frames.{pisar, interaccion_escritura}
use tp_ssoo_2c.Worker.Ring.{nodo-set_self, nodo-set_ne}
use tp_ssoo_2c.Worker.Touch.{Toque, interaccion_escritura-Toque}
use tp_ssoo_2c.Worker.Flat.{bytes_de, bytes_nodo, Presente, Presente-bytes_de, Cargado}

abbrev marco_nodo : Option NodoPagina → Option ℕ
marco_nodo none = none
marco_nodo (some p) = if p.presencia then p.nro_marco else none

-- The frame of the page `*a`, where it is in the memory.
unfoldable pub marco_de : Memoria → ℕ → Option ℕ
marco_de s a = marco_nodo (nodo s.paginas a)

-- No two pages are in one frame.
abbrev pub Separadas : Memoria → Type 0
Separadas s = (a b i : ℕ) → marco_de s a ≡ some i → marco_de s b ≡ some i → a ≡ b

-- From `s` to `u` the page `*a` has got these bytes, and the other pages are as they were.
pub record Cambia (a : ℕ) (bytes : List ℕ) (s u : Memoria) : Type 0 where
  pub suyos : bytes_de u a ≡ some bytes
  pub otras : (b : ℕ) → a ≢ b → bytes_de u b ≡ bytes_de s b
  pub marcos : (b : ℕ) → marco_de u b ≡ marco_de s b
  pub tablas : u.file_tag_pages ≡ s.file_tag_pages
  pub tam : u.tam_pagina ≡ s.tam_pagina

pub marco_de-poner :
    (s : Memoria) (a : ℕ) (p q : NodoPagina)
    → nodo s.paginas a ≡ some p
    → q.presencia ≡ p.presencia
    → q.nro_marco ≡ p.nro_marco
    → (b : ℕ) → marco_de (record s { paginas = set s.paginas a (some q) }) b ≡ marco_de s b
unfolding marco_de
marco_de-poner s a p q h k l b = elim (ℕ_discrete a b) [
  | yes e ↦ rw (← e, nodo-set_self s.paginas a p q h, h, k, l) refl
  | no n ↦ rw (nodo-set_ne s.paginas a b (some q) n) refl
]

-- A page whose frame is not the frame `i`.
bytes_nodo-otro :
    (i : ℕ) (ms ns : List NodoMarco) (o : Option NodoPagina)
    → ((j : ℕ) → i ≢ j → get_elem? ns j ≡ get_elem? ms j)
    → marco_nodo o ≢ some i
    → bytes_nodo ns o ≡ bytes_nodo ms o
bytes_nodo-otro i ms ns none h n = refl
bytes_nodo-otro i ms ns (some p) h n = elim (Bool-cases p.presencia) [
  | inr f ↦ rw f refl
  | inl t ↦ elim (Option-cases p.nro_marco) [
    | inl k ↦ rw (t, k) refl
    | inr (j, k) ↦ rw (t, k, h j (λ z. n (rw (t, k, z) refl))) refl
  ]
]

module _ (e : Entorno) where
  abbrev pub sucio : NodoPagina → NodoPagina
  sucio p = record p { modificado = true; uso = true }

  abbrev pub marcado : Estado e.almacen.State → ℕ → NodoPagina → Estado e.almacen.State
  marcado s a p = record s {
    memoria = record s.memoria { paginas = set s.memoria.paginas a (some (sucio p)) };
  }

  module _ (s : Estado e.almacen.State) (a direccion : ℕ) (datos bytes : List ℕ)
      (p : Presente s.memoria a bytes) (sep : Separadas s.memoria) where
    abbrev t : Memoria
    t = (marcado s a p.pagina).memoria

    abbrev escrito : NodoMarco
    escrito = record p.marco { puntero_marco = pisar direccion datos p.marco.puntero_marco }

    suyos_lem :
        (u : Memoria)
        → Toque p.indice escrito t u
        → bytes_de u a ≡ some (pisar direccion datos bytes)
    suyos_lem u k = Presente-bytes_de u a (pisar direccion datos bytes) (record {
      pagina = sucio p.pagina;
      indice = p.indice;
      marco = k.marco;
      es_nodo =
          ap (λ ps. nodo ps a) k.mismas
          ∙ nodo-set_self s.memoria.paginas a p.pagina (sucio p.pagina) p.es_nodo;
      presencia = p.presencia;
      es_indice = p.es_indice;
      es_marco = k.es;
      bytes_del_marco = k.contenido ∙ ap (pisar direccion datos) p.bytes_del_marco;
    })

    suyo : marco_de s.memoria a ≡ some p.indice
    unfolding marco_de
    suyo = rw (p.es_nodo, p.presencia, p.es_indice) refl

    otras_lem :
        (u : Memoria) (b : ℕ)
        → Toque p.indice escrito t u
        → a ≢ b
        → bytes_de u b ≡ bytes_de s.memoria b
    unfolding bytes_de marco_de
    otras_lem u b k n =
        rw (k.mismas, nodo-set_ne s.memoria.paginas a b (some (sucio p.pagina)) n)
          (bytes_nodo-otro p.indice s.memoria.marco u.marco (nodo s.memoria.paginas b) k.otros
            (λ z. n (sep a b p.indice suyo z)))

    marcos_lem :
        (u : Memoria) (b : ℕ) → Toque p.indice escrito t u → marco_de u b ≡ marco_de s.memoria b
    unfolding marco_de
    marcos_lem u b k =
        ap (λ ps. marco_nodo (nodo ps b)) k.mismas
        ∙ marco_de-poner s.memoria a p.pagina (sucio p.pagina) p.es_nodo refl refl b

    -- The page is written behind the mark of its use and of its change.
    pub escribir_marcada :
        (u : Memoria) × (interaccion_escritura e p.pagina.nro_marco direccion datos
            (marcado s a p.pagina)
          ≡ hecho tt (record s { memoria = u }))
        × Cambia a (pisar direccion datos bytes) s.memoria u
    escribir_marcada =
        let (u, eq, k) =
          interaccion_escritura-Toque e p.indice direccion datos (marcado s a p.pagina) p.marco
            p.es_marco in
        (
          u,
          ap (λ o. interaccion_escritura e o direccion datos (marcado s a p.pagina)) p.es_indice
              ∙ eq,
          record {
            suyos = suyos_lem u k;
            otras = λ b n. otras_lem u b k n;
            marcos = λ b. marcos_lem u b k;
            tablas = k.tablas;
            tam = k.tam;
          },
        )

  pub Separadas-Cambia :
      (a : ℕ) (bytes : List ℕ) (s u : Memoria) → Cambia a bytes s u → Separadas s → Separadas u
  Separadas-Cambia a bytes s u c h x y i k l = h x y i (sym (c.marcos x) ∙ k) (sym (c.marcos y) ∙ l)

  -- The table names no page twice.
  abbrev pub SinRepetir : FileTag → Type 0
  SinRepetir ft =
      (i j a : ℕ)
      → get_elem? ft.tabla_paginas i ≡ some a
      → get_elem? ft.tabla_paginas j ≡ some a
      → i ≡ j

  pub Cargado-Cambia :
      (s u : Memoria) (identificador : String) (ft : FileTag) (bloques : List (List ℕ)) (j a : ℕ)
      (bytes : List ℕ)
      → Cargado e s identificador ft bloques
      → SinRepetir ft
      → get_elem? ft.tabla_paginas j ≡ some a
      → j < length bloques
      → length bytes ≡ s.tam_pagina
      → Cambia a bytes s u
      → Cargado e u identificador ft (set bloques j bytes)
  Cargado-Cambia s u identificador ft bloques j a bytes c r g m l k = record {
    conocido = rw k.tablas c.conocido;
    vivo = rw k.tablas c.vivo;
    en_tabla = λ i b h. elim (ℕ_discrete j i) [
      | yes z ↦
          let w : bytes ≡ b =
            some_inj bytes b (sym (get_elem?-set_self bloques j bytes m) ∙ rw (← z) at h) in
          (a, rw (← z) g, rw (← w) k.suyos)
      | no n ↦
          let (x, y, w) = c.en_tabla i b (sym (get_elem?-set_ne bloques j i bytes n) ∙ h) in
          (x, y, k.otras x (λ z. n (r j i a g (rw z y))) ∙ w)
    ];
    enteros = λ i b h. elim (ℕ_discrete j i) [
      | yes z ↦
          let w : bytes ≡ b =
            some_inj bytes b (sym (get_elem?-set_self bloques j bytes m) ∙ rw (← z) at h) in
          rw (← w) (l ∙ sym k.tam)
      | no n ↦ c.enteros i b (sym (get_elem?-set_ne bloques j i bytes n) ∙ h) ∙ sym k.tam
    ];
  }
