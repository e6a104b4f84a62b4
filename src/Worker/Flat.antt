-- ===== src/Worker/Flat.antt =====
-- The bytes of a page that is in the memory of a worker (worker/src/memoria.c), and what finds and marks
-- the page without a change of them.
use Prim.Native.String.{String}
use native.Mathlib.Decide.{ℕ_discrete}
use tp_ssoo_2c.Base.{
  ℕ, ◌≡◌, refl, sym, ◌∙◌, true, Option, none, some, List, length, get_elem?, set, if◌then◌else◌,
  Bool-cases, Option-cases, inl, inr, arith, le→ltb-false, lt_of_get_elem?,
}
use tp_ssoo_2c.Worker.{NodoPagina, NodoMarco, FileTag, Memoria, nodo}
use tp_ssoo_2c.Worker.Machine.{Entorno, Estado, hecho}
use tp_ssoo_2c.Worker.Tables.{file_tag_de, buscar_file_tag, leer_file_tag, leer_nodo}
use tp_ssoo_2c.Worker.Pages.{fuera_de_tabla, presentar, pagina_en_tabla}
use tp_ssoo_2c.Worker.Ring.{nodo-set_self, nodo-set_ne}
use tp_ssoo_2c.Worker.Touch.{Toque}
use tp_ssoo_2c.Worker.Missing.{file_tag_en_memoria-conocido}

abbrev pub bytes_opt : Option NodoMarco → Option (List ℕ)
bytes_opt none = none
bytes_opt (some m) = some m.puntero_marco

abbrev pub bytes_en : List NodoMarco → Option ℕ → Option (List ℕ)
bytes_en ms none = none
bytes_en ms (some i) = bytes_opt (get_elem? ms i)

abbrev pub bytes_nodo : List NodoMarco → Option NodoPagina → Option (List ℕ)
bytes_nodo ms none = none
bytes_nodo ms (some p) = if p.presencia then bytes_en ms p.nro_marco else none

-- The bytes of the page `*a`, where it is in the memory.
unfoldable pub bytes_de : Memoria → ℕ → Option (List ℕ)
bytes_de s a = bytes_nodo s.marco (nodo s.paginas a)

-- The page `*a` is in the memory, with these bytes.
pub record Presente (s : Memoria) (a : ℕ) (bytes : List ℕ) : Type 0 where
  pub pagina : NodoPagina
  pub indice : ℕ
  pub marco : NodoMarco
  pub es_nodo : nodo s.paginas a ≡ some pagina
  pub presencia : pagina.presencia ≡ true
  pub es_indice : pagina.nro_marco ≡ some indice
  pub es_marco : get_elem? s.marco indice ≡ some marco
  pub bytes_del_marco : marco.puntero_marco ≡ bytes

Presente-bytes_de_opt :
    (s : Memoria) (a i : ℕ) (bytes : List ℕ) (p : NodoPagina) (o : Option NodoMarco)
    → nodo s.paginas a ≡ some p
    → p.presencia ≡ true
    → p.nro_marco ≡ some i
    → get_elem? s.marco i ≡ o
    → bytes_opt o ≡ some bytes
    → Presente s a bytes
Presente-bytes_de_opt s a i bytes p none h k l m n = absurd (ground arith)
Presente-bytes_de_opt s a i bytes p (some x) h k l m n = record {
  pagina = p;
  indice = i;
  marco = x;
  es_nodo = h;
  presencia = k;
  es_indice = l;
  es_marco = m;
  bytes_del_marco = ground arith;
}

pub bytes_de-Presente :
    (s : Memoria) (a : ℕ) (bytes : List ℕ) → bytes_de s a ≡ some bytes → Presente s a bytes
unfolding bytes_de
bytes_de-Presente s a bytes h = elim (Option-cases (nodo s.paginas a)) [
  | inl n ↦ absurd (ground (arith, n))
  | inr (p, e) ↦ elim (Bool-cases p.presencia) [
    | inr f ↦ absurd (ground (arith, e, f))
    | inl t ↦ elim (Option-cases p.nro_marco) [
      | inl n ↦ absurd (ground (arith, e, t, n))
      | inr (i, g) ↦
          Presente-bytes_de_opt s a i bytes p (get_elem? s.marco i) e t g refl
            (ground (arith, e, t, g))
    ]
  ]
]

pub Presente-bytes_de :
    (s : Memoria) (a : ℕ) (bytes : List ℕ) → Presente s a bytes → bytes_de s a ≡ some bytes
unfolding bytes_de
Presente-bytes_de s a bytes p =
    rw (p.es_nodo, p.presencia, p.es_indice, p.es_marco, p.bytes_del_marco) refl

-- From `s` to `u` the bytes of all pages are the same, and the tables too.
pub record Misma (s u : Memoria) : Type 0 where
  pub bytes : (a : ℕ) → bytes_de u a ≡ bytes_de s a
  pub tablas : u.file_tag_pages ≡ s.file_tag_pages
  pub tam : u.tam_pagina ≡ s.tam_pagina

pub Misma-refl : (s : Memoria) → Misma s s
Misma-refl s = record { bytes = λ a. refl; tablas = refl; tam = refl }

pub Misma-trans : (s t u : Memoria) → Misma s t → Misma t u → Misma s u
Misma-trans s t u g h = record {
  bytes = λ a. h.bytes a ∙ g.bytes a;
  tablas = h.tablas ∙ g.tablas;
  tam = h.tam ∙ g.tam;
}

-- A bit of a page is set.
pub Misma-poner :
    (s : Memoria) (a : ℕ) (p q : NodoPagina)
    → nodo s.paginas a ≡ some p
    → q.presencia ≡ p.presencia
    → q.nro_marco ≡ p.nro_marco
    → Misma s (record s { paginas = set s.paginas a (some q) })
unfolding bytes_de
Misma-poner s a p q h k l = record {
  bytes = λ b. elim (ℕ_discrete a b) [
    | yes e ↦ rw (← e, nodo-set_self s.paginas a p q h, h, k, l) refl
    | no n ↦ rw (nodo-set_ne s.paginas a b (some q) n) refl
  ];
  tablas = refl;
  tam = refl;
}

bytes_en-Toque :
    (i : ℕ) (m : NodoMarco) (s u : Memoria)
    → get_elem? s.marco i ≡ some m
    → Toque i m s u
    → (j : ℕ) → bytes_opt (get_elem? u.marco j) ≡ bytes_opt (get_elem? s.marco j)
bytes_en-Toque i m s u h t j = elim (ℕ_discrete i j) [
  | yes e ↦ rw (← e, t.es, h, t.contenido) refl
  | no n ↦ rw (t.otros j n) refl
]

bytes_nodo-Toque :
    (ms ns : List NodoMarco) (o : Option NodoPagina)
    → ((j : ℕ) → bytes_opt (get_elem? ns j) ≡ bytes_opt (get_elem? ms j))
    → bytes_nodo ns o ≡ bytes_nodo ms o
bytes_nodo-Toque ms ns none h = refl
bytes_nodo-Toque ms ns (some p) h = elim (Option-cases p.nro_marco) [
  | inl n ↦ rw n refl
  | inr (i, e) ↦ rw (e, h i) refl
]

-- A frame is read.
pub Misma-Toque :
    (i : ℕ) (m : NodoMarco) (s u : Memoria)
    → get_elem? s.marco i ≡ some m
    → Toque i m s u
    → Misma s u
unfolding bytes_de
Misma-Toque i m s u h t = record {
  bytes = λ a.
      rw t.mismas
        (bytes_nodo-Toque s.marco u.marco (nodo s.paginas a) (bytes_en-Toque i m s u h t));
  tablas = t.tablas;
  tam = t.tam;
}

module _ (e : Entorno) where
  -- The worker knows the File:Tag, and its pages are all in the memory, with these bytes.
  pub record Cargado (s : Memoria) (identificador : String) (ft : FileTag) (bloques : List (List ℕ))
      : Type 0 where
    pub conocido : buscar_file_tag e identificador s.file_tag_pages ≡ some ft
    pub vivo : file_tag_de ft.direccion s.file_tag_pages ≡ some ft
    pub en_tabla :
        (j : ℕ) (b : List ℕ)
        → get_elem? bloques j ≡ some b
        → (a : ℕ) × (get_elem? ft.tabla_paginas j ≡ some a) × (bytes_de s a ≡ some b)
    pub enteros : (j : ℕ) (b : List ℕ) → get_elem? bloques j ≡ some b → length b ≡ s.tam_pagina

  pub Cargado-Misma :
      (s u : Memoria) (identificador : String) (ft : FileTag) (bloques : List (List ℕ))
      → Cargado s identificador ft bloques
      → Misma s u
      → Cargado u identificador ft bloques
  Cargado-Misma s u identificador ft bloques c m = record {
    conocido = rw m.tablas c.conocido;
    vivo = rw m.tablas c.vivo;
    en_tabla = λ j b h. let (a, k, l) = c.en_tabla j b h in (a, k, m.bytes a ∙ l);
    enteros = λ j b h. c.enteros j b h ∙ sym m.tam;
  }

  -- A page of the table is found as it is.
  pub pagina_en_tabla-presente :
      (s : Estado e.almacen.State) (identificador : String) (ft : FileTag) (j a : ℕ)
      (p : NodoPagina)
      → buscar_file_tag e identificador s.memoria.file_tag_pages ≡ some ft
      → file_tag_de ft.direccion s.memoria.file_tag_pages ≡ some ft
      → get_elem? ft.tabla_paginas j ≡ some a
      → nodo s.memoria.paginas a ≡ some p
      → p.presencia ≡ true
      → pagina_en_tabla e identificador j s ≡ hecho (some a) s
  unfolding pagina_en_tabla fuera_de_tabla leer_file_tag presentar leer_nodo
  pagina_en_tabla-presente s identificador ft j a p h k l m n =
      let f =
        le→ltb-false j (length ft.tabla_paginas)
          (omega (arith, lt_of_get_elem? ft.tabla_paginas j a l)) in
      rw (file_tag_en_memoria-conocido e s identificador ft h, k, f, k, f, k, l, m, n) refl
