-- ===== src/Worker/Frames.antt =====
-- worker/src/memoria.c: the frames of the memory.
use tp_ssoo_2c.Base.{
  ℕ, zero, suc, ◌+◌, ◌-◌, ◌*◌, ◌/◌, Bool, true, false, Option, none, some, List, [], ◌∷◌, ◌++◌,
  length, get_elem?, set, take, drop, replicate, ◌==◌, if◌then◌else◌,
}
use tp_ssoo_2c.Worker.{NodoMarco, Memoria}
use tp_ssoo_2c.Worker.Machine.{Entorno, M, ◌>>=◌, ◌>>◌, pure, get, modificar, o_fallo}

-- memcpy to an offset of a buffer.
unfoldable pub pisar : ℕ → List ℕ → List ℕ → List ℕ
pisar direccion datos destino =
    take direccion destino ++ (datos ++ drop (direccion + length datos) destino)

-- `(int)ceil((double)n/tam)`.
abbrev pub ceil : ℕ → ℕ → ℕ
ceil n tam = (n + tam - 1) / tam

-- The frames that are still to be made, over the memory that is left. Of a node that malloc returns the
-- pointer alone is set: its other fields hold what `malloc_nodo` says was there.
unfoldable pub crear_marcos : (ℕ → NodoMarco) → ℕ → ℕ → List ℕ → List NodoMarco
crear_marcos malloc_nodo zero tam memoria = []
crear_marcos malloc_nodo (suc n) tam memoria =
    record (malloc_nodo n) { puntero_marco = take tam memoria }
    ∷ crear_marcos malloc_nodo n tam (drop tam memoria)

unfoldable pub memoria_inicial : (ℕ → NodoMarco) → List ℕ → ℕ → ℕ → Memoria
unfolding crear_marcos
memoria_inicial malloc_nodo memoria tam_memoria tam_pagina = record {
  marco = crear_marcos malloc_nodo (tam_memoria / tam_pagina) tam_pagina memoria;
  victima_clock = 0;
  paginas = [];
  file_tag_pages = [];
  asignados = 0;
  bit_map = replicate ((tam_memoria / tam_pagina + 7) / 8 * 8) false;
  tam_pagina = tam_pagina;
  lecturas = 0;
}

-- A page size of 0 faults.
unfoldable pub init_memoria : (ℕ → NodoMarco) → List ℕ → ℕ → ℕ → Option Memoria
unfolding memoria_inicial
init_memoria malloc_nodo memoria tam_memoria tam_pagina =
    if tam_pagina == 0
    then none
    else some (memoria_inicial malloc_nodo memoria tam_memoria tam_pagina)

-- The loop of marco_libre: the index, the rounds left, and the bits from there. The -1 is `none`.
unfoldable pub libre_desde : ℕ → ℕ → List Bool → Option ℕ
libre_desde i zero bits = none
libre_desde i (suc n) [] = none
libre_desde i (suc n) (b ∷ bits) = if b then libre_desde (i + 1) n bits else some i

unfoldable pub marco_libre : Memoria → Option ℕ
unfolding libre_desde
marco_libre s = libre_desde 0 (length s.marco) s.bit_map

module _ {S : Type 0} where
  unfoldable pub leer_marco : Option ℕ → M S NodoMarco
  leer_marco none = o_fallo none
  leer_marco (some i) = do s ← get; o_fallo (get_elem? s.marco i)

  -- Fields of `*marco[i]` are assigned.
  unfoldable pub cambiar_marco : Option ℕ → (NodoMarco → NodoMarco) → M S (Unit {0})
  cambiar_marco none f = o_fallo none
  cambiar_marco (some i) f = do
    s ← get
    m ← o_fallo (get_elem? s.marco i)
    modificar λ t. record t { marco = set t.marco i (f m) }

  unfoldable pub bitarray_set_bit : ℕ → M S (Unit {0})
  bitarray_set_bit i = modificar λ s. record s { bit_map = set s.bit_map i true }

module _ (e : Entorno) where
  -- The use of a frame is dated for LRU.
  unfoldable pub fechar : Option ℕ → M e.almacen.State (Unit {0})
  unfolding cambiar_marco
  fechar i =
      if e.string_equals_ignore_case e.algoritmo_reemplazo "LRU"
      then (do
        s ← get
        modificar λ t. record t { lecturas = t.lecturas + 1 }
        cambiar_marco i λ m. record m { time = e.temporal_gettime s.lecturas })
      else pure tt

  -- interaccion_con_memoria towards a frame, and from one.
  unfoldable pub interaccion_escritura : Option ℕ → ℕ → List ℕ → M e.almacen.State (Unit {0})
  unfolding cambiar_marco fechar pisar
  interaccion_escritura i direccion datos = do
    cambiar_marco i λ m. record m { puntero_marco = pisar direccion datos m.puntero_marco }
    fechar i

  unfoldable pub interaccion_lectura : Option ℕ → ℕ → ℕ → M e.almacen.State (List ℕ)
  unfolding leer_marco fechar
  interaccion_lectura i direccion size = do
    m ← leer_marco i
    fechar i
    pure (take size (drop direccion m.puntero_marco))
