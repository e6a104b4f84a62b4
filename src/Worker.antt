-- ===== src/Worker.antt =====
-- worker/: the memory of a worker and the queries that it executes. A pointer to a page is the index
-- of its node in `paginas`, where a node that was freed is `none`; a pointer to a `file_tag` is the
-- number it got when it was allocated; a pointer to a frame is its index in the list `marco`.
pub mod Replacement
pub mod Machine
pub mod Tables
pub mod Evict
pub mod Frames
pub mod Pages
pub mod Interpreter
pub mod Parser
pub mod Loop
pub mod Main
pub mod Resume
pub mod Told
pub mod Touch
pub mod Free
pub mod Access
pub mod WriteRead
pub mod Flat
pub mod FlatRead
pub mod Blocks
pub mod Span
pub mod Patches
pub mod FlatTouch
pub mod FlatRest
pub mod FlatWrite
pub mod Missing
pub mod TagTable
pub mod Limits
pub mod Sizes
pub mod Syntax
pub mod Notify
pub mod Clean
pub mod Flushed
pub mod Victim
pub mod ClockVictim
pub mod Started
pub mod Fault
pub mod Peer
pub mod Kept
pub mod Lru
pub mod Ring
pub mod FirstPass
pub mod SecondPass
pub mod Clock
mod Tests
mod MemoryTests
mod QueryTests
mod EvictionTests
mod FlatTests
use Prim.Native.String.{String}
use tp_ssoo_2c.Base.{
  ℕ, zero, suc, ◌+◌, Bool, true, false, Option, none, some, List, [], ◌∷◌, ◌++◌, length, get_elem?,
  set, drop, take,
}

-- The `nro_marco` of -1 of a page that was never loaded is `none`.
pub record NodoPagina : Type 0 where
  pub nro_pagina : ℕ
  pub nro_marco : Option ℕ
  pub modificado : Bool
  pub uso : Bool
  pub presencia : Bool

pub record FileTag : Type 0 where
  pub direccion : ℕ
  pub identificador : String
  pub cantidad_paginas : ℕ
  pub tabla_paginas : List ℕ

-- The bytes of the frame stand in `puntero_marco`; its `pagina` is `none` until it is first set.
pub record NodoMarco : Type 0 where
  pub identificador : String
  pub puntero_marco : List ℕ
  pub pagina : Option ℕ
  pub time : ℕ

pub record Memoria : Type 0 where
  pub marco : List NodoMarco
  pub victima_clock : ℕ
  pub paginas : List (Option NodoPagina)
  pub file_tag_pages : List FileTag
  -- how many `file_tag` were allocated
  pub asignados : ℕ
  pub bit_map : List Bool
  pub tam_pagina : ℕ
  -- how often `cronometro` was read
  pub lecturas : ℕ

-- `none` twice: no such node, and a node that was freed.
abbrev pub vivo : Option (Option NodoPagina) → Option NodoPagina
vivo none = none
vivo (some o) = o

-- A read through a pointer to a page.
unfoldable pub nodo : List (Option NodoPagina) → ℕ → Option NodoPagina
nodo paginas a = vivo (get_elem? paginas a)

-- The pointer `pagina` of the frame `i`.
abbrev pub pagina_de : Option NodoMarco → Option ℕ
pagina_de none = none
pagina_de (some m) = m.pagina

abbrev pub nodo_opt : List (Option NodoPagina) → Option ℕ → Option NodoPagina
nodo_opt paginas none = none
nodo_opt paginas (some a) = nodo paginas a

-- `marco[i]->pagina`, read.
unfoldable pub pagina_en : ℕ → Memoria → Option NodoPagina
unfolding nodo
pagina_en i s = nodo_opt s.paginas (pagina_de (get_elem? s.marco i))

abbrev pub poner_opt : List (Option NodoPagina) → Option ℕ → NodoPagina → List (Option NodoPagina)
poner_opt paginas none p = paginas
poner_opt paginas (some a) p = set paginas a (some p)

-- `*marco[i]->pagina` with a field assigned.
unfoldable pub poner_en : ℕ → NodoPagina → Memoria → Memoria
poner_en i p s = record s { paginas = poner_opt s.paginas (pagina_de (get_elem? s.marco i)) p }
