-- ===== src/Worker/Replacement.antt =====
-- worker/src/algoritmos_reemplazo.c: which frame of the memory is given to a new page.
use tp_ssoo_2c.Base.{
  ℕ, zero, suc, ◌+◌, Bool, true, false, not, ◌&&◌, Option, none, some, List, [], ◌∷◌, length, ◌==◌,
  ltb, if◌then◌else◌,
}
use tp_ssoo_2c.Worker.{NodoPagina, NodoMarco, Memoria, pagina_en, poner_en}

-- The loop of algoritmo_LRU: the victim so far, and the other frames.
unfoldable pub recorrer_marcos : NodoMarco → List NodoMarco → NodoMarco
recorrer_marcos victima [] = victima
recorrer_marcos victima (m ∷ ms) =
    recorrer_marcos (if ltb m.time victima.time then m else victima) ms

-- The victim of algoritmo_LRU; no frame at all gives the NULL of `list_get`.
unfoldable pub victima_lru : List NodoMarco → Option NodoMarco
unfolding recorrer_marcos
victima_lru [] = none
victima_lru (m ∷ ms) = some (recorrer_marcos m ms)

unfoldable pub mover_puntero_clock : ℕ → Memoria → Memoria
mover_puntero_clock nro_marco s = record s {
  victima_clock = if nro_marco == length s.marco then 0 else nro_marco;
}

-- `nro_marco + 1`.
abbrev pub siguiente : NodoPagina → ℕ
siguiente p = elim p.nro_marco [ none ↦ 0 | some i ↦ i + 1 ]

-- `!uso && !modificado`.
abbrev pub sin_uso_ni_cambios : NodoPagina → Bool
sin_uso_ni_cambios p = not p.uso && not p.modificado

-- `!uso && modificado`.
abbrev pub sin_uso : NodoPagina → Bool
sin_uso p = not p.uso && p.modificado

abbrev pub quitar_uso : NodoPagina → NodoPagina
quitar_uso p = record p { uso = false }

-- The first `for` of algoritmo_CLOCK_M, by the rounds that are left: whether it found a victim, which
-- `victima_clock` points to then. A pointer that is NULL is a fault, `none`.
unfoldable pub primera_vuelta : ℕ → Memoria → Option (Bool × Memoria)
unfolding mover_puntero_clock
primera_vuelta zero s = some (false, s)
primera_vuelta (suc n) s = elim (pagina_en s.victima_clock s) [
  | none ↦ none
  | some p ↦
      if sin_uso_ni_cambios p
      then some (true, s)
      else primera_vuelta n (mover_puntero_clock (siguiente p) s)
]

-- The second `for`, which takes the use bit from what it passes.
unfoldable pub segunda_vuelta : ℕ → Memoria → Option (Bool × Memoria)
unfolding mover_puntero_clock
segunda_vuelta zero s = some (false, s)
segunda_vuelta (suc n) s = elim (pagina_en s.victima_clock s) [
  | none ↦ none
  | some p ↦
      if sin_uso p
      then some (true, s)
      else segunda_vuelta n
          (mover_puntero_clock (siguiente p) (poner_en s.victima_clock (quitar_uso p) s))
]

-- What follows a `for` that ended: the state where it found a victim, else what comes next.
abbrev pub o_sigue : (Memoria → Option Memoria) → Option (Bool × Memoria) → Option Memoria
o_sigue k none = none
o_sigue k (some (true, s)) = some s
o_sigue k (some (false, s)) = k s

-- The `while` of algoritmo_CLOCK_M, on fuel; it ends with `victima_clock` at the victim.
unfoldable pub buscar_clock : ℕ → Memoria → Option Memoria
unfolding primera_vuelta segunda_vuelta
buscar_clock zero s = none
buscar_clock (suc fuel) s =
    o_sigue (λ t. o_sigue (buscar_clock fuel) (segunda_vuelta (length t.marco) t))
      (primera_vuelta (length s.marco) s)

-- Two rounds of the `while`.
unfoldable pub victima_clock_m : Memoria → Option Memoria
unfolding buscar_clock
victima_clock_m s = buscar_clock 2 s
