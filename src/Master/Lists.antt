-- ===== src/Master/Lists.antt =====
-- The lists of the master: lookup and change through a pointer, `list_remove_element`. The library's
-- `list_add_sorted` is a parameter; what the scheduler relies on is its record here.
use tp_ssoo_2c.Base.{
  ℤ, pos, ltbℤ, ℕ, Bool, true, false, Option, none, some, List, [], ◌∷◌, ◌==◌, if◌then◌else◌,
}
use tp_ssoo_2c.Master.{Query, Worker}

unfoldable pub buscar_query : ℕ → List Query → Option Query
buscar_query i [] = none
buscar_query i (q ∷ qs) = if q.id == i then some q else buscar_query i qs

unfoldable pub cambiar_query : ℕ → (Query → Query) → List Query → List Query
cambiar_query i f [] = []
cambiar_query i f (q ∷ qs) = if q.id == i then f q ∷ qs else q ∷ cambiar_query i f qs

unfoldable pub quitar_query : ℕ → List Query → List Query
quitar_query i [] = []
quitar_query i (q ∷ qs) = if q.id == i then qs else q ∷ quitar_query i qs

unfoldable pub buscar_worker : ℕ → List Worker → Option Worker
buscar_worker i [] = none
buscar_worker i (w ∷ ws) = if w.id == i then some w else buscar_worker i ws

unfoldable pub cambiar_worker : ℕ → (Worker → Worker) → List Worker → List Worker
cambiar_worker i f [] = []
cambiar_worker i f (w ∷ ws) = if w.id == i then f w ∷ ws else w ∷ cambiar_worker i f ws

unfoldable pub quitar_worker : ℕ → List Worker → List Worker
quitar_worker i [] = []
quitar_worker i (w ∷ ws) = if w.id == i then ws else w ∷ quitar_worker i ws

-- `list_remove_element`: the list without the first occurrence, and whether there was one.
unfoldable pub list_remove_element : ℕ → List ℕ → List ℕ
list_remove_element i [] = []
list_remove_element i (j ∷ js) = if j == i then js else j ∷ list_remove_element i js

unfoldable pub contiene : ℕ → List ℕ → Bool
contiene i [] = false
contiene i (j ∷ js) = if j == i then true else contiene i js

-- `priority_comparator` on two queries that are allocated.
unfoldable pub priority_comparator : Query → Query → Bool
unfolding ltbℤ
priority_comparator a b = ltbℤ a.prioridad b.prioridad

-- The same on pointers. The lists hold allocated queries alone; the 0 of a query that is gone
-- stands for the read of freed memory.
abbrev pub prioridad_opt : Option Query → ℤ
prioridad_opt (some q) = q.prioridad
prioridad_opt none = pos 0

unfoldable pub prioridad_de : List Query → ℕ → ℤ
prioridad_de qs i = prioridad_opt (buscar_query i qs)

unfoldable pub comparar : List Query → ℕ → ℕ → Bool
unfolding prioridad_de
comparar qs i j = ltbℤ (prioridad_de qs i) (prioridad_de qs j)
