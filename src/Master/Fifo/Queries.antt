-- ===== src/Master/Fifo/Queries.antt =====
-- The ready list against the allocated queries, under FIFO.
use tp_ssoo_2c.Base.{
  ℕ, ◌+◌, ◌≤◌, ◌<◌, ◌≡◌, refl, true, false, none, some, List, [], ◌∷◌, ◌++◌, arith, ◌==◌,
  if◌then◌else◌, Bool-cases, inl, inr, Option-cases,
}
use tp_ssoo_2c.Master.{Query, exec}
use tp_ssoo_2c.Master.Lists.{buscar_query, cambiar_query, quitar_query, contiene}
use tp_ssoo_2c.Master.Fifo.{en_espera}

abbrev pub ids : List Query → List ℕ
ids [] = []
ids (k ∷ ks) = k.id ∷ ids ks

abbrev pub Distintos : List ℕ → Type 0
Distintos [] = Unit
Distintos (x ∷ xs) = (contiene x xs ≡ false) × Distintos xs

abbrev pub Hasta : ℕ → List ℕ → Type 0
Hasta u [] = Unit
Hasta u (x ∷ xs) = (x ≤ u) × Hasta u xs

abbrev pub Sobre : ℕ → List ℕ → Type 0
Sobre u [] = Unit
Sobre u (x ∷ xs) = (u < x) × Sobre u xs

abbrev pub Crecen : List ℕ → Type 0
Crecen [] = Unit
Crecen (x ∷ xs) = Sobre x xs × Crecen xs

pub Hasta-suc : (u : ℕ) (xs : List ℕ) → Hasta u xs → Hasta (u + 1) xs
Hasta-suc u [] h = tt
Hasta-suc u (x ∷ xs) (h, hs) = (omega arith, Hasta-suc u xs hs)

pub Hasta-append : (u : ℕ) (xs : List ℕ) → Hasta u xs → Hasta (u + 1) (xs ++ (u + 1) ∷ [])
Hasta-append u [] h = (omega arith, tt)
Hasta-append u (x ∷ xs) (h, hs) = (omega arith, Hasta-append u xs hs)

pub Hasta-contiene : (u : ℕ) (xs : List ℕ) → Hasta u xs → contiene (u + 1) xs ≡ false
unfolding contiene
Hasta-contiene u [] h = refl
Hasta-contiene u (x ∷ xs) (h, hs) = ground (arith, Hasta-contiene u xs hs)

Sobre-append : (u v : ℕ) (xs : List ℕ) → u < v → Sobre u xs → Sobre u (xs ++ v ∷ [])
Sobre-append u v [] l h = (l, tt)
Sobre-append u v (x ∷ xs) l (h, hs) = (h, Sobre-append u v xs l hs)

pub Sobre-contiene : (u : ℕ) (xs : List ℕ) → Sobre u xs → contiene u xs ≡ false
unfolding contiene
Sobre-contiene u [] h = refl
Sobre-contiene u (x ∷ xs) (h, hs) = ground (arith, Sobre-contiene u xs hs)

pub Sobre-menor : (u i : ℕ) (xs : List ℕ) → Sobre u xs → contiene i xs ≡ true → u < i
unfolding contiene
Sobre-menor u i [] h c = absurd (ground arith)
Sobre-menor u i (x ∷ xs) (h, hs) c = ground (arith, Sobre-menor u i xs hs)

-- The first of a growing list is the least.
pub Crecen-primero : (x i : ℕ) (xs : List ℕ) → Crecen (x ∷ xs) → contiene i (x ∷ xs) ≡ true → x ≤ i
unfolding contiene
Crecen-primero x i xs (h, hs) c = ground (arith, Sobre-menor x i xs h)

pub contiene-primero : (x : ℕ) (xs : List ℕ) → contiene x (x ∷ xs) ≡ true
unfolding contiene
contiene-primero x xs = ground arith

pub en_espera-Query :
    (i : ℕ) (qs : List Query)
    → en_espera i qs ≡ true
    → (k : Query) × (buscar_query i qs ≡ some k) × (k.worker ≡ none)
unfolding en_espera
en_espera-Query i qs h = elim (Option-cases (buscar_query i qs)) [
  | inl n ↦ absurd (ground (arith, n))
  | inr (k, e) ↦ (k, e, ground (arith, e, h))
]

pub Crecen-append : (u : ℕ) (xs : List ℕ) → Hasta u xs → Crecen xs → Crecen (xs ++ (u + 1) ∷ [])
Crecen-append u [] h c = (tt, tt)
Crecen-append u (x ∷ xs) (h, hs) (c, cs) =
    (Sobre-append x (u + 1) xs (omega arith) c, Crecen-append u xs hs cs)

pub contiene-append :
    (i j : ℕ) (xs : List ℕ) → contiene i (xs ++ j ∷ []) ≡ (if j == i then true else contiene i xs)
unfolding contiene
contiene-append i j [] = refl
contiene-append i j (x ∷ xs) = ground (arith, contiene-append i j xs)

en_espera-fuera : (i : ℕ) (qs : List Query) → contiene i (ids qs) ≡ false → en_espera i qs ≡ false
unfolding en_espera buscar_query contiene
en_espera-fuera i [] h = refl
en_espera-fuera i (k ∷ ks) h = ground (arith, en_espera-fuera i ks)

pub en_espera-cambiar_query :
    (i j : ℕ) (f : Query → Query) (qs : List Query)
    → ((k : Query) → ((f k).id ≡ k.id) × ((f k).worker ≡ k.worker))
    → en_espera i (cambiar_query j f qs) ≡ en_espera i qs
unfolding en_espera buscar_query cambiar_query
en_espera-cambiar_query i j f [] keep = refl
en_espera-cambiar_query i j f (k ∷ ks) keep =
    ground (arith, keep k, en_espera-cambiar_query i j f ks keep)

abbrev pub emparejar : ℕ → Query → Query
emparejar w k = record k { worker = some w; state = exec }

pub en_espera-emparejar :
    (i j w : ℕ) (qs : List Query)
    → en_espera i (cambiar_query j (emparejar w) qs) ≡ (if j == i then false else en_espera i qs)
unfolding en_espera buscar_query cambiar_query
en_espera-emparejar i j w [] = ground arith
en_espera-emparejar i j w (k ∷ ks) = ground (arith, en_espera-emparejar i j w ks)

pub en_espera-quitar_query :
    (i j : ℕ) (qs : List Query)
    → Distintos (ids qs)
    → en_espera i (quitar_query j qs) ≡ (if j == i then false else en_espera i qs)
unfolding en_espera buscar_query quitar_query
en_espera-quitar_query i j [] d = ground arith
en_espera-quitar_query i j (k ∷ ks) (d, ds) =
    ground (arith, en_espera-quitar_query i j ks ds, en_espera-fuera k.id ks d, en_espera)

pub ids-cambiar_query :
    (j : ℕ) (f : Query → Query) (qs : List Query)
    → ((k : Query) → (f k).id ≡ k.id)
    → ids (cambiar_query j f qs) ≡ ids qs
unfolding cambiar_query
ids-cambiar_query j f [] keep = refl
ids-cambiar_query j f (k ∷ ks) keep = ground (arith, keep k, ids-cambiar_query j f ks keep)

contiene-quitar_query :
    (i j : ℕ) (qs : List Query)
    → contiene i (ids qs) ≡ false
    → contiene i (ids (quitar_query j qs)) ≡ false
unfolding contiene quitar_query
contiene-quitar_query i j [] h = refl
contiene-quitar_query i j (k ∷ ks) h = ground (arith, contiene-quitar_query i j ks)

pub Distintos-quitar_query :
    (j : ℕ) (qs : List Query) → Distintos (ids qs) → Distintos (ids (quitar_query j qs))
unfolding quitar_query
Distintos-quitar_query j [] d = tt
Distintos-quitar_query j (k ∷ ks) (d, ds) = elim (Bool-cases (k.id == j)) [
  | inl t ↦ rw t ds
  | inr f ↦ rw f (contiene-quitar_query k.id j ks d, Distintos-quitar_query j ks ds)
]

pub Hasta-quitar_query :
    (u j : ℕ) (qs : List Query) → Hasta u (ids qs) → Hasta u (ids (quitar_query j qs))
unfolding quitar_query
Hasta-quitar_query u j [] h = tt
Hasta-quitar_query u j (k ∷ ks) (h, hs) = elim (Bool-cases (k.id == j)) [
  | inl t ↦ rw t hs
  | inr f ↦ rw f (h, Hasta-quitar_query u j ks hs)
]
