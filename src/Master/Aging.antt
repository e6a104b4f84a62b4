-- ===== src/Master/Aging.antt =====
-- `actualizador` (master/src/master_aging.c), and the order of the ready list.
use tp_ssoo_2c.Base.{
  ℕ, ℤ, pos, predℤ, ltbℤ, ◌≤ℤ◌, ≤ℤ_of_ltbℤ-false, ◌≡◌, ◌≢◌, refl, ap, ◌∙◌, Bool, true, false, some,
  List, [], ◌∷◌, ◌==◌, arith, ==_iff, if◌then◌else◌, Bool-cases, inl, inr,
}
use tp_ssoo_2c.Master.{Query, Master, hecho, bind_hecho}
use tp_ssoo_2c.Master.Lists.{
  buscar_query, cambiar_query, list_remove_element, contiene, comparar, prioridad_opt, prioridad_de,
}
use tp_ssoo_2c.Master.Pairing.{buscar_query-cambiar_query}
use tp_ssoo_2c.Master.Util.{query_de}
use tp_ssoo_2c.Master.Priority.{Vuelta, termina, a_la_cabeza, con_check_prior, actualizador}

-- No element comes strictly before `i` in the order.
abbrev pub Ninguno : (ℕ → ℕ → Bool) → ℕ → List ℕ → Type 0
Ninguno antes i [] = Unit {0}
Ninguno antes i (j ∷ js) = (antes j i ≡ false) × Ninguno antes i js

abbrev pub Ordenada : (ℕ → ℕ → Bool) → List ℕ → Type 0
Ordenada antes [] = Unit {0}
Ordenada antes (i ∷ is) = Ninguno antes i is × Ordenada antes is

-- What the master relies on of `list_add_sorted` of the library: it adds the element to the list, and
-- keeps a list sorted whose comparator compares a number of its elements.
pub record ListAddSorted (list_add_sorted : (ℕ → ℕ → Bool) → ℕ → List ℕ → List ℕ) : Type 0 where
  pub agrega :
      (antes : ℕ → ℕ → Bool) (i j : ℕ) (is : List ℕ)
      → contiene j (list_add_sorted antes i is) ≡ (if i == j then true else contiene j is)
  pub ordena :
      (antes : ℕ → ℕ → Bool) (rango : ℕ → ℤ) (i : ℕ) (is : List ℕ)
      → ((j k : ℕ) → antes j k ≡ ltbℤ (rango j) (rango k))
      → Ordenada antes is
      → Ordenada antes (list_add_sorted antes i is)

Ninguno-remove :
    (antes : ℕ → ℕ → Bool) (q i : ℕ) (is : List ℕ)
    → Ninguno antes i is
    → Ninguno antes i (list_remove_element q is)
unfolding list_remove_element
Ninguno-remove antes q i [] h = tt
Ninguno-remove antes q i (j ∷ js) h = elim (Bool-cases (j == q)) [
  | inl t ↦ rw t h.1
  | inr f ↦ rw f (h.0, Ninguno-remove antes q i js h.1)
]

Ordenada-remove :
    (antes : ℕ → ℕ → Bool) (q : ℕ) (is : List ℕ)
    → Ordenada antes is
    → Ordenada antes (list_remove_element q is)
unfolding list_remove_element
Ordenada-remove antes q [] h = tt
Ordenada-remove antes q (j ∷ js) h = elim (Bool-cases (j == q)) [
  | inl t ↦ rw t h.1
  | inr f ↦ rw f (Ninguno-remove antes q j js h.0, Ordenada-remove antes q js h.1)
]

buscar_query-cambiar_query_ne :
    (q i : ℕ) (f : Query → Query) (qs : List Query)
    → ((k : Query) → (f k).id ≡ k.id)
    → q ≢ i
    → buscar_query i (cambiar_query q f qs) ≡ buscar_query i qs
unfolding buscar_query cambiar_query
buscar_query-cambiar_query_ne q i f [] keep n = refl
buscar_query-cambiar_query_ne q i f (k ∷ qs) keep n =
    ground (arith, keep k, buscar_query-cambiar_query_ne q i f qs keep n)

module _ (q : ℕ) (f : Query → Query) (qs : List Query) (keep : (k : Query) → (f k).id ≡ k.id) where
  prioridad_ne : (i : ℕ) → q ≢ i → prioridad_de (cambiar_query q f qs) i ≡ prioridad_de qs i
  unfolding prioridad_de
  prioridad_ne i n = ap prioridad_opt (buscar_query-cambiar_query_ne q i f qs keep n)

  comparar_ne : (i j : ℕ) → q ≢ i → q ≢ j → comparar (cambiar_query q f qs) i j ≡ comparar qs i j
  unfolding comparar
  comparar_ne i j a b = rw (prioridad_ne i a, prioridad_ne j b) refl

  distinto : (j : ℕ) (js : List ℕ) → contiene q (j ∷ js) ≡ false → (q ≢ j) × (contiene q js ≡ false)
  unfolding contiene
  distinto j js h = (ground arith, ground arith)

  Ninguno-cambiar :
      (i : ℕ) (is : List ℕ)
      → q ≢ i
      → contiene q is ≡ false
      → Ninguno (comparar qs) i is
      → Ninguno (comparar (cambiar_query q f qs)) i is
  Ninguno-cambiar i [] n c h = tt
  Ninguno-cambiar i (j ∷ js) n c h =
      let (a, b) = distinto j js c in (comparar_ne j i a n ∙ h.0, Ninguno-cambiar i js n b h.1)

  Ordenada-cambiar :
      (is : List ℕ)
      → contiene q is ≡ false
      → Ordenada (comparar qs) is
      → Ordenada (comparar (cambiar_query q f qs)) is
  Ordenada-cambiar [] c h = tt
  Ordenada-cambiar (j ∷ js) c h =
      let (a, b) = distinto j js c in (Ninguno-cambiar j js a b h.0, Ordenada-cambiar js b h.1)

comparar_rango :
    (qs : List Query) (j k : ℕ) → comparar qs j k ≡ ltbℤ (prioridad_de qs j) (prioridad_de qs k)
unfolding comparar
comparar_rango qs j k = refl

abbrev pub menos_uno : Query → Query
menos_uno k = record k { prioridad = predℤ k.prioridad }

module _ (las : (ℕ → ℕ → Bool) → ℕ → List ℕ → List ℕ) (s : Master) (q : ℕ) where
  sin_q : Master
  sin_q = record s { querys_ready = list_remove_element q s.querys_ready }

  bajada : Master
  bajada = record s {
    querys = cambiar_query q menos_uno s.querys;
    querys_ready =
        las (comparar (cambiar_query q menos_uno s.querys)) q
          (list_remove_element q s.querys_ready);
  }

  fuera_lem : contiene q s.querys_ready ≡ false → actualizador las q s ≡ hecho termina s
  unfolding actualizador
  fuera_lem c = rw (c, actualizador)

  leida :
      (query : Query) → buscar_query q s.querys ≡ some query → query_de q sin_q ≡ hecho query sin_q
  unfolding query_de sin_q
  leida query b = rw b

  baja_lem :
      (query : Query)
      → contiene q s.querys_ready ≡ true
      → buscar_query q s.querys ≡ some query
      → ltbℤ (pos 0) query.prioridad ≡ true
      → actualizador las q s ≡ hecho con_check_prior bajada
  unfolding actualizador bajada sin_q
  baja_lem query c b p =
      rw (c, actualizador) (bind_hecho (query_de q) _ sin_q sin_q query (leida query b) ∙ rw p)

  pierde_lem :
      (query : Query)
      → contiene q s.querys_ready ≡ true
      → buscar_query q s.querys ≡ some query
      → ltbℤ (pos 0) query.prioridad ≡ false
      → actualizador las q s ≡ hecho a_la_cabeza sin_q
  unfolding actualizador sin_q
  pierde_lem query c b p =
      rw (c, actualizador) (bind_hecho (query_de q) _ sin_q sin_q query (leida query b) ∙ rw p)

module _ (las : (ℕ → ℕ → Bool) → ℕ → List ℕ → List ℕ) (s : Master) (q : ℕ) (query : Query) where
  -- What a turn of the aging thread of `q` leaves, by its end. It returns where the query does not wait
  -- any more, and changes nothing. It calls `check_prior` where the query waits with a priority above
  -- 0: it still waits, one priority number lower. It goes back to its head where the query waits with a
  -- priority of 0 or below: the query is in no list then, while sem_ready still counts it, no other
  -- query and no worker has changed, and a next turn of the thread finds nothing to add.
  abbrev pub Envejece : Vuelta → Master → Type 0
  Envejece termina s' = (contiene q s.querys_ready ≡ false) × (s' ≡ s)
  Envejece con_check_prior s' =
      (contiene q s.querys_ready ≡ true)
      × (ltbℤ (pos 0) query.prioridad ≡ true)
      × (buscar_query q s'.querys ≡ some (menos_uno query))
      × (contiene q s'.querys_ready ≡ true)
  Envejece a_la_cabeza s' =
      (contiene q s.querys_ready ≡ true)
      × (query.prioridad ≤ℤ pos 0)
      × (contiene q s'.querys_ready ≡ false)
      × (s'.querys ≡ s.querys)
      × (s'.querys_exec ≡ s.querys_exec)
      × (s'.workers ≡ s.workers)
      × (s'.sem_ready ≡ s.sem_ready)
      × (actualizador las q s' ≡ hecho termina s')

-- One turn of the aging thread behind its pause, on a ready list that is sorted and holds the query at
-- most once, always ends and keeps the list sorted. Where the query does not wait any more the thread
-- returns and nothing has changed. Where it waits with a priority number above 0, it still waits, and
-- the number is one less. Where it waits with 0 or a negative number, it is taken out of the ready list
-- and put nowhere, while `sem_ready` still counts it, and a next turn of the thread just returns.
pub actualizador-Envejecida :
    (las : (ℕ → ℕ → Bool) → ℕ → List ℕ → List ℕ) (s : Master) (q : ℕ) (query : Query)
    → ListAddSorted las
    → Ordenada (comparar s.querys) s.querys_ready
    → contiene q (list_remove_element q s.querys_ready) ≡ false
    → buscar_query q s.querys ≡ some query
    → (v : Vuelta) × (s' : Master) × (actualizador las q s ≡ hecho v s')
      × Ordenada (comparar s'.querys) s'.querys_ready
      × Envejece las s q query v s'
unfolding bajada sin_q
actualizador-Envejecida las s q query l o u d = elim (Bool-cases (contiene q s.querys_ready)) [
  | inr f ↦ (termina, s, fuera_lem las s q f, o, (f, refl))
  | inl t ↦ elim (Bool-cases (ltbℤ (pos 0) query.prioridad)) [
    | inr z ↦ (
      a_la_cabeza,
      sin_q las s q,
      pierde_lem las s q query t d z,
      Ordenada-remove _ q s.querys_ready o,
      (
        t,
        ≤ℤ_of_ltbℤ-false query.prioridad (pos 0) z,
        u,
        refl,
        refl,
        refl,
        refl,
        fuera_lem las (sin_q las s q) q u,
      ),
    )
    | inl p ↦
        let keep : (k : Query) → (menos_uno k).id ≡ k.id = λ k. refl in
        (
          con_check_prior,
          bajada las s q,
          baja_lem las s q query t d p,
          l.ordena _ _ q _ (comparar_rango _) (
              Ordenada-cambiar q menos_uno s.querys keep _ u
                (Ordenada-remove _ q s.querys_ready o)),
          (
            t,
            p,
            buscar_query-cambiar_query q menos_uno s.querys query keep d,
            l.agrega _ q q _ ∙ rw ((==_iff q q).1 refl),
          ),
        )
  ]
]
