-- ===== src/Master/Tests.antt =====
-- A master with two queries and one worker, and the theorems at it.
use tp_ssoo_2c.Base.{
  ℤ, pos, negsuc, ltbℤ, ◌≤ℤ◌, ◌⊎◌, zero, suc, ℕ, ≤ℤ_trans, ≤ℤ_of_ltbℤ, ◌≡◌, refl, sym, ◌∙◌, Bool,
  true, false, none, some, List, [], ◌∷◌, ◌==◌, arith, if◌then◌else◌, Bool-cases, inl, inr,
}
use tp_ssoo_2c.Master.{ready, exec, Worker, Query, Master, hecho}
use tp_ssoo_2c.Master.Lists.{
  buscar_query, buscar_worker, list_remove_element, contiene, comparar, prioridad_de,
}
use tp_ssoo_2c.Master.Util.{primer_libre, es_ready, process_handler, buscar_victima}
use tp_ssoo_2c.Master.Priority.{Vuelta, actualizador, pedir_desalojo}
use tp_ssoo_2c.Master.Preempt.{Pedido, NoPedido, pedir_desalojo-Decide}
use tp_ssoo_2c.Master.Pairing.{Emparejada, process_handler-Emparejada}
use tp_ssoo_2c.Master.Worst.{Desalojable}
use tp_ssoo_2c.Master.Victim.{UnaDe, Asignada, buscar_victima_max}
use tp_ssoo_2c.Master.Aging.{Ninguno, Ordenada, ListAddSorted, Envejece, actualizador-Envejecida}

-- The insertion before the first element that the new one precedes.
abbrev insertar : (ℕ → ℕ → Bool) → ℕ → List ℕ → List ℕ
insertar antes i [] = i ∷ []
insertar antes i (j ∷ js) = if antes i j then i ∷ j ∷ js else j ∷ insertar antes i js

contiene-insertar :
    (antes : ℕ → ℕ → Bool) (i j : ℕ) (is : List ℕ)
    → contiene j (insertar antes i is) ≡ (if i == j then true else contiene j is)
unfolding contiene
contiene-insertar antes i j [] = refl
contiene-insertar antes i j (k ∷ ks) = ground (arith, contiene-insertar antes i j ks)

module _ (antes : ℕ → ℕ → Bool) (rango : ℕ → ℤ)
    (mide : (j k : ℕ) → antes j k ≡ ltbℤ (rango j) (rango k)) where
  Ninguno-antes :
      (i j : ℕ) (js : List ℕ) → antes i j ≡ true → Ninguno antes j js → Ninguno antes i js
  unfolding ◌≤ℤ◌
  Ninguno-antes i j [] h n = tt
  Ninguno-antes i j (k ∷ ks) h (n, ns) = (
    mide k i
        ∙ ≤ℤ_trans (rango i) (rango j) (rango k)
            (≤ℤ_of_ltbℤ (rango i) (rango j) (sym (mide i j) ∙ h)) (sym (mide k j) ∙ n),
    Ninguno-antes i j ks h ns,
  )

  Ninguno-insertar :
      (i j : ℕ) (js : List ℕ)
      → antes i j ≡ false
      → Ninguno antes j js
      → Ninguno antes j (insertar antes i js)
  Ninguno-insertar i j [] h n = (h, tt)
  Ninguno-insertar i j (k ∷ ks) h (n, ns) = elim (Bool-cases (antes i k)) [
    | inl t ↦ rw t (h, (n, ns))
    | inr f ↦ rw f (n, Ninguno-insertar i j ks h ns)
  ]

  Ordenada-insertar :
      (i : ℕ) (is : List ℕ) → Ordenada antes is → Ordenada antes (insertar antes i is)
  unfolding ◌≤ℤ◌
  Ordenada-insertar i [] o = (tt, tt)
  Ordenada-insertar i (j ∷ js) (n, o) = elim (Bool-cases (antes i j)) [
    | inl t ↦ rw t (
      (mide j i ∙ ≤ℤ_of_ltbℤ (rango i) (rango j) (sym (mide i j) ∙ t), Ninguno-antes i j js t n),
      (n, o),
    )
    | inr f ↦ rw f (Ninguno-insertar i j js f n, Ordenada-insertar i js o)
  ]

insertar-ListAddSorted : ListAddSorted insertar
insertar-ListAddSorted = record {
  agrega = contiene-insertar;
  ordena = λ antes rango i is h o. Ordenada-insertar antes rango h i is o;
}

abbrev query_1 : Query
query_1 = record {
  id = 1;
  pc = 4;
  file = "uno";
  prioridad = pos 3;
  interrumpir = false;
  worker = none;
  state = ready;
}

abbrev query_2 : Query
query_2 = record {
  id = 2;
  pc = 0;
  file = "dos";
  prioridad = pos 5;
  interrumpir = false;
  worker = none;
  state = ready;
}

-- A query that waits, with a priority before the others.
abbrev query_3 : Query
query_3 = record {
  id = 3;
  pc = 0;
  file = "tres";
  prioridad = negsuc 1;
  interrumpir = false;
  worker = none;
  state = ready;
}

abbrev worker_7 : Worker
worker_7 = record {
  id = 7;
  interrumpir = false;
  error_at_exec = false;
  sem_interrupt = 0;
  state = ready;
  query = none;
}

abbrev inicial : Master
inicial = record {
  algoritmo = "PRIORIDADES";
  tiempo_aging = 100;
  ultimo_id = 2;
  querys = query_1 ∷ query_2 ∷ [];
  workers = worker_7 ∷ [];
  querys_ready = 1 ∷ 2 ∷ [];
  querys_exec = [];
  sem_ready = 2;
  sem_workers = 1;
  sem_int = 0;
  sem_check_prior = 1;
  sem_asign = 0;
  signal_asign = false;
  hilos_aging = 1 ∷ 2 ∷ [];
  envios = [];
}

process_handler-Emparejada_example :
    (s' : Master) × (process_handler inicial ≡ hecho tt s')
    × Emparejada inicial s' 1 7 query_1 (2 ∷ [])
unfolding buscar_query buscar_worker primer_libre es_ready
process_handler-Emparejada_example =
    process_handler-Emparejada inicial 1 (2 ∷ []) query_1 worker_7 (ground arith) (ground arith)
      refl refl refl refl

abbrev ejecutandose : Master
ejecutandose = record inicial {
  querys =
      record query_1 { worker = some 7; state = exec }
      ∷ record query_2 { worker = some 8; state = exec }
      ∷ query_3
      ∷ [];
  workers =
      record worker_7 { query = some 1; state = exec }
      ∷ record worker_7 { id = 8; query = some 2; state = exec }
      ∷ [];
  querys_ready = 3 ∷ [];
  querys_exec = 1 ∷ 2 ∷ [];
}

asignadas : (q : ℕ) → contiene q (1 ∷ 2 ∷ []) ≡ true → Asignada ejecutandose q
unfolding contiene buscar_query buscar_worker
asignadas zero c = absurd (ground arith)
asignadas (suc zero) c = record {
  query = record query_1 { worker = some 7; state = exec };
  worker = record worker_7 { query = some 1; state = exec };
  w = 7;
  asignada = refl;
  suya = refl;
  de_ella = refl;
}
asignadas (suc (suc zero)) c = record {
  query = record query_2 { worker = some 8; state = exec };
  worker = record worker_7 { id = 8; query = some 2; state = exec };
  w = 8;
  asignada = refl;
  suya = refl;
  de_ella = refl;
}
asignadas (suc (suc (suc q))) c = absurd (ground arith)

buscar_victima_max_example :
    (v : Query) × (buscar_victima ejecutandose ≡ hecho (some v) ejecutandose)
    × ((buscar_query 1 ejecutandose.querys ≡ some v) ⊎ UnaDe ejecutandose (2 ∷ []) v)
    × ((q : ℕ) (d : Desalojable ejecutandose q)
        → contiene q (1 ∷ 2 ∷ []) ≡ true
        → d.query.prioridad ≤ℤ v.prioridad)
buscar_victima_max_example = buscar_victima_max ejecutandose 1 (2 ∷ []) refl asignadas

pedir_desalojo-Decide_example :
    (s' : Master) × (((pedir_desalojo (some 3) ejecutandose ≡ hecho true s')
        × Pedido ejecutandose 1 (2 ∷ []) query_3 s')
      ⊎ ((pedir_desalojo (some 3) ejecutandose ≡ hecho false s')
          × NoPedido ejecutandose 1 (2 ∷ []) query_3 s'))
unfolding buscar_query
pedir_desalojo-Decide_example =
    pedir_desalojo-Decide ejecutandose 1 3 (2 ∷ []) query_3 refl asignadas refl

-- The query 1 comes with the priority -1 here.
abbrev negativa : Query
negativa = record query_1 { prioridad = negsuc 0 }

abbrev con_negativa : Master
con_negativa = record inicial { querys = negativa ∷ query_2 ∷ [] }

actualizador-Envejecida_example :
    (v : Vuelta) × (s' : Master) × (actualizador insertar 1 con_negativa ≡ hecho v s')
    × Ordenada (comparar s'.querys) s'.querys_ready
    × Envejece insertar con_negativa 1 negativa v s'
unfolding comparar prioridad_de buscar_query contiene list_remove_element ltbℤ
actualizador-Envejecida_example =
    actualizador-Envejecida insertar con_negativa 1 negativa insertar-ListAddSorted
      ((refl, tt), (tt, tt)) refl refl
