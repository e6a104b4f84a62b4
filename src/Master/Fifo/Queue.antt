-- ===== src/Master/Fifo/Queue.antt =====
-- The ready list of the master (`querys_ready`) and its semaphore, under FIFO.
use tp_ssoo_2c.Base.{
  ℕ, ◌+◌, ◌-◌, ◌≡◌, refl, sym, ◌∙◌, true, false, none, List, [], ◌∷◌, ◌++◌, arith, length,
  length-append, ◌==◌, if◌then◌else◌, Bool-cases, inl, inr, ==_iff,
}
use tp_ssoo_2c.Master.{Query}
use tp_ssoo_2c.Master.Lists.{buscar_query, cambiar_query, quitar_query, contiene}
use tp_ssoo_2c.Master.Fifo.{en_espera}
use tp_ssoo_2c.Master.Fifo.Queries.{
  ids, Distintos, Hasta, Crecen, emparejar, Sobre-contiene, Hasta-suc, Hasta-append, Hasta-contiene,
  Crecen-append, contiene-append, en_espera-cambiar_query, en_espera-emparejar,
  en_espera-quitar_query, ids-cambiar_query, Distintos-quitar_query, Hasta-quitar_query,
}

-- The ready list holds the allocated queries without a worker, in the order in which they came, and
-- the semaphore counts them.
pub record Cola (ultimo : ℕ) (querys : List Query) (listas : List ℕ) (sem : ℕ) : Type 0 where
  pub esperan : (i : ℕ) → contiene i listas ≡ en_espera i querys
  pub distintas : Distintos (ids querys)
  pub viejas : Hasta ultimo (ids querys)
  pub en_orden : Crecen listas
  pub hasta : Hasta ultimo listas
  pub cuenta : sem ≡ length listas

pub vacia-Cola : (u : ℕ) → Cola u [] [] 0
unfolding contiene en_espera buscar_query
vacia-Cola u = record {
  esperan = λ i. refl;
  distintas = tt;
  viejas = tt;
  en_orden = tt;
  hasta = tt;
  cuenta = refl;
}

espera-llega :
    (i : ℕ) (q : Query) (qs : List Query)
    → q.worker ≡ none
    → en_espera i (q ∷ qs) ≡ (if q.id == i then true else en_espera i qs)
unfolding en_espera buscar_query
espera-llega i q qs w = ground arith

pub Cola-llega :
    (u : ℕ) (qs : List Query) (js : List ℕ) (n : ℕ) (q : Query)
    → q.worker ≡ none
    → q.id ≡ u + 1
    → Cola u qs js n
    → Cola (u + 1) (q ∷ qs) (js ++ (u + 1) ∷ []) (n + 1)
Cola-llega u qs js n q w e c = record {
  esperan =
      λ i. contiene-append i (u + 1) js ∙ sym (espera-llega i q qs w ∙ rw (e, sym (c.esperan i)));
  distintas = rw e (Hasta-contiene u (ids qs) c.viejas, c.distintas);
  viejas = (omega arith, Hasta-suc u (ids qs) c.viejas);
  en_orden = Crecen-append u js c.hasta c.en_orden;
  hasta = Hasta-append u js c.hasta;
  cuenta = omega (arith, length-append js ((u + 1) ∷ []), c.cuenta);
}

pub Cola-cambiar_query :
    (u : ℕ) (qs : List Query) (js : List ℕ) (n j : ℕ) (f : Query → Query)
    → ((k : Query) → ((f k).id ≡ k.id) × ((f k).worker ≡ k.worker))
    → Cola u qs js n
    → Cola u (cambiar_query j f qs) js n
Cola-cambiar_query u qs js n j f keep c =
    let e : ids (cambiar_query j f qs) ≡ ids qs = ids-cambiar_query j f qs (λ k. (keep k).0) in
    record {
      esperan = λ i. c.esperan i ∙ sym (en_espera-cambiar_query i j f qs keep);
      distintas = rw e c.distintas;
      viejas = rw e c.viejas;
      en_orden = c.en_orden;
      hasta = c.hasta;
      cuenta = c.cuenta;
    }

contiene-cola :
    (i q : ℕ) (js : List ℕ)
    → contiene q js ≡ false
    → contiene i js ≡ (if q == i then false else contiene i (q ∷ js))
unfolding contiene
contiene-cola i q js h = ground arith

-- The first of the list gets a worker.
pub Cola-emparejar :
    (u : ℕ) (qs : List Query) (js : List ℕ) (n q w : ℕ)
    → Cola u qs (q ∷ js) n
    → Cola u (cambiar_query q (emparejar w) qs) js (n - 1)
Cola-emparejar u qs js n q w c =
    let e : ids (cambiar_query q (emparejar w) qs) ≡ ids qs =
      ids-cambiar_query q (emparejar w) qs (λ k. refl) in
    record {
      esperan = λ i.
          contiene-cola i q js (Sobre-contiene q js c.en_orden.0)
          ∙ (rw (c.esperan i) refl ∙ sym (en_espera-emparejar i q w qs));
      distintas = rw e c.distintas;
      viejas = rw e c.viejas;
      en_orden = c.en_orden.1;
      hasta = c.hasta.1;
      cuenta = omega (arith, c.cuenta);
    }

-- A query that does not wait is freed.
pub Cola-quitar_query :
    (u : ℕ) (qs : List Query) (js : List ℕ) (n q : ℕ)
    → en_espera q qs ≡ false
    → Cola u qs js n
    → Cola u (quitar_query q qs) js n
Cola-quitar_query u qs js n q h c = record {
  esperan = λ i. c.esperan i ∙ sym (quitada i);
  distintas = Distintos-quitar_query q qs c.distintas;
  viejas = Hasta-quitar_query u q qs c.viejas;
  en_orden = c.en_orden;
  hasta = c.hasta;
  cuenta = c.cuenta;
}
  where
    quitada : (i : ℕ) → en_espera i (quitar_query q qs) ≡ en_espera i qs
    quitada i = elim (Bool-cases (q == i)) [
      | inl t ↦ en_espera-quitar_query i q qs c.distintas ∙ rw (t, sym h, (==_iff q i).0 t) refl
      | inr f ↦ en_espera-quitar_query i q qs c.distintas ∙ rw f refl
    ]
