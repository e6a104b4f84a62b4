-- ===== src/Master/Fifo/Round.antt =====
-- Every outcome of a round of `process_handler` (process_handler.c) from a state with the invariant.
use Prim.Native.String.{String}
use tp_ssoo_2c.Base.{
  ℕ, zero, suc, ◌≡◌, ◌≢◌, ◌≤◌, ◌⊎◌, inl, inr, refl, sym, ◌∙◌, Bool, true, false, some, none, List,
  [], ◌∷◌, arith, length, ne→==,
}
use tp_ssoo_2c.Master.{Query, Worker, Master, Paso, hecho, espera, bind_espera}
use tp_ssoo_2c.Master.Lists.{buscar_query, contiene}
use tp_ssoo_2c.Master.Util.{primer_libre, buscar_worker_libre, esperar_par, process_handler}
use tp_ssoo_2c.Master.Pairing.{
  Emparejada, process_handler-tras_aviso, tras_aviso-Emparejada, tras_aviso,
}
use tp_ssoo_2c.Master.Fifo.{en_espera}
use tp_ssoo_2c.Master.Fifo.Queries.{Crecen-primero, contiene-primero, en_espera-Query}
use tp_ssoo_2c.Master.Fifo.Workers.{primer_libre-none, primer_libre-hay, buscar_worker-primer_libre}
use tp_ssoo_2c.Master.Fifo.Invariant.{Ordenado}
use tp_ssoo_2c.Master.Fifo.Dealt.{tras_aviso-Ordenado}

-- The round ends: it takes the query that came first of those that wait, and a free worker.
pub record Atendida (s : Master) : Type 0 where
  pub q : ℕ
  pub worker : Worker
  pub query : Query
  pub resto : List ℕ
  pub s' : Master
  pub termina : process_handler s ≡ hecho tt s'
  pub emparejada : Emparejada s s' q worker.id query resto
  pub libre : buscar_worker_libre s ≡ some worker
  pub esperaba : en_espera q s.querys ≡ true
  pub primera : (i : ℕ) → en_espera i s.querys ≡ true → q ≤ i

-- The round waits, and no query waits or no worker is free.
pub record EnPausa (s : Master) : Type 0 where
  pub pausa : process_handler s ≡ espera
  pub nadie : ((i : ℕ) → en_espera i s.querys ≡ false) ⊎ (buscar_worker_libre s ≡ none)

lista_vacia : (xs : List ℕ) → length xs ≡ 0 → xs ≡ []
lista_vacia [] h = refl
lista_vacia (x ∷ xs) h = absurd (omega arith)

pub lista_cons : (xs : List ℕ) → length xs ≢ 0 → (x : ℕ) × (ys : List ℕ) × (xs ≡ x ∷ ys)
lista_cons [] h = absurd (h refl)
lista_cons (x ∷ xs) h = (x, xs, refl)

cero_o_no : (n : ℕ) → (n ≡ 0) ⊎ (n ≢ 0)
cero_o_no zero = inl refl
cero_o_no (suc n) = inr (λ e. omega arith)

contiene-vacia : (i : ℕ) → contiene i [] ≡ false
unfolding contiene
contiene-vacia i = refl

hecho_inj : (s t : Master) → ◌≡◌ {A = Paso (Unit {0})} (hecho tt s) (hecho tt t) → s ≡ t
hecho_inj s t h = cc

module _ (ic : String → String → Bool) (s : Master) (o : Ordenado ic s) where
  parado : esperar_par s ≡ espera → process_handler s ≡ espera
  unfolding process_handler
  parado h = bind_espera esperar_par _ s h

  sin_ready : s.sem_ready ≡ 0 → EnPausa s
  unfolding esperar_par
  sin_ready h = record {
    pausa = parado (rw h refl);
    nadie = inl (λ i.
        sym (o.cola.esperan i)
        ∙ rw (lista_vacia s.querys_ready (sym o.cola.cuenta ∙ h)) (contiene-vacia i));
  }

  sin_workers : s.sem_ready ≢ 0 → s.sem_workers ≡ 0 → EnPausa s
  unfolding esperar_par buscar_worker_libre
  sin_workers n h = record {
    pausa = parado (rw (ne→== s.sem_ready 0 n, h) refl);
    nadie = inr (primer_libre-none s.workers (sym o.plantel.cuenta ∙ h));
  }

  con_pareja :
      (q : ℕ) (qs : List ℕ) (query : Query) (worker : Worker)
      → s.sem_ready ≢ 0
      → s.sem_workers ≢ 0
      → s.querys_ready ≡ q ∷ qs
      → buscar_query q s.querys ≡ some query
      → primer_libre s.workers ≡ some worker
      → (a : Atendida s) × Ordenado ic a.s'
  unfolding buscar_worker_libre
  con_pareja q qs query worker r l lista b f =
      let g = buscar_worker-primer_libre s.workers worker o.plantel.distintos f in
      (
        record {
          q = q;
          worker = worker;
          query = query;
          resto = qs;
          s' = tras_aviso s q qs query worker r l lista b f g;
          termina = process_handler-tras_aviso s q qs query worker r l lista b f g;
          emparejada = tras_aviso-Emparejada s q qs query worker r l lista b f g;
          libre = f;
          esperaba = sym (o.cola.esperan q) ∙ rw lista (contiene-primero q qs);
          primera = λ i h.
              Crecen-primero q i qs (rw lista at o.cola.en_orden)
                (rw lista at (o.cola.esperan i ∙ h));
        },
        tras_aviso-Ordenado ic s o q qs query worker r l lista b f g,
      )

  con_unidades : s.sem_ready ≢ 0 → s.sem_workers ≢ 0 → (a : Atendida s) × Ordenado ic a.s'
  con_unidades r l =
      let (q, qs, lista) = lista_cons s.querys_ready (λ e. r (o.cola.cuenta ∙ e)) in
      let (worker, f) = primer_libre-hay s.workers (omega (arith, o.plantel.cuenta)) in
      let (query, b, _) =
        en_espera-Query q s.querys (sym (o.cola.esperan q) ∙ rw lista (contiene-primero q qs)) in
      con_pareja q qs query worker r l lista b f

  -- With the invariant, a round waits for a reason, or it serves the query that came first and keeps
  -- the invariant.
  ronda-Resuelta : EnPausa s ⊎ ((a : Atendida s) × Ordenado ic a.s')
  ronda-Resuelta = elim (cero_o_no s.sem_ready) [
    | inl e ↦ inl (sin_ready e)
    | inr r ↦ elim (cero_o_no s.sem_workers) [
      | inl e ↦ inl (sin_workers r e)
      | inr l ↦ inr (con_unidades r l)
    ]
  ]

  pub ronda-Atendida : EnPausa s ⊎ Atendida s
  ronda-Atendida = elim ronda-Resuelta [ inl e ↦ inl e | inr (a, _) ↦ inr a ]

  pub process_handler-Ordenado : (t : Master) → process_handler s ≡ hecho tt t → Ordenado ic t
  process_handler-Ordenado t h = elim ronda-Resuelta [
    | inl e ↦ absurd (ground (arith, e.pausa))
    | inr (a, p) ↦ rw (hecho_inj a.s' t (sym a.termina ∙ h)) at p
  ]
