-- ===== src/Worker/Ring.antt =====
-- The page of a frame after a change through another frame, and what CLOCK-M relies on.
use native.Mathlib.Decide.{ℕ_discrete}
use tp_ssoo_2c.Base.{
  ℕ, ◌<◌, ◌≡◌, ◌≢◌, refl, sym, ap, ◌∙◌, ◌⊎◌, Option, none, some, List, length, get_elem?, set, inl,
  inr, arith, some_inj, lt_of_get_elem?, get_elem?-set_self, get_elem?-set_ne, Option-cases,
}
use tp_ssoo_2c.Worker.{
  NodoPagina, Memoria, vivo, nodo, nodo_opt, pagina_de, pagina_en, poner_en, poner_opt,
}
use tp_ssoo_2c.Worker.Replacement.{quitar_uso}

-- The pointer is at a frame, each frame has a page, and the page says the number of the frame.
pub record BienFormada (s : Memoria) : Type 0 where
  pub puntero : s.victima_clock < length s.marco
  pub cargada : (i : ℕ) → i < length s.marco → (p : NodoPagina) × (pagina_en i s ≡ some p)
  pub numerada : (i : ℕ) (p : NodoPagina) → pagina_en i s ≡ some p → p.nro_marco ≡ some i

-- From `s` to `s'` pages of frames have lost use bits alone.
pub record Gastada (s s' : Memoria) : Type 0 where
  pub marcos : s'.marco ≡ s.marco
  pub conserva :
      (j : ℕ) (p' : NodoPagina)
      → pagina_en j s' ≡ some p'
      → (p : NodoPagina) × (pagina_en j s ≡ some p) × ((p' ≡ p) ⊎ (p' ≡ quitar_uso p))
  pub sigue :
      (j : ℕ) (p : NodoPagina)
      → pagina_en j s ≡ some p
      → (p' : NodoPagina) × (pagina_en j s' ≡ some p')

vivo_lt :
    (ps : List (Option NodoPagina)) (a : ℕ) (p : NodoPagina) → nodo ps a ≡ some p → a < length ps
unfolding nodo
vivo_lt ps a p h = elim (Option-cases (get_elem? ps a)) [
  | inl n ↦ absurd (ground arith)
  | inr (o, e) ↦ lt_of_get_elem? ps a o e
]

pub nodo-set_self :
    (ps : List (Option NodoPagina)) (a : ℕ) (p q : NodoPagina)
    → nodo ps a ≡ some p
    → nodo (set ps a (some q)) a ≡ some q
unfolding nodo
nodo-set_self ps a p q h = ap vivo (get_elem?-set_self ps a (some q) (vivo_lt ps a p h))

pub nodo-set_ne :
    (ps : List (Option NodoPagina)) (a b : ℕ) (q : Option NodoPagina)
    → a ≢ b
    → nodo (set ps a q) b ≡ nodo ps b
unfolding nodo
nodo-set_ne ps a b q n = ap vivo (get_elem?-set_ne ps a b q n)

-- One pointer is written through, another one is read.
otro :
    (ps : List (Option NodoPagina)) (x y : Option ℕ) (p q r : NodoPagina)
    → nodo_opt ps x ≡ some p
    → nodo_opt (poner_opt ps x q) y ≡ some r
    → (u : NodoPagina) × (nodo_opt ps y ≡ some u) × ((r ≡ u) ⊎ ((u ≡ p) × (r ≡ q)))
otro ps none y p q r h k = absurd (ground arith)
otro ps (some a) none p q r h k = absurd (ground arith)
otro ps (some a) (some b) p q r h k = elim (ℕ_discrete a b) [
  | yes e ↦
      let k1 : nodo (set ps a (some q)) a ≡ some r = rw (← e) at k in
      (p, rw (← e) h, inr (refl, some_inj r q (sym k1 ∙ nodo-set_self ps a p q h)))
  | no n ↦ (r, sym (nodo-set_ne ps a b (some q) n) ∙ k, inl refl)
]

sigue_vivo :
    (ps : List (Option NodoPagina)) (x y : Option ℕ) (p q u : NodoPagina)
    → nodo_opt ps x ≡ some p
    → nodo_opt ps y ≡ some u
    → (r : NodoPagina) × (nodo_opt (poner_opt ps x q) y ≡ some r)
sigue_vivo ps none y p q u h k = absurd (ground arith)
sigue_vivo ps (some a) none p q u h k = absurd (ground arith)
sigue_vivo ps (some a) (some b) p q u h k = elim (ℕ_discrete a b) [
  | yes e ↦ (q, rw (← e) (nodo-set_self ps a p q h))
  | no n ↦ (u, nodo-set_ne ps a b (some q) n ∙ k)
]

mismo_puntero :
    (ps : List (Option NodoPagina)) (x : Option ℕ) (p q : NodoPagina)
    → nodo_opt ps x ≡ some p
    → nodo_opt (poner_opt ps x q) x ≡ some q
mismo_puntero ps none p q h = absurd (ground arith)
mismo_puntero ps (some a) p q h = nodo-set_self ps a p q h

pub pagina_en-poner_self :
    (i : ℕ) (s : Memoria) (p q : NodoPagina)
    → pagina_en i s ≡ some p
    → pagina_en i (poner_en i q s) ≡ some q
unfolding pagina_en poner_en
pagina_en-poner_self i s p q h = mismo_puntero s.paginas (pagina_de (get_elem? s.marco i)) p q h

pub poner_en-Gastada :
    (i : ℕ) (s : Memoria) (p : NodoPagina)
    → pagina_en i s ≡ some p
    → Gastada s (poner_en i (quitar_uso p) s)
unfolding pagina_en poner_en
poner_en-Gastada i s p h = record {
  marcos = refl;
  conserva = λ j r k.
      let (u, x, y) =
        otro s.paginas (pagina_de (get_elem? s.marco i)) (pagina_de (get_elem? s.marco j)) p
          (quitar_uso p) r h k in
      (u, x, elim y [ inl z ↦ inl z | inr (z, w) ↦ inr (w ∙ ap quitar_uso (sym z)) ]);
  sigue = λ j u k.
      sigue_vivo s.paginas (pagina_de (get_elem? s.marco i)) (pagina_de (get_elem? s.marco j)) p
        (quitar_uso p) u h k;
}

pub pagina_en_lt :
    (j : ℕ) (s : Memoria) (p : NodoPagina) → pagina_en j s ≡ some p → j < length s.marco
unfolding pagina_en
pagina_en_lt j s p h = elim (Option-cases (get_elem? s.marco j)) [
  | inl n ↦ absurd (ground arith)
  | inr (m, e) ↦ lt_of_get_elem? s.marco j m e
]

abbrev pub en : ℕ → Memoria → Memoria
en q s = record s { victima_clock = q }

pub Gastada-refl : (s : Memoria) (q : ℕ) → Gastada s (en q s)
unfolding pagina_en
Gastada-refl s q = record {
  marcos = refl;
  conserva = λ j p e. (p, e, inl refl);
  sigue = λ j p e. (p, e);
}

pub Gastada-trans : (s t u : Memoria) → Gastada s t → Gastada t u → Gastada s u
Gastada-trans s t u a b = record {
  marcos = b.marcos ∙ a.marcos;
  conserva = λ j m'' e.
      let (m', x, y) = b.conserva j m'' e in
      let (m, z, w) = a.conserva j m' x in (m, z, junta m m' m'' y w);
  sigue = λ j p e. let (q, x) = a.sigue j p e in b.sigue j q x;
}
  where
    junta :
        (m m' m'' : NodoPagina)
        → (m'' ≡ m') ⊎ (m'' ≡ quitar_uso m')
        → (m' ≡ m) ⊎ (m' ≡ quitar_uso m)
        → (m'' ≡ m) ⊎ (m'' ≡ quitar_uso m)
    junta m m' m'' (inl a) (inl b) = inl (a ∙ b)
    junta m m' m'' (inl a) (inr b) = inr (a ∙ b)
    junta m m' m'' (inr a) (inl b) = inr (a ∙ ap quitar_uso b)
    junta m m' m'' (inr a) (inr b) = inr (a ∙ ap quitar_uso b)

-- What CLOCK-M relies on is kept.
pub Gastada-BienFormada :
    (s s' : Memoria)
    → BienFormada s
    → Gastada s s'
    → s'.victima_clock < length s'.marco
    → BienFormada s'
Gastada-BienFormada s s' h g k = record {
  puntero = k;
  cargada = λ i l. let (p, e) = h.cargada i (rw (← g.marcos) l) in g.sigue i p e;
  numerada = λ i p' e.
      let (p, x, y) = g.conserva i p' e in
      elim y [ inl z ↦ rw z (h.numerada i p x) | inr z ↦ rw z (h.numerada i p x) ];
}
