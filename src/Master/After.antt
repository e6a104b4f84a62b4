-- ===== src/Master/After.antt =====
-- What holds behind a step of the master that ends, whatever the step is built from.
use tp_ssoo_2c.Base.{
  ℕ, ◌≡◌, refl, Bool, true, false, Option, none, some, if◌then◌else◌, ◌⊎◌, inl, inr,
}
use tp_ssoo_2c.Master.{
  Query, Worker, Master, Paso, StateT, ready, exec, finished, hecho, espera, fallo, M, ◌>>=◌,
  o_fallo,
}
use tp_ssoo_2c.Master.Lists.{buscar_query, buscar_worker}
use tp_ssoo_2c.Master.Util.{query_de, worker_de}

abbrev pub Tras : {A : Type 0} → (A → Master → Type 0) → Paso A → Type 0
Tras Q (hecho a s) = Q a s
Tras Q espera = Unit
Tras Q fallo = Unit

pub Tras-hecho :
    {A : Type 0} (Q : A → Master → Type 0) (r : Paso A) (a : A) (t : Master)
    → r ≡ hecho a t
    → Tras Q r
    → Q a t
Tras-hecho Q r a t e h = rw e at h

luego_paso :
    {A B : Type 0} (R : A → Master → Type 0) (Q : B → Master → Type 0) (f : A → M B) (r : Paso A)
    → Tras R r
    → ((a : A) (t : Master) → R a t → Tras Q (f a t))
    → Tras Q (elim r [ hecho a t ↦ f a t | espera ↦ espera | fallo ↦ fallo ])
luego_paso R Q f (hecho a t) h k = k a t h
luego_paso R Q f espera h k = tt
luego_paso R Q f fallo h k = tt

module _ {A B : Type 0} (Q : B → Master → Type 0) (s : Master) where
  -- A `do` with a first step about which something is known.
  pub luego-Tras :
      (R : A → Master → Type 0) (m : M A) (f : A → M B)
      → Tras R (m s)
      → ((a : A) (t : Master) → R a t → Tras Q (f a t))
      → Tras Q ((m >>= f) s)
  luego-Tras R m f h k = luego_paso R Q f (m s) h k

  pub o_fallo-Tras :
      (o : Option A) (f : A → M B)
      → ((a : A) → o ≡ some a → Tras Q (f a s))
      → Tras Q ((o_fallo o >>= f) s)
  o_fallo-Tras none f h = tt
  o_fallo-Tras (some a) f h = h a refl

module _ {B : Type 0} (Q : B → Master → Type 0) (s : Master) where
  pub query_de-Tras :
      (q : ℕ) (f : Query → M B)
      → ((k : Query) → buscar_query q s.querys ≡ some k → Tras Q (f k s))
      → Tras Q ((query_de q >>= f) s)
  unfolding query_de
  query_de-Tras q f h = o_fallo-Tras Q s (buscar_query q s.querys) f h

  pub worker_de-Tras :
      (w : ℕ) (f : Worker → M B)
      → ((k : Worker) → buscar_worker w s.workers ≡ some k → Tras Q (f k s))
      → Tras Q ((worker_de w >>= f) s)
  unfolding worker_de
  worker_de-Tras w f h = o_fallo-Tras Q s (buscar_worker w s.workers) f h

  pub if-Tras :
      (b : Bool) (m n : M B)
      → (b ≡ true → Tras Q (m s))
      → (b ≡ false → Tras Q (n s))
      → Tras Q ((if b then m else n) s)
  if-Tras true m n h k = h refl
  if-Tras false m n h k = k refl

pub StateT-cases : (e : StateT) → (e ≡ exec) ⊎ ((e ≡ ready) ⊎ (e ≡ finished))
StateT-cases exec = inl refl
StateT-cases ready = inr (inl refl)
StateT-cases finished = inr (inr refl)
