-- ===== src/Master/Fifo/Workers.antt =====
-- The workers of the master and their semaphore, while no eviction is asked for.
use tp_ssoo_2c.Base.{
  ℕ, ◌+◌, ◌<◌, ◌≡◌, ◌≢◌, refl, Bool, true, false, Option, none, some, List, [], ◌∷◌, ◌++◌, arith,
  ◌==◌, if◌then◌else◌, Bool-cases, inl, inr,
}
use tp_ssoo_2c.Master.{Worker, StateT}
use tp_ssoo_2c.Master.Lists.{buscar_worker, cambiar_worker, quitar_worker, contiene}
use tp_ssoo_2c.Master.Util.{es_ready, primer_libre}
use tp_ssoo_2c.Master.Fifo.Queries.{Distintos}

abbrev pub ids_worker : List Worker → List ℕ
ids_worker [] = []
ids_worker (k ∷ ks) = k.id ∷ ids_worker ks

abbrev pub uno : StateT → ℕ
uno e = if es_ready e then 1 else 0

pub uno-libre : (e : StateT) → es_ready e ≡ true → uno e ≡ 1
uno-libre e h = ground (arith, h)

pub uno-ocupado : (e : StateT) → es_ready e ≡ false → uno e ≡ 0
uno-ocupado e h = ground (arith, h)

-- How many workers are free.
abbrev pub libres : List Worker → ℕ
libres [] = 0
libres (k ∷ ks) = uno k.state + libres ks

abbrev pub sin_query : Option ℕ → Bool
sin_query none = true
sin_query (some _) = false

-- No eviction was asked for, and a worker is free exactly where it has no query.
abbrev pub Sano : Worker → Type 0
Sano k = (k.interrumpir ≡ false) × (es_ready k.state ≡ sin_query k.query)

abbrev pub Sanos : List Worker → Type 0
Sanos [] = Unit
Sanos (k ∷ ks) = Sano k × Sanos ks

pub buscar_worker-Sano :
    (w : ℕ) (ws : List Worker) (k : Worker) → buscar_worker w ws ≡ some k → Sanos ws → Sano k
unfolding buscar_worker
buscar_worker-Sano w [] k h s = absurd (ground arith)
buscar_worker-Sano w (j ∷ js) k h (s, ss) = ground (arith, buscar_worker-Sano w js k)

pub libres-cambiar_worker :
    (w : ℕ) (f : Worker → Worker) (ws : List Worker) (k : Worker)
    → buscar_worker w ws ≡ some k
    → libres (cambiar_worker w f ws) + uno k.state ≡ libres ws + uno (f k).state
unfolding buscar_worker cambiar_worker
libres-cambiar_worker w f [] k h = absurd (ground arith)
libres-cambiar_worker w f (j ∷ js) k h = ground (arith, libres-cambiar_worker w f js k)

pub libres-quitar_worker :
    (w : ℕ) (ws : List Worker) (k : Worker)
    → buscar_worker w ws ≡ some k
    → libres (quitar_worker w ws) + uno k.state ≡ libres ws
unfolding buscar_worker quitar_worker
libres-quitar_worker w [] k h = absurd (ground arith)
libres-quitar_worker w (j ∷ js) k h = ground (arith, libres-quitar_worker w js k)

pub ids_worker-cambiar_worker :
    (w : ℕ) (f : Worker → Worker) (ws : List Worker)
    → ((k : Worker) → (f k).id ≡ k.id)
    → ids_worker (cambiar_worker w f ws) ≡ ids_worker ws
unfolding cambiar_worker
ids_worker-cambiar_worker w f [] keep = refl
ids_worker-cambiar_worker w f (k ∷ ks) keep =
    ground (arith, keep k, ids_worker-cambiar_worker w f ks keep)

contiene-quitar_worker :
    (i w : ℕ) (ws : List Worker)
    → contiene i (ids_worker ws) ≡ false
    → contiene i (ids_worker (quitar_worker w ws)) ≡ false
unfolding contiene quitar_worker
contiene-quitar_worker i w [] h = refl
contiene-quitar_worker i w (k ∷ ks) h = ground (arith, contiene-quitar_worker i w ks)

pub Distintos-quitar_worker :
    (w : ℕ) (ws : List Worker)
    → Distintos (ids_worker ws)
    → Distintos (ids_worker (quitar_worker w ws))
unfolding quitar_worker
Distintos-quitar_worker w [] d = tt
Distintos-quitar_worker w (k ∷ ks) (d, ds) = elim (Bool-cases (k.id == w)) [
  | inl t ↦ rw t ds
  | inr f ↦ rw f (contiene-quitar_worker k.id w ks d, Distintos-quitar_worker w ks ds)
]

pub Sanos-cambiar_worker :
    (w : ℕ) (f : Worker → Worker) (ws : List Worker)
    → ((k : Worker) → Sano k → buscar_worker w ws ≡ some k → Sano (f k))
    → Sanos ws
    → Sanos (cambiar_worker w f ws)
unfolding cambiar_worker buscar_worker
Sanos-cambiar_worker w f [] keep s = tt
Sanos-cambiar_worker w f (k ∷ ks) keep (s, ss) = elim (Bool-cases (k.id == w)) [
  | inl t ↦ rw t (keep k s (rw t refl), ss)
  | inr g ↦ rw g (s, Sanos-cambiar_worker w f ks (λ j sj e. keep j sj (rw g e)) ss)
]

pub Sanos-quitar_worker : (w : ℕ) (ws : List Worker) → Sanos ws → Sanos (quitar_worker w ws)
unfolding quitar_worker
Sanos-quitar_worker w [] s = tt
Sanos-quitar_worker w (k ∷ ks) (s, ss) = elim (Bool-cases (k.id == w)) [
  | inl t ↦ rw t ss
  | inr g ↦ rw g (s, Sanos-quitar_worker w ks ss)
]

-- A new worker.
pub Sanos-append : (ws : List Worker) (k : Worker) → Sano k → Sanos ws → Sanos (ws ++ k ∷ [])
Sanos-append [] k h s = (h, tt)
Sanos-append (j ∷ js) k h (s, ss) = (s, Sanos-append js k h ss)

pub libres-append :
    (ws : List Worker) (k : Worker) → libres (ws ++ k ∷ []) ≡ libres ws + uno k.state
libres-append [] k = omega arith
libres-append (j ∷ js) k = omega (arith, libres-append js k)

contiene-append_worker :
    (i : ℕ) (ws : List Worker) (k : Worker)
    → i ≢ k.id
    → contiene i (ids_worker ws) ≡ false
    → contiene i (ids_worker (ws ++ k ∷ [])) ≡ false
unfolding contiene
contiene-append_worker i [] k n h = ground arith
contiene-append_worker i (j ∷ js) k n h = ground (arith, contiene-append_worker i js k n)

pub Distintos-append_worker :
    (ws : List Worker) (k : Worker)
    → buscar_worker k.id ws ≡ none
    → Distintos (ids_worker ws)
    → Distintos (ids_worker (ws ++ k ∷ []))
unfolding buscar_worker contiene
Distintos-append_worker [] k h d = ground arith
Distintos-append_worker (j ∷ js) k h (d, ds) = elim (Bool-cases (j.id == k.id)) [
  | inl t ↦ absurd (ground arith)
  | inr f ↦ (
    contiene-append_worker j.id js k (ground arith) d,
    Distintos-append_worker js k (rw f at h) ds,
  )
]

-- The worker that the scheduler picks.
pub primer_libre-hay :
    (ws : List Worker) → 0 < libres ws → (k : Worker) × (primer_libre ws ≡ some k)
unfolding primer_libre
primer_libre-hay [] h = absurd (omega arith)
primer_libre-hay (k ∷ ks) h = elim (Bool-cases (es_ready k.state)) [
  | inl t ↦ (k, rw t refl)
  | inr f ↦ rw f (primer_libre-hay ks (omega (arith, rw f at h)))
]

pub primer_libre-Libre :
    (ws : List Worker) (k : Worker)
    → primer_libre ws ≡ some k
    → (es_ready k.state ≡ true) × (contiene k.id (ids_worker ws) ≡ true)
unfolding primer_libre contiene
primer_libre-Libre [] k h = absurd (ground arith)
primer_libre-Libre (j ∷ js) k h = ground (arith, primer_libre-Libre js k)

pub buscar_worker-primer_libre :
    (ws : List Worker) (k : Worker)
    → Distintos (ids_worker ws)
    → primer_libre ws ≡ some k
    → buscar_worker k.id ws ≡ some k
unfolding primer_libre buscar_worker
buscar_worker-primer_libre [] k d h = absurd (ground arith)
buscar_worker-primer_libre (j ∷ js) k (d, ds) h =
    ground (arith, buscar_worker-primer_libre js k ds, primer_libre-Libre js k)

pub primer_libre-none : (ws : List Worker) → libres ws ≡ 0 → primer_libre ws ≡ none
unfolding primer_libre
primer_libre-none [] h = refl
primer_libre-none (k ∷ ks) h = ground (arith, primer_libre-none ks)
