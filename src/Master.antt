-- ===== src/Master.antt =====
-- master/: the scheduler. The state is what the threads of the master share: the queries and workers
-- that are allocated, the lists over them, and the semaphores. A pointer to a query or a worker is
-- its number; a pointer whose object is gone finds nothing, and using it is a fault.
pub mod Lists
pub mod Util
pub mod Priority
pub mod Handlers
pub mod Threads
pub mod Victim
pub mod Worst
pub mod Preempt
pub mod Pairing
pub mod Aging
pub mod After
pub mod Fifo
mod Tests
use Prim.Native.String.{String}
use tp_ssoo_2c.Base.{ℤ, ℕ, ◌≡◌, refl, ap, arith, Bool, Option, none, some, List, ◌∷◌}
use tp_ssoo_2c.Codes.{RtaStorage, RazonFin}

-- `state_t`.
pub data StateT : Type 0 where
  ready exec finished : StateT

pub record Worker : Type 0 where
  pub id : ℕ
  pub interrumpir : Bool
  pub error_at_exec : Bool
  pub sem_interrupt : ℕ
  pub state : StateT
  pub query : Option ℕ

pub record Query : Type 0 where
  pub id : ℕ
  pub pc : ℕ
  pub file : String
  pub prioridad : ℤ
  pub interrumpir : Bool
  pub worker : Option ℕ
  pub state : StateT

-- What is sent: to a worker, or to the Query Control of a query.
pub data Envio : Type 0 where
  solicitud_ejecucion : ℕ → String → ℕ → ℕ → Envio
  desalojo_query : ℕ → Envio
  notif_final : ℕ → RazonFin → Option RtaStorage → Envio
  notif_read : ℕ → String → String → String → Envio
  resultado_interrupcion : ℕ → Bool → Envio
  resultado_ok : ℕ → Envio
  ack : Envio

pub record Master : Type 0 where
  -- ALGORITMO_PLANIFICACION and TIEMPO_AGING
  pub algoritmo : String
  pub tiempo_aging : ℕ
  -- what `asign_query_id` gave last
  pub ultimo_id : ℕ
  -- the allocated queries
  pub querys : List Query
  pub workers : List Worker
  pub querys_ready : List ℕ
  pub querys_exec : List ℕ
  pub sem_ready : ℕ
  pub sem_workers : ℕ
  pub sem_int : ℕ
  pub sem_check_prior : ℕ
  pub sem_asign : ℕ
  pub signal_asign : Bool
  -- the queries for which an `actualizador` was started
  pub hilos_aging : List ℕ
  pub envios : List Envio

-- A step ends, waits for a semaphore, or uses a NULL or an object that is gone.
pub data Paso (A : Type 0) : Type 0 where
  hecho : A → Master → Paso A
  espera fallo : Paso A

abbrev pub M : Type 0 → Type 0
M A = Master → Paso A

infixl 5 ◌>>=◌ ◌>>◌
abbrev pub ◌>>=◌ : {A B : Type 0} → M A → (A → M B) → M B
◌>>=◌ m f s = elim (m s) [ hecho a s' ↦ f a s' | espera ↦ espera | fallo ↦ fallo ]

abbrev pub ◌>>◌ : {B : Type 0} → M (Unit {0}) → M B → M B
◌>>◌ m k = m >>= λ _. k

abbrev pub pure : {A : Type 0} → A → M A
pure a s = hecho a s

abbrev pub get : M Master
get s = hecho s s

abbrev pub modificar : (Master → Master) → M (Unit {0})
modificar f s = hecho tt (f s)

-- A read through a pointer.
abbrev pub o_fallo : {A : Type 0} → Option A → M A
o_fallo (Option.some a) s = hecho a s
o_fallo Option.none s = fallo

abbrev pub enviar : Envio → M (Unit {0})
enviar e = modificar λ s. record s { envios = e ∷ s.envios }

-- One step of a `do`.
pub bind_hecho :
    {A B : Type 0} (m : M A) (f : A → M B) (s t : Master) (a : A)
    → m s ≡ hecho a t
    → (m >>= f) s ≡ f a t
bind_hecho {A} {B} m f s t a h =
    ap
      (λ (r : Paso A).
        let x : Paso B = elim r [ hecho b u ↦ f b u | espera ↦ espera | fallo ↦ fallo ] in x)
      h

pub bind_espera :
    {A B : Type 0} (m : M A) (f : A → M B) (s : Master) → m s ≡ espera → (m >>= f) s ≡ espera
bind_espera {A} {B} m f s h =
    ap
      (λ (r : Paso A).
        let x : Paso B = elim r [ hecho b u ↦ f b u | espera ↦ espera | fallo ↦ fallo ] in x)
      h

pub bind_fallo :
    {A B : Type 0} (m : M A) (f : A → M B) (s : Master) → m s ≡ fallo → (m >>= f) s ≡ fallo
bind_fallo {A} {B} m f s h =
    ap
      (λ (r : Paso A).
        let x : Paso B = elim r [ hecho b u ↦ f b u | espera ↦ espera | fallo ↦ fallo ] in x)
      h

paso_inv :
    {A B : Type 0} (f : A → M B) (r : Paso A) (s' : Master) (b : B)
    → ◌≡◌ {A = Paso B} (elim r [ hecho a t ↦ f a t | espera ↦ espera | fallo ↦ fallo ]) (hecho b s')
    → (a : A) × (t : Master) × (r ≡ hecho a t) × (f a t ≡ hecho b s')
paso_inv f (hecho a t) s' b h = (a, t, refl, h)
paso_inv f espera s' b h = ground arith
paso_inv f fallo s' b h = ground arith

-- A `do` that ended had a first step that ended.
pub bind-eq-hecho :
    {A B : Type 0} (m : M A) (f : A → M B) (s s' : Master) (b : B)
    → (m >>= f) s ≡ hecho b s'
    → (a : A) × (t : Master) × (m s ≡ hecho a t) × (f a t ≡ hecho b s')
bind-eq-hecho m f s s' b h = paso_inv f (m s) s' b h

pub o_fallo-eq-hecho :
    {A : Type 0} (o : Option A) (s s' : Master) (a : A)
    → o_fallo o s ≡ hecho a s'
    → (o ≡ some a) × (s' ≡ s)
o_fallo-eq-hecho none s s' a h = ground arith
o_fallo-eq-hecho (some b) s s' a h = (cc, cc)
