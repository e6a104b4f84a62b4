-- ===== src/Storage.antt =====
-- storage/: the state of the file system and the monad of its operations. The state is what the
-- storage keeps on the disk (physical blocks, bitmap.bin, the directory of each File:Tag with its
-- metadata.config and its hard links, blocks_hash_index.config) and the index of locks.
pub mod FileSystem
pub mod Bitmap
pub mod Hashes
pub mod Locks
pub mod Files
pub mod Commit
pub mod Frame
pub mod Isolation
pub mod Server
pub mod FreshStart
pub mod Start
pub mod Contents
mod Tests
use text.Mathlib.Text.{◌==◌ as str_eq}
use text.Mathlib.TextEquality.{eq_iff}
use Prim.Native.String.{String}
use tp_ssoo_2c.Base.{ℕ, ◌≡◌, refl, ap, Bool, true, false, ◌&&◌, Option, List, arith}

-- File:Tag.
abbrev pub FileTag : Type 0
FileTag = String × String

unfoldable pub mismo : FileTag → FileTag → Bool
mismo a b = str_eq a.0 b.0 && str_eq a.1 b.1

-- The strings that the source writes as ESTADO: "WORK_IN_PROGRESS" and "COMMITED".
pub data Situacion : Type 0 where
  work_in_progress commited : Situacion

-- `t_metadata_file`, and the three properties of metadata.config.
pub record MetadataFile : Type 0 where
  pub tamanio : ℕ
  pub blocks : List ℕ
  pub estado : Situacion

-- files/<file>/<tag>: metadata.config if it is there, and logical_blocks, where the hard link
-- <n>.dat of a logical block leads to a physical one.
pub record Directorio : Type 0 where
  pub nombre : FileTag
  pub metadata : Option MetadataFile
  pub logical_blocks : List (ℕ × ℕ)

pub record Lock : Type 0 where
  pub nombre : FileTag
  pub sem_file_tag : ℕ
  pub count_waiting : ℕ
  pub delete : Bool

pub record Fs : Type 0 where
  pub block_size : ℕ
  -- FS_SIZE / BLOCK_SIZE, the number of physical blocks and of their mutexes
  pub blocks_count : ℕ
  pub bitmap : List Bool
  pub physical_blocks : List (List ℕ)
  pub files : List Directorio
  pub hash_index : List (String × ℕ)
  pub locks_index : List Lock

-- An operation ends, waits for a semaphore that nobody will post, or dereferences a NULL.
pub data Res (A : Type 0) : Type 0 where
  listo : A → Fs → Res A
  bloqueado fallo : Res A

abbrev pub M : Type 0 → Type 0
M A = Fs → Res A

infixl 5 ◌>>=◌ ◌>>◌
abbrev pub ◌>>=◌ : {A B : Type 0} → M A → (A → M B) → M B
◌>>=◌ m f s = elim (m s) [ listo a s' ↦ f a s' | bloqueado ↦ bloqueado | fallo ↦ fallo ]

abbrev pub ◌>>◌ : {B : Type 0} → M (Unit {0}) → M B → M B
◌>>◌ m k = m >>= λ _. k

abbrev pub pure : {A : Type 0} → A → M A
pure a s = listo a s

abbrev pub get : M Fs
get s = listo s s

abbrev pub put : Fs → M (Unit {0})
put s' s = listo tt s'

-- What `atoi(list_get(…))` or a call through `list_get(…)` does with the NULL of a missing element.
abbrev pub o_fallo : {A : Type 0} → Option A → M A
o_fallo (Option.some a) s = listo a s
o_fallo Option.none s = fallo

pub mismo_refl : (a : FileTag) → mismo a a ≡ true
unfolding mismo
mismo_refl a = ground (arith, eq_iff a.0 a.0, eq_iff a.1 a.1)

pub eq_of_mismo : (a b : FileTag) → mismo a b ≡ true → a ≡ b
unfolding mismo
eq_of_mismo a b h = ground (arith, eq_iff a.0 b.0, eq_iff a.1 b.1)

-- One step of a `do`.
pub bind_listo :
    {A B : Type 0} (m : M A) (f : A → M B) (s t : Fs) (a : A)
    → m s ≡ listo a t
    → (m >>= f) s ≡ f a t
bind_listo {A} {B} m f s t a h =
    ap
      (λ (r : Res A).
        let x : Res B = elim r [ listo b u ↦ f b u | bloqueado ↦ bloqueado | fallo ↦ fallo ] in x)
      h

res_inv :
    {A B : Type 0} (f : A → M B) (r : Res A) (s' : Fs) (b : B)
    → ◌≡◌ {A = Res B}
        (elim r [ listo a t ↦ f a t | bloqueado ↦ bloqueado | fallo ↦ fallo ])
        (listo b s')
    → (a : A) × (t : Fs) × (r ≡ listo a t) × (f a t ≡ listo b s')
res_inv f (listo a t) s' b h = (a, t, refl, h)
res_inv f bloqueado s' b h = cc
res_inv f fallo s' b h = cc

-- A `do` that returned had a first step that returned.
pub bind-eq-listo :
    {A B : Type 0} (m : M A) (f : A → M B) (s s' : Fs) (b : B)
    → (m >>= f) s ≡ listo b s'
    → (a : A) × (t : Fs) × (m s ≡ listo a t) × (f a t ≡ listo b s')
bind-eq-listo m f s s' b h = res_inv f (m s) s' b h
