-- ===== src/Storage/Frame/Locked.antt =====
-- Operations that run from a taken lock to its `storage_signal`.
use tp_ssoo_2c.Base.{◌≡◌, refl, sym, ◌∙◌, Bool, true, false, none, List, if◌then◌else◌, arith}
use tp_ssoo_2c.Storage.{
  FileTag, Lock, Fs, Res, listo, bloqueado, fallo, M, o_fallo, ◌>>=◌, ◌>>◌, bind_listo,
}
use tp_ssoo_2c.Storage.Locks.{storage_wait, storage_signal}
use tp_ssoo_2c.Storage.Locks.Balance.{Libre, tomado, storage_wait-Libre, storage_signal-tomado}
use tp_ssoo_2c.Storage.Frame.{Marco, Marco_trans, Conserva, usar}

-- Every way in which the operation returns gives the lock back, and keeps the frame.
pub data Cierra (ft : FileTag) {A : Type 0} (m : M A) : Type 0 where
  cierra :
      ((ls : List Lock) (s s' : Fs) (a : A)
        → Libre ft ls
        → s.locks_index ≡ tomado ft ls
        → m s ≡ listo a s'
        → Marco ft (record s { locks_index = ls }) s')
      → Cierra ft m

abbrev pub cerrar :
    {ft : FileTag} {A : Type 0} {m : M A}
    → Cierra ft m
    → (ls : List Lock) (s s' : Fs) (a : A) → Libre ft ls
    → s.locks_index ≡ tomado ft ls
    → m s ≡ listo a s'
    → Marco ft (record s { locks_index = ls }) s'
cerrar (cierra f) = f

con_locks :
    (ft : FileTag) (ls : List Lock) (s t : Fs)
    → Marco ft s t
    → Marco ft (record s { locks_index = ls }) (record t { locks_index = ls })
con_locks ft ls s t m = record {
  locks = refl;
  size = m.size;
  count = m.count;
  bits = m.bits;
  blocks = m.blocks;
  others = m.others;
  own = m.own;
}

bind_antes :
    (ft : FileTag) {A B : Type 0} (f : A → M B) (ls : List Lock) (s : Fs) (r : Res A) (s' : Fs)
    (b : B)
    → Libre ft ls
    → s.locks_index ≡ tomado ft ls
    → ((t : Fs) (a : A) → r ≡ listo a t → Marco ft s t)
    → ((a : A) → Cierra ft (f a))
    → ◌≡◌ {A = Res B}
        (elim r [ listo a t ↦ f a t | bloqueado ↦ bloqueado | fallo ↦ fallo ])
        (listo b s')
    → Marco ft (record s { locks_index = ls }) s'
bind_antes ft f ls s (listo a t) s' b l e hm hf h =
    let m = hm t a refl in
    Marco_trans ft _ (record t { locks_index = ls }) s' (con_locks ft ls s t m)
      (cerrar (hf a) ls t s' b l (m.locks ∙ e) h)
bind_antes ft f ls s bloqueado s' b l e hm hf h = ground arith
bind_antes ft f ls s fallo s' b l e hm hf h = ground arith

-- Work under the lock, then the rest.
pub Cierra-bind :
    (ft : FileTag) {A B : Type 0} (m : M A) (f : A → M B)
    → Conserva ft m
    → ((a : A) → Cierra ft (f a))
    → Cierra ft (m >>= f)
Cierra-bind ft m f hm hf =
    cierra λ ls s s' b l e h. bind_antes ft f ls s (m s) s' b l e (λ t a. usar hm s t a) hf h

-- What faults does not return.
pub Cierra-fallo : (ft : FileTag) {A : Type 0} → Cierra ft {A = A} (o_fallo none)
Cierra-fallo ft = cierra λ ls s s' a l e h. absurd (ground arith)

-- The signal, then what is done without the lock.
pub Cierra-signal :
    (ft : FileTag) {B : Type 0} (k : M B) → Conserva ft k → Cierra ft (storage_signal ft >> k)
Cierra-signal ft k hk = cierra λ ls s s' b l e h.
    usar hk (record s { locks_index = ls }) s' b
      (sym (bind_listo (storage_signal ft) (λ _. k) s _ tt (storage_signal-tomado ft ls s l e)) ∙ h)

pub Cierra-if :
    (ft : FileTag) {A : Type 0} (b : Bool) (m n : M A)
    → Cierra ft m
    → Cierra ft n
    → Cierra ft (if b then m else n)
Cierra-if ft true m n hm hn = hm
Cierra-if ft false m n hm hn = hn

-- A whole operation, from a free lock.
pub storage_wait-Marco :
    (ft : FileTag) {A : Type 0} (m : M A) (s s' : Fs) (a : A)
    → Cierra ft m
    → Libre ft s.locks_index
    → (storage_wait ft >> m) s ≡ listo a s'
    → Marco ft s s'
storage_wait-Marco ft m s s' a c l h =
    cerrar c s.locks_index (record s { locks_index = tomado ft s.locks_index }) s' a l refl
      (sym (bind_listo (storage_wait ft) (λ _. m) s _ tt (storage_wait-Libre ft s l)) ∙ h)
