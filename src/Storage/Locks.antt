-- ===== src/Storage/Locks.antt =====
-- storage/src/storage_locks.c: one semaphore for each File:Tag. The dictionary of dictionaries
-- `locks_index` is one list over file and tag; `sem_locks_index` brackets each function.
pub mod Balance
pub mod Start
use tp_ssoo_2c.Base.{
  ℕ, zero, suc, ◌+◌, ◌-◌, Bool, true, false, not, ◌||◌, Option, none, some, List, [], ◌∷◌, ◌==◌,
  if◌then◌else◌,
}
use tp_ssoo_2c.Storage.{FileTag, mismo, Lock, Fs, Res, listo, bloqueado, M, ◌>>=◌, ◌>>◌, pure, get}

unfoldable pub get_lock_of : FileTag → List Lock → Option Lock
get_lock_of ft [] = none
get_lock_of ft (l ∷ ls) = if mismo l.nombre ft then some l else get_lock_of ft ls

-- A change through the pointer that `get_lock_of` returned.
unfoldable pub cambiar_lock : FileTag → (Lock → Lock) → List Lock → List Lock
cambiar_lock ft f [] = []
cambiar_lock ft f (l ∷ ls) = if mismo l.nombre ft then f l ∷ ls else l ∷ cambiar_lock ft f ls

unfoldable pub destroy_lock : FileTag → List Lock → List Lock
destroy_lock ft [] = []
destroy_lock ft (l ∷ ls) = if mismo l.nombre ft then ls else l ∷ destroy_lock ft ls

unfoldable pub create_lock : FileTag → Lock
create_lock ft = record { nombre = ft; sem_file_tag = 1; count_waiting = 0; delete = false }

-- The two parts of `storage_wait` on a lock: it counts itself, then waits for the semaphore, and
-- goes on when that is positive.
unfoldable pub anotar : Lock → Lock
anotar l = record l { count_waiting = l.count_waiting + 1 }

unfoldable pub entrar : Lock → Lock
entrar l = record l { sem_file_tag = l.sem_file_tag - 1; count_waiting = l.count_waiting - 1 }

unfoldable pub storage_wait : FileTag → M (Unit {0})
unfolding anotar entrar
storage_wait ft s = elim (get_lock_of ft s.locks_index) [
  | none ↦ listo tt s
  | some l ↦
      if l.sem_file_tag == 0
      then bloqueado
      else listo tt
          (record s { locks_index = cambiar_lock ft (λ k. entrar (anotar k)) s.locks_index })
]

unfoldable pub sem_post : Lock → Lock
sem_post l = record l { sem_file_tag = l.sem_file_tag + 1 }

unfoldable pub storage_signal : FileTag → M (Unit {0})
unfolding sem_post
storage_signal ft s = elim (get_lock_of ft s.locks_index) [
  | none ↦ listo tt s
  | some l ↦
      if not l.delete || not (l.count_waiting == 0)
      then listo tt (record s { locks_index = cambiar_lock ft sem_post s.locks_index })
      else listo tt (record s { locks_index = destroy_lock ft s.locks_index })
]

unfoldable pub add_lock : FileTag → M (Unit {0})
unfolding create_lock
add_lock ft s = elim (get_lock_of ft s.locks_index) [
  | none ↦ listo tt (record s { locks_index = create_lock ft ∷ s.locks_index })
  | some _ ↦ listo tt s
]

unfoldable pub remove_lock : FileTag → M (Unit {0})
remove_lock ft s = elim (get_lock_of ft s.locks_index) [
  | none ↦ listo tt s
  | some l ↦
      if not (l.count_waiting == 0)
      then listo tt (record s {
        locks_index = cambiar_lock ft (λ k. record k { delete = true }) s.locks_index;
      })
      else listo tt (record s { locks_index = destroy_lock ft s.locks_index })
]
