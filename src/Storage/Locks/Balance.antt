-- ===== src/Storage/Locks/Balance.antt =====
-- `storage_wait` on a lock that is free, and the `storage_signal` that gives it back.
use tp_ssoo_2c.Base.{◌≡◌, refl, ◌∙◌, false, none, some, List, [], ◌∷◌, arith}
use tp_ssoo_2c.Storage.{FileTag, Lock, Fs, listo}
use tp_ssoo_2c.Storage.Locks.{
  get_lock_of, cambiar_lock, anotar, entrar, sem_post, storage_wait, storage_signal,
}

-- The File:Tag has no lock, or nobody holds it and it is not to be deleted.
pub data Libre (ft : FileTag) (ls : List Lock) : Type 0 where
  sin_lock : get_lock_of ft ls ≡ none → Libre ft ls
  con_lock :
      (l : Lock) → get_lock_of ft ls ≡ some l → l.sem_file_tag ≡ 1 → l.delete ≡ false → Libre ft ls

-- The index after `storage_wait`.
pub tomado : FileTag → List Lock → List Lock
tomado ft ls = cambiar_lock ft (λ k. entrar (anotar k)) ls

cambiar_lock-none :
    (ft : FileTag) (f : Lock → Lock) (ls : List Lock)
    → get_lock_of ft ls ≡ none
    → cambiar_lock ft f ls ≡ ls
unfolding get_lock_of cambiar_lock
cambiar_lock-none ft f [] h = refl
cambiar_lock-none ft f (l ∷ ls) h = ground (arith, cambiar_lock-none ft f ls)

entrada_nombre : (l : Lock) → (entrar (anotar l)).nombre ≡ l.nombre
unfolding entrar anotar
entrada_nombre l = refl

get_lock_of-tomado :
    (ft : FileTag) (ls : List Lock) (l : Lock)
    → get_lock_of ft ls ≡ some l
    → get_lock_of ft (tomado ft ls) ≡ some (entrar (anotar l))
unfolding get_lock_of cambiar_lock tomado
get_lock_of-tomado ft [] l h = ground arith
get_lock_of-tomado ft (k ∷ ls) l h = ground (arith, entrada_nombre k, get_lock_of-tomado ft ls l)

devuelto : (l : Lock) → l.sem_file_tag ≡ 1 → sem_post (entrar (anotar l)) ≡ l
unfolding sem_post entrar anotar
devuelto l h = ground arith

sem_post-tomado :
    (ft : FileTag) (ls : List Lock) (l : Lock)
    → get_lock_of ft ls ≡ some l
    → l.sem_file_tag ≡ 1
    → cambiar_lock ft sem_post (tomado ft ls) ≡ ls
unfolding get_lock_of cambiar_lock tomado
sem_post-tomado ft [] l h e = ground arith
sem_post-tomado ft (k ∷ ls) l h e =
    ground (arith, entrada_nombre k, devuelto k, sem_post-tomado ft ls l)

-- The wait does not block, and takes the lock.
pub storage_wait-Libre :
    (ft : FileTag) (s : Fs)
    → Libre ft s.locks_index
    → storage_wait ft s ≡ listo tt (record s { locks_index = tomado ft s.locks_index })
unfolding storage_wait tomado
storage_wait-Libre ft s (sin_lock h) =
    rw (h, storage_wait, cambiar_lock-none ft (λ k. entrar (anotar k)) s.locks_index h)
storage_wait-Libre ft s (con_lock l h e d) = rw (h, storage_wait, e)

-- The signal gives the index back as it was.
pub storage_signal-tomado :
    (ft : FileTag) (ls : List Lock) (s : Fs)
    → Libre ft ls
    → s.locks_index ≡ tomado ft ls
    → storage_signal ft s ≡ listo tt (record s { locks_index = ls })
unfolding storage_signal tomado entrar anotar
storage_signal-tomado ft ls s (sin_lock h) e =
    let q : s.locks_index ≡ ls = e ∙ cambiar_lock-none ft (λ k. entrar (anotar k)) ls h in
    let g : get_lock_of ft s.locks_index ≡ none = rw q h in ground arith
storage_signal-tomado ft ls s (con_lock l h one d) e =
    let g : get_lock_of ft s.locks_index ≡ some (entrar (anotar l)) =
      rw e (get_lock_of-tomado ft ls l h) in
    let r : cambiar_lock ft sem_post s.locks_index ≡ ls = rw e (sem_post-tomado ft ls l h one) in
    ground arith
