-- ===== src/Master/Priority.antt =====
-- master/src/master_aging.c: the aging of the queries that wait, and the request for an eviction.
-- `list_add_sorted` is the library's function on a list of pointers. A wait for a semaphore in the
-- middle of a function splits it in two.
use tp_ssoo_2c.Base.{
  ℤ, pos, negsuc, predℤ, ltbℤ, ℕ, ◌+◌, ◌-◌, Bool, true, false, not, ◌&&◌, Option, none, some, List,
  [], ◌∷◌, ◌==◌, if◌then◌else◌,
}
use tp_ssoo_2c.Master.{hecho, espera, M, ◌>>=◌, ◌>>◌, pure, get, modificar, o_fallo}
use tp_ssoo_2c.Master.Lists.{cambiar_query, cambiar_worker, list_remove_element, contiene, comparar}
use tp_ssoo_2c.Master.Util.{query_de, worker_de, buscar_worker_libre, buscar_victima}

-- `sem_wait(&sem_check_prior)`.
unfoldable pub tomar_check_prior : M (Unit {0})
tomar_check_prior s =
    if s.sem_check_prior == 0
    then espera
    else hecho tt (record s { sem_check_prior = s.sem_check_prior - 1 })

abbrev es_vacia : {A : Type 0} → List A → Bool
es_vacia [] = true
es_vacia (_ ∷ _) = false

abbrev es_none : {A : Type 0} → Option A → Bool
es_none none = true
es_none (some _) = false

-- The choice of `check_prior` when no worker is free: whether the worst query in execution has to
-- give way to the best one that is ready, and then its worker is told.
unfoldable pub pedir_desalojo : Option ℕ → M Bool
pedir_desalojo siguiente = do
  victima ← buscar_victima
  query_victima ← o_fallo victima
  q ← o_fallo siguiente
  siguiente_query ← query_de q
  if not (ltbℤ siguiente_query.prioridad query_victima.prioridad) then pure false else (do
    w ← o_fallo query_victima.worker
    worker ← worker_de w
    if worker.interrumpir then pure false else (do
      modificar λ s. record s {
        signal_asign = true;
        workers = cambiar_worker w (λ k. record k { interrumpir = true }) s.workers;
      }
      pure true))

abbrev primero : List ℕ → Option ℕ
primero [] = none
primero (q ∷ _) = some q

-- `check_prior` up to its wait for `sem_int`, which the value true announces; else it has ended.
unfoldable pub check_prior : M Bool
unfolding tomar_check_prior
check_prior = do
  tomar_check_prior
  s ← get
  desalojo ←
      (if es_none (buscar_worker_libre s) && not (es_vacia s.workers)
        then pedir_desalojo (primero s.querys_ready)
        else pure false)
  if desalojo
      then pure true
      else (do modificar λ t. record t { sem_check_prior = t.sem_check_prior + 1 }; pure false)

-- The rest of `check_prior` after an eviction: it waits for `sem_int` and for `sem_asign`.
unfoldable pub check_prior_fin : M (Unit {0})
check_prior_fin s =
    if s.sem_int == 0
    then espera
    else if s.sem_asign == 0
    then espera
    else hecho tt (record s {
      sem_int = s.sem_int - 1;
      sem_asign = s.sem_asign - 1;
      signal_asign = false;
      sem_check_prior = s.sem_check_prior + 1;
    })

abbrev es_cero : ℤ → Bool
es_cero (pos n) = n == 0
es_cero (negsuc n) = false

-- How a turn of `actualizador` ends: the thread returns, goes back to the head of its loop, or calls
-- `check_prior` and then goes back.
pub data Vuelta : Type 0 where
  termina a_la_cabeza con_check_prior : Vuelta

unfoldable pub bajar_prioridad : ℕ → M (Unit {0})
bajar_prioridad q = modificar λ s. record s {
  querys = cambiar_query q (λ k. record k { prioridad = predℤ k.prioridad }) s.querys;
}

module _ (list_add_sorted : (ℕ → ℕ → Bool) → ℕ → List ℕ → List ℕ) where
  unfoldable pub agregar_ready : ℕ → M (Unit {0})
  agregar_ready q =
      modificar
        λ s. record s { querys_ready = list_add_sorted (comparar s.querys) q s.querys_ready }

  -- The head of the loop of `actualizador`: whether it goes on to its pause.
  unfoldable pub sigue_actualizador : ℕ → M Bool
  sigue_actualizador q = do query ← query_de q; pure (not (es_cero query.prioridad))

  -- What follows the pause.
  unfoldable pub actualizador : ℕ → M Vuelta
  unfolding agregar_ready bajar_prioridad
  actualizador q = do
    s ← get
    if not (contiene q s.querys_ready) then pure termina else (do
      modificar λ t. record t { querys_ready = list_remove_element q t.querys_ready }
      query ← query_de q
      if ltbℤ (pos 0) query.prioridad
          then (do bajar_prioridad q; agregar_ready q; pure con_check_prior)
          else pure a_la_cabeza)
