-- ===== src/Storage/Locks/Start.antt =====
-- storage/src/storage_locks.c: init_locks_index, which makes a lock for each File:Tag that it finds on
-- the disk. A path is put together by `unir` ("%s/%s"); opendir with readdir, and stat, are parameters.
use Prim.Native.String.{String}
use text.Mathlib.Text.{◌==◌ as str_eq}
use tp_ssoo_2c.Base.{
  ◌≡◌, ◌⊎◌, refl, Bool, true, false, not, ◌&&◌, ◌||◌, Option, none, some, List, [], ◌∷◌, ◌++◌,
  if◌then◌else◌, arith,
}
use tp_ssoo_2c.Storage.{FileTag, Lock, Fs, listo}
use tp_ssoo_2c.Storage.Locks.{create_lock, get_lock_of, storage_wait}

-- __S_IFREG and __S_IFDIR.
pub data Tipo : Type 0 where
  regular directorio : Tipo

abbrev mismo_tipo : Tipo → Tipo → Bool
mismo_tipo regular regular = true
mismo_tipo directorio directorio = true
mismo_tipo _ _ = false

-- `fallo`: memory that was freed is used.
pub data Arranque (A : Type 0) : Type 0 where
  hecho : A → Arranque A
  exit_failure fallo : Arranque A

infixl 5 ◌>>=◌
abbrev pub ◌>>=◌ : {A B : Type 0} → Arranque A → (A → Arranque B) → Arranque B
hecho a >>= f = f a
exit_failure >>= f = exit_failure
fallo >>= f = fallo

-- The buffer `path`: `none` once it was freed.
abbrev vigente : Option String → Arranque String
vigente none = fallo
vigente (some path) = hecho path

abbrev pub es_punto : String → Bool
es_punto d_name = str_eq d_name "." || str_eq d_name ".."

descartada : (p t : Bool) → (p ≡ true) ⊎ (t ≡ false) → (not p && t) ≡ false
descartada p t h = ground arith

-- What is popped comes from the end.
unfoldable pub al_reves : List String → List String
al_reves [] = []
al_reves (x ∷ xs) = al_reves xs ++ (x ∷ [])

module _ (unir : String → String → String) (opendir : String → Option (List String))
    (stat : String → Option Tipo) (punto_montaje : String) where
  abbrev pub es_tipo : Tipo → Option Tipo → Bool
  es_tipo mask none = false
  es_tipo mask (some t) = mismo_tipo t mask

  -- The entries of a directory that are kept: it is `PUNTO_MONTAJE/<entry>` that stat is asked for.
  unfoldable pub elegir_entradas : Tipo → List String → List String
  elegir_entradas mask [] = []
  elegir_entradas mask (d_name ∷ entradas) =
      if not (es_punto d_name) && es_tipo mask (stat (unir punto_montaje d_name))
      then d_name ∷ elegir_entradas mask entradas
      else elegir_entradas mask entradas

  abbrev elegidas : Tipo → Option (List String) → Arranque (List String)
  elegidas mask none = exit_failure
  elegidas mask (some entradas) = hecho (elegir_entradas mask entradas)

  unfoldable pub get_in : String → Tipo → Arranque (List String)
  get_in path mask = elegidas mask (opendir path)

  unfoldable pub locks_de_tags : String → List String → List Lock
  locks_de_tags file [] = []
  locks_de_tags file (tag ∷ tags) = create_lock (file, tag) ∷ locks_de_tags file tags

  -- The `while` over the files, which appends to `path` and frees it in each round.
  unfoldable pub locks_de_files : Option String → List String → Arranque (List Lock)
  unfolding get_in locks_de_tags
  locks_de_files path [] = hecho []
  locks_de_files path (file ∷ files) = do
    viejo ← vigente path
    tags ← get_in (unir viejo file) regular
    resto ← locks_de_files none files
    hecho (locks_de_tags file (al_reves tags) ++ resto)

  unfoldable pub init_locks_index : Arranque (List Lock)
  unfolding locks_de_files al_reves
  init_locks_index = do
    files ← get_in (unir punto_montaje "files") directorio
    locks_de_files (some (unir punto_montaje "files")) (al_reves files)

  -- No entry but "." and ".." has the name of a directory right below PUNTO_MONTAJE.
  unfoldable pub NingunoArriba : List String → Type 0
  NingunoArriba [] = Unit {0}
  NingunoArriba (d_name ∷ entradas) =
      ((es_punto d_name ≡ true) ⊎ (es_tipo directorio (stat (unir punto_montaje d_name)) ≡ false))
      × NingunoArriba entradas

  elegir_entradas-NingunoArriba :
      (entradas : List String) → NingunoArriba entradas → elegir_entradas directorio entradas ≡ []
  unfolding NingunoArriba elegir_entradas
  elegir_entradas-NingunoArriba [] h = refl
  elegir_entradas-NingunoArriba (d ∷ ds) (h, hs) =
      rw (descartada (es_punto d) (es_tipo directorio (stat (unir punto_montaje d))) h)
        (elegir_entradas-NingunoArriba ds hs)

  -- init_locks_index looks for the files of files/ right below PUNTO_MONTAJE: where no
  -- directory there has the name of one of them, it makes no lock at all, and then storage_wait lets everybody through.
  pub init_locks_index-NingunoArriba :
      (entradas : List String)
      → opendir (unir punto_montaje "files") ≡ some entradas
      → NingunoArriba entradas
      → (init_locks_index ≡ hecho [])
        × ((s : Fs) (ft : FileTag)
            → storage_wait ft (record s { locks_index = [] })
              ≡ listo tt (record s { locks_index = [] }))
  unfolding init_locks_index get_in locks_de_files al_reves storage_wait get_lock_of
  init_locks_index-NingunoArriba entradas h n =
      (rw (h, elegir_entradas-NingunoArriba entradas n) refl, λ s ft. refl)
