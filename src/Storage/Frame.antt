-- ===== src/Storage/Frame.antt =====
-- What an operation on one File:Tag leaves alone: the locks, the size of the disk, and the
-- directory (metadata and hard links) of every other File:Tag. The rules for `do`; a child
-- module for the calls of the system, one for the locks, one for the operations.
pub mod Calls
pub mod Locked
pub mod Operations
use Prim.Native.String.{String}
use tp_ssoo_2c.Base.{
  ℕ, zero, suc, ◌+◌, ◌≡◌, refl, sym, ap, ◌∙◌, Bool, true, false, Option, none, some, List, [], ◌∷◌,
  length, set, ltb, length-set, arith, if◌then◌else◌, ◌==◌,
}
use tp_ssoo_2c.Storage.{
  FileTag, mismo, MetadataFile, Directorio, Lock, Fs, Res, listo, fallo, bloqueado, M, ◌>>=◌, ◌>>◌,
  pure, get, o_fallo,
}
use tp_ssoo_2c.Storage.FileSystem.{
  buscar, cambiar, st_nlink, unlink, link, enlazable, storage_metadata_read, storage_metadata_write,
  blk_mutex, leer_bloque, escribir_bloque, leer_logico, destino_en, desenlazar,
}
use tp_ssoo_2c.Storage.FileSystem.Lookup.{buscar-cambiar_ne, buscar-cambiar_self}
use tp_ssoo_2c.Storage.Hashes.{
  get_hash_from_block, get_hash_from_content, block_asocied_to, load_hash_in_index, remove_hash,
  sin_clave,
}
use tp_ssoo_2c.Storage.Bitmap.{find_free_block, mark_block_free, reservar}

pub record Marco (ft : FileTag) (s s' : Fs) : Type 0 where
  pub locks : s'.locks_index ≡ s.locks_index
  pub size : s'.block_size ≡ s.block_size
  pub count : s'.blocks_count ≡ s.blocks_count
  pub bits : length s'.bitmap ≡ length s.bitmap
  pub blocks : length s'.physical_blocks ≡ length s.physical_blocks
  pub others : (g : FileTag) → mismo ft g ≡ false → buscar g s'.files ≡ buscar g s.files
  pub own :
      (d : Directorio)
      → buscar ft s.files ≡ some d
      → (d' : Directorio) × (buscar ft s'.files ≡ some d')

pub Marco_refl : (ft : FileTag) (s : Fs) → Marco ft s s
Marco_refl ft s = record {
  locks = refl;
  size = refl;
  count = refl;
  bits = refl;
  blocks = refl;
  others = λ g h. refl;
  own = λ d h. (d, h);
}

pub Marco_trans : (ft : FileTag) (s t u : Fs) → Marco ft s t → Marco ft t u → Marco ft s u
Marco_trans ft s t u a b = record {
  locks = b.locks ∙ a.locks;
  size = b.size ∙ a.size;
  count = b.count ∙ a.count;
  bits = b.bits ∙ a.bits;
  blocks = b.blocks ∙ a.blocks;
  others = λ g h. b.others g h ∙ a.others g h;
  own = λ d h. let (d', h') = a.own d h in b.own d' h';
}

-- Every way in which the operation returns keeps the frame.
pub data Conserva (ft : FileTag) {A : Type 0} (m : M A) : Type 0 where
  conserva : ((s s' : Fs) (a : A) → m s ≡ listo a s' → Marco ft s s') → Conserva ft m

abbrev pub usar :
    {ft : FileTag} {A : Type 0} {m : M A}
    → Conserva ft m
    → (s s' : Fs) (a : A) → m s ≡ listo a s'
    → Marco ft s s'
usar (conserva f) = f

bind_res :
    (ft : FileTag) {A B : Type 0} (f : A → M B) (s : Fs) (r : Res A) (s' : Fs) (b : B)
    → ((t : Fs) (a : A) → r ≡ listo a t → Marco ft s t)
    → ((a : A) → Conserva ft (f a))
    → ◌≡◌ {A = Res B}
        (elim r [ listo a t ↦ f a t | bloqueado ↦ bloqueado | fallo ↦ fallo ])
        (listo b s')
    → Marco ft s s'
bind_res ft f s (listo a t) s' b hm hf h =
    Marco_trans ft s t s' (hm t a refl) (usar (hf a) t s' b h)
bind_res ft f s bloqueado s' b hm hf h = ground arith
bind_res ft f s fallo s' b hm hf h = ground arith

pub Conserva-bind :
    (ft : FileTag) {A B : Type 0} (m : M A) (f : A → M B)
    → Conserva ft m
    → ((a : A) → Conserva ft (f a))
    → Conserva ft (m >>= f)
Conserva-bind ft m f (conserva hm) hf =
    conserva λ s s' b h. bind_res ft f s (m s) s' b (λ t a. hm s t a) hf h

-- An operation that returns in one way, with the state named.
pub listo_marco :
    (ft : FileTag) {A : Type 0} (s t s' : Fs) (a b : A)
    → Marco ft s t
    → listo a t ≡ listo b s'
    → Marco ft s s'
listo_marco ft s t s' a b m h = let e : t ≡ s' = cc in rw (← e) m

pub Conserva-pure : (ft : FileTag) {A : Type 0} (a : A) → Conserva ft (pure a)
Conserva-pure ft a = conserva λ s s' b h. listo_marco ft s s s' a b (Marco_refl ft s) h

pub Conserva-get : (ft : FileTag) → Conserva ft get
Conserva-get ft = conserva λ s s' b h. listo_marco ft s s s' s b (Marco_refl ft s) h

pub o_fallo_marco :
    (ft : FileTag) {A : Type 0} (o : Option A) (s s' : Fs) (b : A)
    → o_fallo o s ≡ listo b s'
    → Marco ft s s'
o_fallo_marco ft none s s' b h = ground arith
o_fallo_marco ft (some a) s s' b h = listo_marco ft s s s' a b (Marco_refl ft s) h

pub Conserva-o_fallo : (ft : FileTag) {A : Type 0} (o : Option A) → Conserva ft (o_fallo o)
Conserva-o_fallo ft o = conserva (o_fallo_marco ft o)

pub Conserva-if :
    (ft : FileTag) {A : Type 0} (b : Bool) (m n : M A)
    → Conserva ft m
    → Conserva ft n
    → Conserva ft (if b then m else n)
Conserva-if ft true m n hm hn = hm
Conserva-if ft false m n hm hn = hn
