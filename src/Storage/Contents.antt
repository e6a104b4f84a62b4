-- ===== src/Storage/Contents.antt =====
-- The blocks of a File:Tag as its readers see them, and how an operation opens and closes: with the
-- lock, and metadata.config read.
pub mod Write
pub mod Read
pub mod RoundTrip
pub mod Resized
pub mod Refusals
pub mod Sealed
pub mod Shared
use tp_ssoo_2c.Base.{ℕ, ◌≡◌, refl, sym, ap, ◌∙◌, Option, none, some, List, get_elem?}
use tp_ssoo_2c.Storage.{FileTag, MetadataFile, Lock, Fs, listo, M, ◌>>=◌, ◌>>◌, bind_listo}
use tp_ssoo_2c.Storage.FileSystem.{buscar, storage_metadata_read}
use tp_ssoo_2c.Storage.Locks.{storage_wait, storage_signal}
use tp_ssoo_2c.Storage.Locks.Balance.{Libre, tomado, storage_wait-Libre, storage_signal-tomado}

-- metadata.config of the File:Tag.
unfoldable pub metadata_de : FileTag → Fs → Option MetadataFile
metadata_de ft s = elim (buscar ft s.files) [ none ↦ none | some d ↦ d.metadata ]

-- The state in which the lock is taken.
abbrev pub tomar : FileTag → Fs → Fs
tomar ft s = record s { locks_index = tomado ft s.locks_index }

pub abrir :
    {A : Type 0} (ft : FileTag) (k : Option MetadataFile → M A) (s : Fs) (o : Option MetadataFile)
    → Libre ft s.locks_index
    → metadata_de ft s ≡ o
    → (storage_wait ft >> (storage_metadata_read ft >>= k)) s ≡ k o (tomar ft s)
unfolding metadata_de storage_metadata_read
abrir ft k s o l e =
    bind_listo (storage_wait ft) (λ _. storage_metadata_read ft >>= k) s (tomar ft s) tt
      (storage_wait-Libre ft s l)
    ∙ bind_listo (storage_metadata_read ft) k (tomar ft s) (tomar ft s) o
        (ap (λ p. listo p (tomar ft s)) e)

pub soltar :
    {A : Type 0} (ft : FileTag) (k : M A) (ls : List Lock) (s : Fs)
    → Libre ft ls
    → s.locks_index ≡ tomado ft ls
    → (storage_signal ft >> k) s ≡ k (record s { locks_index = ls })
soltar ft k ls s l e =
    bind_listo (storage_signal ft) (λ _. k) s _ tt (storage_signal-tomado ft ls s l e)
