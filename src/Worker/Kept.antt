-- ===== src/Worker/Kept.antt =====
-- What a worker saves at the storage is what it gets back from there: MODIFICACIONES_STORAGE and
-- SOLICITUD_STORAGE of storage/src/storage_worker_handler.c, as worker/ uses them.
use Prim.Native.String.{String}
use tp_ssoo_2c.Base.{ℕ, ◌≡◌, ◌<◌, ◌⊎◌, inl, inr, ap, Bool, some, List, length}
use tp_ssoo_2c.Codes.{op_exitosa}
use tp_ssoo_2c.Storage.{FileTag, MetadataFile, work_in_progress, Fs, bind_listo}
use tp_ssoo_2c.Storage.Bitmap.Search.{Ocupados}
use tp_ssoo_2c.Storage.Locks.Balance.{Libre}
use tp_ssoo_2c.Storage.Contents.{metadata_de}
use tp_ssoo_2c.Storage.Contents.RoundTrip.{Coherente, Escrito, storage_write-Escrito}
use tp_ssoo_2c.Storage.Files.{storage_write, storage_read}
use tp_ssoo_2c.Storage.Server.{storage_worker_handler}
use tp_ssoo_2c.Worker.Machine.{Almacen}
use tp_ssoo_2c.Worker.Peer.{resultado_de, pagina_de, contesta, pedir, storage_almacen}

-- What a worker relies on, at one state of a storage: a page that it saves is accepted, and the page
-- that it then asks for is the same.
pub record Vuelve (almacen : Almacen) (ft : String × String) (n : ℕ) (bytes : List ℕ)
    (s : almacen.State) : Type 0 where
  pub despues : almacen.State
  pub guardada : almacen.modificaciones ft n bytes s ≡ some (op_exitosa, despues)
  pub pedida : almacen.solicitud ft n despues ≡ some ((op_exitosa, bytes), despues)

module _ (string_equals_ignore_case : String → String → Bool) (crypto_md5 : List ℕ → String) where
  Escrito-Vuelve :
      (ft : FileTag) (s t : Fs) (bytes : List ℕ) (n : ℕ)
      → Escrito ft s bytes n t
      → Vuelve (storage_almacen string_equals_ignore_case crypto_md5) ft n bytes s
  unfolding pedir storage_worker_handler
  Escrito-Vuelve ft s t bytes n h = record {
    despues = t;
    guardada =
        ap (contesta resultado_de)
          (bind_listo (storage_write ft n bytes) _ s t op_exitosa h.escrito);
    pedida =
        ap (contesta pagina_de)
          (bind_listo (storage_read ft n) _ t t (op_exitosa, some bytes) h.leido);
  }

  -- The storage keeps what a worker relies on: for a page of a File:Tag in progress, from a free lock on
  -- a coherent disk, a page that is saved comes back, or else every block above 0 is taken.
  pub storage_almacen-Vuelve :
      (ft : FileTag) (s : Fs) (meta : MetadataFile) (bytes : List ℕ) (n : ℕ)
      → Libre ft s.locks_index
      → Coherente s
      → metadata_de ft s ≡ some meta
      → meta.estado ≡ work_in_progress
      → length bytes ≡ s.block_size
      → n < length meta.blocks
      → Vuelve (storage_almacen string_equals_ignore_case crypto_md5) ft n bytes s
        ⊎ Ocupados s.bitmap 1 (length s.bitmap)
  storage_almacen-Vuelve ft s meta bytes n libre co e w len lt =
      elim (storage_write-Escrito ft s meta bytes n libre co e w len lt) [
        | inl (t, h) ↦ inl (Escrito-Vuelve ft s t bytes n h)
        | inr (f, lleno) ↦ inr lleno
      ]
