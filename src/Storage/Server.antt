-- ===== src/Storage/Server.antt =====
-- storage/src/storage_operaciones.c and storage_worker_handler.c: one message of a worker. The
-- packets are taken apart already; `envio` is whether `send` returned more than 0, `meta_abre` the
-- answer of the operating system to the `fopen` of a new metadata.config.
use Prim.Native.String.{String}
use tp_ssoo_2c.Base.{ℕ, ◌+◌, ◌-◌, Bool, true, false, Option, none, some, List}
use tp_ssoo_2c.Codes.{
  RtaStorage, SetInstrucciones, create, commit, delete, truncate, tag, not_def_err,
}
use tp_ssoo_2c.Storage.{FileTag, M, ◌>>=◌, pure, get}
use tp_ssoo_2c.Storage.FileSystem.{storage_metadata_read}
use tp_ssoo_2c.Storage.Files.{storage_create, storage_truncate, storage_write, storage_read}
use tp_ssoo_2c.Storage.Commit.{storage_commit, storage_tag, storage_delete}

-- The items of an INSTRUCCION_STORAGE; `size` and `destino` are there for TRUNCATE and TAG.
pub record Paquete : Type 0 where
  pub copi : SetInstrucciones
  pub file_tag : FileTag
  pub size : ℕ
  pub destino : FileTag

pub data Mensaje : Type 0 where
  handshake_worker_storage : String → Mensaje
  info_file_tag_storage : FileTag → Mensaje
  instruccion_storage : Paquete → Mensaje
  modificaciones_storage : FileTag → ℕ → List ℕ → Mensaje
  solicitud_storage : FileTag → ℕ → Mensaje
  desconexion desconocido : Mensaje

-- What is sent back; the size -1 of a File:Tag that is not there is `none`.
pub data Respuesta : Type 0 where
  block_size : ℕ → Respuesta
  info_file_tag : Option ℕ → Respuesta
  resultado : RtaStorage → Respuesta
  pagina : RtaStorage → Option (List ℕ) → Respuesta
  nada : Respuesta

-- The answer, CANT_WORKERS, and whether the handler goes on with the next message.
pub record Vuelta : Type 0 where
  pub respuesta : Respuesta
  pub cant_workers : ℕ
  pub sigue : Bool

module _ (string_equals_ignore_case : String → String → Bool) (crypto_md5 : List ℕ → String) where
  unfoldable pub desglozar_instruccion : Bool → Paquete → M RtaStorage
  desglozar_instruccion meta_abre pkg = elim pkg.copi [
    | create ↦ storage_create meta_abre pkg.file_tag
    | commit ↦ storage_commit crypto_md5 pkg.file_tag
    | delete ↦ storage_delete string_equals_ignore_case crypto_md5 pkg.file_tag
    | truncate ↦ storage_truncate pkg.file_tag pkg.size
    | tag ↦ storage_tag meta_abre pkg.file_tag pkg.destino
    | _ ↦ pure not_def_err
  ]

  unfoldable pub storage_worker_handler : Bool → Bool → ℕ → Mensaje → M Vuelta
  storage_worker_handler meta_abre envio cant (handshake_worker_storage id) = do
    s ← get
    pure (record { respuesta = block_size s.block_size; cant_workers = cant + 1; sigue = true })
  storage_worker_handler meta_abre envio cant (info_file_tag_storage ft) = do
    metadata ← storage_metadata_read ft
    pure (record {
      respuesta = info_file_tag (elim metadata [ none ↦ none | some meta ↦ some meta.tamanio ]);
      cant_workers = cant;
      sigue = true;
    })
  storage_worker_handler meta_abre envio cant (instruccion_storage pkg) = do
    result ← desglozar_instruccion meta_abre pkg
    pure (record { respuesta = resultado result; cant_workers = cant; sigue = envio })
  storage_worker_handler meta_abre envio cant (modificaciones_storage ft nro_pagina contenido) = do
    result ← storage_write ft nro_pagina contenido
    pure (record { respuesta = resultado result; cant_workers = cant; sigue = envio })
  storage_worker_handler meta_abre envio cant (solicitud_storage ft nro_pagina) = do
    r ← storage_read ft nro_pagina
    pure (record { respuesta = pagina r.0 r.1; cant_workers = cant; sigue = true })
  storage_worker_handler meta_abre envio cant desconexion =
      pure (record { respuesta = nada; cant_workers = cant - 1; sigue = false })
  storage_worker_handler meta_abre envio cant desconocido =
      pure (record { respuesta = nada; cant_workers = cant; sigue = true })
