-- ===== src/Worker/Peer.antt =====
-- The storage behind the socket of a worker: what the worker asks for is a message of
-- storage/src/storage_worker_handler.c. A thread of the storage that faults or waits for good sends
-- no answer, and the connection is taken as broken.
use Prim.Native.String.{String}
use tp_ssoo_2c.Base.{ℕ, Bool, true, Option, none, some, List, []}
use tp_ssoo_2c.Codes.{RtaStorage}
use tp_ssoo_2c.Storage.{Fs, Res, listo, bloqueado, fallo}
use tp_ssoo_2c.Storage.Server.{
  Mensaje, info_file_tag_storage, instruccion_storage, modificaciones_storage, solicitud_storage,
  Respuesta, info_file_tag, resultado, pagina, Vuelta, storage_worker_handler,
}
use tp_ssoo_2c.Worker.Machine.{Almacen}

abbrev pub tamanio_de : Respuesta → Fs → Option (Option ℕ × Fs)
tamanio_de (info_file_tag n) t = some (n, t)
tamanio_de _ t = none

abbrev pub resultado_de : Respuesta → Fs → Option (RtaStorage × Fs)
resultado_de (resultado r) t = some (r, t)
resultado_de _ t = none

-- The block behind an error is never read.
abbrev pub pagina_de : Respuesta → Fs → Option ((RtaStorage × List ℕ) × Fs)
pagina_de (pagina r (some bytes)) t = some ((r, bytes), t)
pagina_de (pagina r none) t = some ((r, []), t)
pagina_de _ t = none

abbrev pub contesta : {A : Type 0} → (Respuesta → Fs → Option A) → Res Vuelta → Option A
contesta f (listo v t) = f v.respuesta t
contesta f bloqueado = none
contesta f fallo = none

module _ (string_equals_ignore_case : String → String → Bool) (crypto_md5 : List ℕ → String) where
  unfoldable pub pedir : {A : Type 0} → (Respuesta → Fs → Option A) → Mensaje → Fs → Option A
  unfolding storage_worker_handler
  pedir f m s =
      contesta f (storage_worker_handler string_equals_ignore_case crypto_md5 true true 1 m s)

  abbrev pub storage_almacen : Almacen
  storage_almacen = record {
    State = Fs;
    info_file_tag = λ ft. pedir tamanio_de (info_file_tag_storage ft);
    solicitud = λ ft n. pedir pagina_de (solicitud_storage ft n);
    modificaciones = λ ft n bytes. pedir resultado_de (modificaciones_storage ft n bytes);
    instruccion = λ paquete. pedir resultado_de (instruccion_storage paquete);
  }
