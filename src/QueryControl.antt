-- ===== src/QueryControl.antt =====
-- query_control/src/main.c: what a Query Control does with the messages of the master.
mod Tests
use Prim.Native.String.{String}
use tp_ssoo_2c.Base.{
  ℕ, ◌≡◌, refl, ap, ◌∙◌, Bool, true, false, Option, none, some, List, [], ◌∷◌, ◌++◌,
}
use tp_ssoo_2c.Codes.{
  RtaStorage, not_def_err, op_exitosa, err_fuera_limite, err_write_commited, err_esp_insuficiente,
  err_preexistencia, err_inexistencia, RazonFin, finalizacion_correcta, err_desc_worker,
  err_storage,
}

-- A NOTIF_QUERY_CONTROL: its kind, and the items that stand behind it; a reason that is not one of
-- razon_fin is `none`.
pub data Mensaje : Type 0 where
  notif_final : Option RazonFin → Option RtaStorage → Mensaje
  notif_read : String → String → String → Mensaje
  notif_desconocida desconocido : Mensaje

-- What is written to the log.
pub data Linea : Type 0 where
  finalizada_ok desconexion_worker motivo_desconocido : Linea
  fuera_de_limite no_permitida espacio_insuficiente preexistente inexistente no_definido : Linea
  lectura : String → String → String → Linea

-- The end of the program: main returns, it exits, it uses an item that is not there, or the messages
-- so far do not end it.
pub data Salida : Type 0 where
  retorna exit_failure fallo espera : Salida

unfoldable pub log_storage_error : RtaStorage → Linea
log_storage_error c_error = elim c_error [
  | err_fuera_limite ↦ fuera_de_limite
  | err_write_commited ↦ no_permitida
  | err_esp_insuficiente ↦ espacio_insuficiente
  | err_preexistencia ↦ preexistente
  | err_inexistencia ↦ inexistente
  | _ ↦ no_definido
]

-- The last message: the line for it, `none` where the code of the error is missing.
unfoldable pub razon_final : Option RazonFin → Option RtaStorage → Option Linea
unfolding log_storage_error
razon_final (some finalizacion_correcta) c_error = some finalizada_ok
razon_final (some err_desc_worker) c_error = some desconexion_worker
razon_final (some err_storage) none = none
razon_final (some err_storage) (some c_error) = some (log_storage_error c_error)
razon_final none c_error = some motivo_desconocido

abbrev anotar : Linea → List Linea × Salida → List Linea × Salida
anotar l (ls, r) = (l ∷ ls, r)

abbrev final : Option Linea → List Linea × Salida
final none = ([], fallo)
final (some l) = (l ∷ [], retorna)

unfoldable pub recibir_mensaje : List Mensaje → List Linea × Salida
unfolding razon_final
recibir_mensaje [] = ([], espera)
recibir_mensaje (desconocido ∷ ms) = ([], exit_failure)
recibir_mensaje (notif_desconocida ∷ ms) = ([], exit_failure)
recibir_mensaje (notif_final razon c_error ∷ ms) = final (razon_final razon c_error)
recibir_mensaje (notif_read file tag contenido ∷ ms) =
    anotar (lectura file tag contenido) (recibir_mensaje ms)

-- The reads among messages.
pub lecturas : List (String × (String × String)) → List Mensaje
lecturas [] = []
lecturas ((f, (t, c)) ∷ ls) = notif_read f t c ∷ lecturas ls

pub lineas : List (String × (String × String)) → List Linea
lineas [] = []
lineas ((f, (t, c)) ∷ ls) = lectura f t c ∷ lineas ls

final_lem :
    (ls : List (String × (String × String))) (razon : Option RazonFin) (c_error : Option RtaStorage)
    (ms : List Mensaje)
    → recibir_mensaje (lecturas ls ++ (notif_final razon c_error ∷ ms))
      ≡ (lineas ls ++ (final (razon_final razon c_error)).0, (final (razon_final razon c_error)).1)
unfolding recibir_mensaje lecturas lineas
final_lem [] razon c_error ms = refl
final_lem ((f, (t, c)) ∷ ls) razon c_error ms = rw (final_lem ls razon c_error ms) refl

-- The line that the program owes its user for each end of a query: the reason as the master sent it,
-- and the code behind a storage error.
pub data Cierre : Option RazonFin → Option RtaStorage → Linea → Type 0 where
  bien : {c : Option RtaStorage} → Cierre (some finalizacion_correcta) c finalizada_ok
  sin_worker : {c : Option RtaStorage} → Cierre (some err_desc_worker) c desconexion_worker
  otro_motivo : {c : Option RtaStorage} → Cierre none c motivo_desconocido
  limite : Cierre (some err_storage) (some err_fuera_limite) fuera_de_limite
  confirmado : Cierre (some err_storage) (some err_write_commited) no_permitida
  lleno : Cierre (some err_storage) (some err_esp_insuficiente) espacio_insuficiente
  repetido : Cierre (some err_storage) (some err_preexistencia) preexistente
  ausente : Cierre (some err_storage) (some err_inexistencia) inexistente
  sin_error : Cierre (some err_storage) (some op_exitosa) no_definido
  sin_definir : Cierre (some err_storage) (some not_def_err) no_definido

cierre_lem :
    (r : Option RazonFin) (c : Option RtaStorage) (l : Linea)
    → Cierre r c l
    → razon_final r c ≡ some l
unfolding razon_final log_storage_error
cierre_lem r c l bien = refl
cierre_lem r c l sin_worker = refl
cierre_lem r c l otro_motivo = refl
cierre_lem r c l limite = refl
cierre_lem r c l confirmado = refl
cierre_lem r c l lleno = refl
cierre_lem r c l repetido = refl
cierre_lem r c l ausente = refl
cierre_lem r c l sin_error = refl
cierre_lem r c l sin_definir = refl

-- Reads, then the end of the query, and then anything: each read is logged in its order, then the line
-- of `Cierre` for the reason and the code of the error, and the program returns without a look at what
-- follows; where a storage error comes without its code, it faults behind the reads.
pub recibir_mensaje-lecturas :
    (ls : List (String × (String × String))) (ms : List Mensaje)
    → ((razon : Option RazonFin) (c_error : Option RtaStorage) (l : Linea)
        → Cierre razon c_error l
        → recibir_mensaje (lecturas ls ++ (notif_final razon c_error ∷ ms))
          ≡ (lineas ls ++ (l ∷ []), retorna))
      × (recibir_mensaje (lecturas ls ++ (notif_final (some err_storage) none ∷ ms))
          ≡ (lineas ls ++ [], fallo))
unfolding razon_final
recibir_mensaje-lecturas ls ms = (
  λ razon c_error l x.
      final_lem ls razon c_error ms
      ∙ ap (λ o. (lineas ls ++ (final o).0, (final o).1)) (cierre_lem razon c_error l x),
  final_lem ls (some err_storage) none ms,
)
