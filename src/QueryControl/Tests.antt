-- ===== src/QueryControl/Tests.antt =====
-- A read, and the end of its query.
use tp_ssoo_2c.Base.{◌≡◌, some, [], ◌∷◌}
use tp_ssoo_2c.Codes.{err_inexistencia, err_storage}
use tp_ssoo_2c.QueryControl.{
  notif_read, notif_final, lectura, inexistente, retorna, recibir_mensaje, recibir_mensaje-lecturas,
  ausente, razon_final, log_storage_error, lecturas, lineas,
}

recibir_mensaje-lecturas_example :
    recibir_mensaje
      (notif_read "a" "b" "hola" ∷ notif_final (some err_storage) (some err_inexistencia) ∷ [])
    ≡ (lectura "a" "b" "hola" ∷ inexistente ∷ [], retorna)
unfolding recibir_mensaje razon_final log_storage_error lecturas lineas
recibir_mensaje-lecturas_example =
    (recibir_mensaje-lecturas (("a", ("b", "hola")) ∷ []) []).0 (some err_storage)
      (some err_inexistencia) inexistente ausente
