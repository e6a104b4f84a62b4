-- ===== src/Codes.antt =====
-- utils/src/utils/op_codes.h and set_instrucciones.h: the codes that the modules exchange.

use tp_ssoo_2c.Base.{Bool, true, false}

pub data OpCode : Type 0 where
  desconexion : OpCode
  handshake_query_master handshake_worker_master handshake_worker_storage : OpCode
  resultado_handshake asignacion_worker solicitud_storage consulta_interrupcion : OpCode
  instruccion_storage instruccion_master pagina_worker lectura_master : OpCode
  solicitud_ejecucion query_finalizada notif_query_control desalojo_query : OpCode
  query_desalojada info_file_tag_storage info_file_tag_worker : OpCode
  modificaciones_storage rta_storage_worker error_at_exec : OpCode

pub data RtaStorage : Type 0 where
  not_def_err : RtaStorage
  op_exitosa : RtaStorage
  err_inexistencia err_preexistencia err_esp_insuficiente : RtaStorage
  err_write_commited err_fuera_limite : RtaStorage

pub data RazonFin : Type 0 where
  finalizacion_correcta err_desc_worker err_storage : RazonFin

pub data SetInstrucciones : Type 0 where
  create truncate write flush commit read tag delete fin : SetInstrucciones

-- `== OP_EXITOSA`.
abbrev pub es_exitosa : RtaStorage → Bool
es_exitosa op_exitosa = true
es_exitosa _ = false
