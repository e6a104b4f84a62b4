-- ===== src/Packets/Tests.antt =====
-- Packets that are sent, and the bytes that are received.
use tp_ssoo_2c.Base.{ℕ, ◌++◌, ◌<◌, ◌^◌, ◌≡◌, List, [], ◌∷◌, length, arith}
use tp_ssoo_2c.Packets.{encode_int, crear_paquete, serializar_paquete, espacio_paquete_serializado}
use tp_ssoo_2c.Packets.Receive.{recibido, recv_package}
use tp_ssoo_2c.Packets.Laws.{agregar_todos, cuerpo}
use tp_ssoo_2c.Packets.RoundTrip.{length-serializar_paquete, recv_package-serializar_paquete}

-- Two strings with their NUL.
abbrev datos : List (List ℕ)
datos = (65 ∷ 0 ∷ []) ∷ (66 ∷ 67 ∷ 0 ∷ []) ∷ []

recv_package-serializar_paquete_example :
    recv_package (serializar_paquete (agregar_todos (crear_paquete 300) datos) ++ (9 ∷ []))
    ≡ recibido (300, datos) (9 ∷ [])
unfolding cuerpo encode_int
recv_package-serializar_paquete_example =
    recv_package-serializar_paquete 300 datos (9 ∷ []) (omega arith)
      (omega arith, (omega arith, tt)) (omega arith)

length-serializar_paquete_example :
    (length (serializar_paquete (agregar_todos (crear_paquete 300) datos))
      ≡ espacio_paquete_serializado (agregar_todos (crear_paquete 300) datos))
    × (espacio_paquete_serializado (agregar_todos (crear_paquete 300) datos) < 2 ^ 31)
unfolding cuerpo encode_int
length-serializar_paquete_example = length-serializar_paquete 300 datos (omega arith)
