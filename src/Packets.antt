-- ===== src/Packets.antt =====
-- utils/src/utils/paquetes.c: the packets that the four programs exchange over their sockets.
-- A byte is a number below 256, an `int` is its 32-bit pattern, four bytes from the lowest (the
-- `memcpy` of the little-endian hosts that the project is built for).
pub mod Receive
pub mod Laws
pub mod RoundTrip
mod Tests
use tp_ssoo_2c.Base.{
  ℕ, ◌+◌, ◌-◌, ◌*◌, ◌/◌, ◌%◌, ◌^◌, List, [], ◌∷◌, ◌++◌, length, take, drop, ◌==◌, leb,
  if◌then◌else◌,
}

pub record Buffer : Type 0 where
  pub size : ℕ
  pub stream : List ℕ

pub record Paquete : Type 0 where
  pub codigo_operacion : ℕ
  pub buffer : Buffer

-- `memcpy` of an `int`, out and in.
pub encode_int : ℕ → List ℕ
encode_int n = (n % 256) ∷ (n / 256 % 256) ∷ (n / 65536 % 256) ∷ (n / 16777216 % 256) ∷ []

pub decode_int : ℕ → ℕ → ℕ → ℕ → ℕ
decode_int a b c d = a + 256 * b + 65536 * c + 16777216 * d

pub crear_paquete : ℕ → Paquete
crear_paquete codigo = record {
  codigo_operacion = codigo;
  buffer = record { size = 0; stream = [] };
}

-- `valor` holds the `size` bytes that the caller passes.
pub agregar_a_paquete : Paquete → List ℕ → Paquete
agregar_a_paquete p valor = record p {
  buffer = record {
    size = p.buffer.size + (length valor + 4);
    stream = p.buffer.stream ++ (encode_int (length valor) ++ valor);
  };
}

-- The pattern of the `int` that is returned: it wraps around.
pub espacio_paquete_serializado : Paquete → ℕ
espacio_paquete_serializado p =
    if p.buffer.size == 0
    then (8 + p.buffer.size) % 2 ^ 32
    else ((8 + p.buffer.size) % 2 ^ 32 + 4) % 2 ^ 32

pub serializar_paquete : Paquete → List ℕ
serializar_paquete p =
    encode_int p.codigo_operacion
    ++ (encode_int p.buffer.size
        ++ (if p.buffer.size == 0 then [] else p.buffer.stream ++ encode_int 0))

-- The `NULL`, the item with what is left of the packet, or a copy from outside of the buffer.
pub data Siguiente : Type 0 where
  nulo fuera : Siguiente
  item : List ℕ → Paquete → Siguiente

-- The `memcpy` of `size` bytes of the stream after its first four, by that size.
sacar : Paquete → ℕ → List ℕ → Siguiente
sacar p size resto =
    if size == 0
    then nulo
    else if leb size (length resto)
    then item (take size resto)
        (record p { buffer = record { size = p.buffer.size - 4 - size; stream = drop size resto } })
    else fuera

leer_item : Paquete → List ℕ → Siguiente
unfolding sacar decode_int
leer_item p (a ∷ b ∷ c ∷ d ∷ resto) = sacar p (decode_int a b c d) resto
leer_item p _ = fuera

pub obtener_siguiente_item : Paquete → Siguiente
unfolding leer_item
obtener_siguiente_item p = if p.buffer.size == 0 then nulo else leer_item p p.buffer.stream
