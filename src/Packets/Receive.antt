-- ===== src/Packets/Receive.antt =====
-- utils/src/utils/paquetes.c: `recibir_paquete` and `recv_package`. What the peer has sent up to
-- its closing of the connection is a list of bytes. `recv` with MSG_WAITALL fails on a closed
-- connection (the program exits), and returns short when the peer closes in the middle: the code
-- does not see that, and goes on with bytes that it never received.
use tp_ssoo_2c.Base.{
  ℕ, zero, suc, ◌+◌, ◌^◌, List, [], ◌∷◌, length, take, drop, ◌==◌, leb, ltb, if◌then◌else◌, Bool,
  true, false,
}
use tp_ssoo_2c.Packets.{
  Paquete, decode_int, crear_paquete, agregar_a_paquete, nulo, fuera, item, obtener_siguiente_item,
}

-- `indefinido`: bytes that were never received, or outside of a buffer, are used. `agotado` is no
-- outcome of the code: the model ran out of fuel.
pub data Recepcion (A : Type 0) : Type 0 where
  recibido : A → List ℕ → Recepcion A
  exit_failure indefinido agotado : Recepcion A

unfoldable pub recv_int : {A : Type 0} → List ℕ → (ℕ → List ℕ → Recepcion A) → Recepcion A
unfolding decode_int
recv_int [] k = exit_failure
recv_int (a ∷ b ∷ c ∷ d ∷ resto) k = k (decode_int a b c d) resto
recv_int _ k = indefinido

unfoldable pub recv_bytes :
    {A : Type 0} → ℕ → List ℕ → (List ℕ → List ℕ → Recepcion A) → Recepcion A
recv_bytes n [] k = exit_failure
recv_bytes n (b ∷ bs) k =
    if leb n (length (b ∷ bs)) then k (take n (b ∷ bs)) (drop n (b ∷ bs)) else indefinido

-- `size > 0` of an `int` that is not 0.
abbrev pub es_positivo : ℕ → Bool
es_positivo n = ltb n (2 ^ 31)

-- The `while` of `recibir_paquete`, entered with `size != 0` and `size_total != 0`.
unfoldable pub recibir_items : ℕ → Paquete → List ℕ → Recepcion Paquete
unfolding recv_int recv_bytes
recibir_items zero p entrada = agotado
recibir_items (suc fuel) p entrada = recv_int entrada λ size resto. elim (size == 0) [
  | true ↦ recibido p resto
  | false ↦ elim (es_positivo size) [
    | true ↦
        recv_bytes size resto
          λ buffer resto'. recibir_items fuel (agregar_a_paquete p buffer) resto'
    | false ↦ recibir_items fuel p resto
  ]
]

unfoldable pub recibir_paquete : List ℕ → Recepcion Paquete
unfolding recibir_items
recibir_paquete entrada = recv_int entrada λ codigo resto. recv_int resto λ size_total resto'.
    if size_total == 0
    then recibido (crear_paquete codigo) resto'
    else recibir_items (length resto' + 1) (crear_paquete codigo) resto'

-- The loop of `recv_package` over the items of the packet.
unfoldable pub sacar_items :
    ℕ
    → Paquete
    → List ℕ
    → (List (List ℕ) → Recepcion (ℕ × List (List ℕ)))
    → Recepcion (ℕ × List (List ℕ))
sacar_items zero p resto k = agotado
sacar_items (suc fuel) p resto k = elim (obtener_siguiente_item p) [
  | nulo ↦ k []
  | fuera ↦ indefinido
  | item dato p' ↦ sacar_items fuel p' resto λ datos. k (dato ∷ datos)
]

-- The list that `recv_package` returns: its first element, which `get_opcode` takes, and the items.
unfoldable pub recv_package : List ℕ → Recepcion (ℕ × List (List ℕ))
unfolding recibir_paquete sacar_items
recv_package entrada = elim (recibir_paquete entrada) [
  | recibido p resto ↦
      sacar_items (p.buffer.size + 1) p resto λ datos. recibido (p.codigo_operacion, datos) resto
  | exit_failure ↦ exit_failure
  | indefinido ↦ indefinido
  | agotado ↦ agotado
]
