-- ===== src/Packets/Laws.antt =====
-- Building, sending and taking apart one packet: laws of the operations of paquetes.c.
use tp_ssoo_2c.Base.{
  ℕ, ◌+◌, ◌/◌, ◌%◌, ◌^◌, ◌≤◌, ◌<◌, ◌≡◌, refl, ap, List, [], ◌∷◌, ◌++◌, length, take, drop,
  append_assoc, append-nil, length-append, take_append_length, drop_append_length, arith, le→leb,
}
use tp_ssoo_2c.Packets.{Paquete, encode_int, decode_int, agregar_a_paquete}
use tp_ssoo_2c.Packets.Receive.{Recepcion, recv_int, recv_bytes}

-- The calls of `agregar_a_paquete` for the items of a message, in order.
unfoldable pub agregar_todos : Paquete → List (List ℕ) → Paquete
agregar_todos p [] = p
agregar_todos p (d ∷ ds) = agregar_todos (agregar_a_paquete p d) ds

-- The bytes of those items: each behind its length.
unfoldable pub cuerpo : List (List ℕ) → List ℕ
cuerpo [] = []
cuerpo (d ∷ ds) = encode_int (length d) ++ (d ++ cuerpo ds)

pub decode-encode_int :
    (n : ℕ)
    → n < 2 ^ 32
    → decode_int (n % 256) (n / 256 % 256) (n / 65536 % 256) (n / 16777216 % 256) ≡ n
unfolding decode_int
decode-encode_int n h = omega arith

pub length-encode_int : (n : ℕ) → length (encode_int n) ≡ 4
unfolding encode_int
length-encode_int n = refl

pub recv_int-encode_int :
    {A : Type 0} (n : ℕ) (xs : List ℕ) (k : ℕ → List ℕ → Recepcion A)
    → n < 2 ^ 32
    → recv_int (encode_int n ++ xs) k ≡ k n xs
unfolding recv_int encode_int
recv_int-encode_int n xs k h = ap (λ m. k m xs) (decode-encode_int n h)

recv_bytes_lem :
    {A : Type 0} (n : ℕ) (bs : List ℕ) (k : List ℕ → List ℕ → Recepcion A)
    → 0 < length bs
    → n ≤ length bs
    → recv_bytes n bs k ≡ k (take n bs) (drop n bs)
unfolding recv_bytes
recv_bytes_lem n [] k h l = absurd (omega arith)
recv_bytes_lem n (b ∷ bs) k h l = rw (le→leb _ _ l)

pub recv_bytes-append :
    {A : Type 0} (d xs : List ℕ) (k : List ℕ → List ℕ → Recepcion A)
    → 0 < length d
    → recv_bytes (length d) (d ++ xs) k ≡ k d xs
recv_bytes-append d xs k h = rw (
  recv_bytes_lem (length d) (d ++ xs) k (omega (arith, length-append d xs))
      (omega (arith, length-append d xs)),
  take_append_length d xs,
  drop_append_length d xs,
)

pub stream-agregar_todos :
    (p : Paquete) (ds : List (List ℕ))
    → (agregar_todos p ds).buffer.stream ≡ p.buffer.stream ++ cuerpo ds
unfolding agregar_todos cuerpo agregar_a_paquete
stream-agregar_todos p [] = rw append-nil
stream-agregar_todos p (d ∷ ds) =
    rw (stream-agregar_todos (agregar_a_paquete p d) ds) (simp append_assoc)

pub size-agregar_todos :
    (p : Paquete) (ds : List (List ℕ))
    → (agregar_todos p ds).buffer.size ≡ p.buffer.size + length (cuerpo ds)
unfolding agregar_todos cuerpo agregar_a_paquete
size-agregar_todos p [] = omega arith
size-agregar_todos p (d ∷ ds) = omega (
  arith,
  size-agregar_todos (agregar_a_paquete p d) ds,
  length-append (encode_int (length d)) (d ++ cuerpo ds),
  length-append d (cuerpo ds),
  length-encode_int (length d),
)

pub codigo-agregar_todos :
    (p : Paquete) (ds : List (List ℕ)) → (agregar_todos p ds).codigo_operacion ≡ p.codigo_operacion
unfolding agregar_todos agregar_a_paquete
codigo-agregar_todos p [] = refl
codigo-agregar_todos p (d ∷ ds) = codigo-agregar_todos (agregar_a_paquete p d) ds
