-- ===== src/Packets/RoundTrip.antt =====
-- What one program sends, the other receives: `serializar_paquete` against `recv_package`.
use native.Mathlib.Nat.{zero-add}
use tp_ssoo_2c.Base.{
  ℕ, zero, suc, ◌+◌, ◌^◌, ◌≤◌, ◌<◌, ◌≡◌, refl, sym, ap, ◌∙◌, List, [], ◌∷◌, ◌++◌, length,
  append_assoc, length-append, take_append_length, drop_append_length, arith, lt→ltb, le→leb, ne→==,
  if◌then◌else◌, ◌==◌, ◌≢◌,
}
use tp_ssoo_2c.Packets.{
  Paquete, encode_int, crear_paquete, agregar_a_paquete, serializar_paquete,
  espacio_paquete_serializado, obtener_siguiente_item, nulo, item, sacar,
}
use tp_ssoo_2c.Packets.Receive.{
  Recepcion, recibido, recibir_items, recibir_paquete, sacar_items, recv_package,
}
use tp_ssoo_2c.Packets.Laws.{
  agregar_todos, cuerpo, recv_int-encode_int, recv_bytes-append, stream-agregar_todos,
  size-agregar_todos, codigo-agregar_todos, length-encode_int, decode-encode_int,
}

-- Every item has at least one byte: the strings are sent with their final NUL.
abbrev pub NoVacios : List (List ℕ) → Type 0
NoVacios [] = Unit {0}
NoVacios (d ∷ ds) = (0 < length d) × NoVacios ds

length-cuerpo :
    (d : List ℕ) (ds : List (List ℕ)) → length (cuerpo (d ∷ ds)) ≡ 4 + length d + length (cuerpo ds)
unfolding cuerpo
length-cuerpo d ds = omega (
  arith,
  length-append (encode_int (length d)) (d ++ cuerpo ds),
  length-append d (cuerpo ds),
  length-encode_int (length d),
)

recibir_items-cuerpo :
    (fuel : ℕ) (p : Paquete) (ds : List (List ℕ)) (resto : List ℕ)
    → length ds < fuel
    → NoVacios ds
    → length (cuerpo ds) < 2 ^ 31
    → recibir_items fuel p (cuerpo ds ++ (encode_int 0 ++ resto))
      ≡ recibido (agregar_todos p ds) resto
unfolding recibir_items agregar_todos cuerpo
recibir_items-cuerpo zero p ds resto f v b = absurd (omega arith)
recibir_items-cuerpo (suc fuel) p [] resto f v b = recv_int-encode_int 0 resto _ (omega arith)
recibir_items-cuerpo (suc fuel) p (d ∷ ds) resto f v b =
    rw (append_assoc, append_assoc)
      (recv_int-encode_int (length d) (d ++ (cuerpo ds ++ (encode_int 0 ++ resto))) _
          (omega (arith, length-cuerpo d ds))
        ∙ rw
            (
              ne→== (length d) 0 (omega arith),
              lt→ltb (length d) (2 ^ 31) (omega (arith, length-cuerpo d ds)),
            )
            (recv_bytes-append d _ _ v.0
              ∙ recibir_items-cuerpo fuel (agregar_a_paquete p d) ds resto (omega arith) v.1
                  (omega (arith, length-cuerpo d ds))))

sacar_lem :
    (p : Paquete) (d r : List ℕ)
    → 0 < length d
    → p.buffer.size ≡ 4 + length d + length r
    → sacar p (length d) (d ++ r)
      ≡ item d (record p { buffer = record { size = length r; stream = r } })
unfolding sacar
sacar_lem p d r h z =
    rw
      (
        ne→== (length d) 0 (omega arith),
        le→leb (length d) (length (d ++ r)) (omega (arith, length-append d r)),
        take_append_length d r,
        drop_append_length d r,
      )
      (ap (λ (n : ℕ). item d (record p { buffer = record { size = n; stream = r } })) (omega arith))

obtener_siguiente_item-encode_int :
    (p : Paquete) (d r : List ℕ)
    → 0 < length d
    → length d < 2 ^ 32
    → p.buffer.stream ≡ encode_int (length d) ++ (d ++ r)
    → p.buffer.size ≡ 4 + length d + length r
    → obtener_siguiente_item p
      ≡ item d (record p { buffer = record { size = length r; stream = r } })
unfolding obtener_siguiente_item encode_int
obtener_siguiente_item-encode_int p d r h b s z =
    rw (ne→== p.buffer.size 0 (omega arith), s, decode-encode_int (length d) b)
      (sacar_lem p d r h z)

obtener_siguiente_item_end : (p : Paquete) → p.buffer.size ≡ 0 → obtener_siguiente_item p ≡ nulo
unfolding obtener_siguiente_item
obtener_siguiente_item_end p z = rw z

sacar_items-cuerpo :
    (fuel : ℕ) (p : Paquete) (ds : List (List ℕ)) (resto : List ℕ)
    (k : List (List ℕ) → Recepcion (ℕ × List (List ℕ)))
    → length ds < fuel
    → NoVacios ds
    → length (cuerpo ds) < 2 ^ 31
    → p.buffer.stream ≡ cuerpo ds
    → p.buffer.size ≡ length (cuerpo ds)
    → sacar_items fuel p resto k ≡ k ds
unfolding sacar_items cuerpo
sacar_items-cuerpo zero p ds resto k f v b s z = absurd (omega arith)
sacar_items-cuerpo (suc fuel) p [] resto k f v b s z =
    rw (obtener_siguiente_item_end p z, sacar_items)
sacar_items-cuerpo (suc fuel) p (d ∷ ds) resto k f v b s z =
    rw
      (
        obtener_siguiente_item-encode_int p d (cuerpo ds) v.0 (omega (arith, length-cuerpo d ds)) s
            (omega (arith, length-cuerpo d ds)),
        sacar_items,
      )
      (sacar_items-cuerpo fuel _ ds resto _ (omega arith) v.1 (omega (arith, length-cuerpo d ds))
        refl refl)

length-le-cuerpo : (ds : List (List ℕ)) → NoVacios ds → length ds ≤ length (cuerpo ds)
length-le-cuerpo [] v = omega arith
length-le-cuerpo (d ∷ ds) v = omega (arith, length-cuerpo d ds, length-le-cuerpo ds v.1)

-- What is serialised, in terms of the items.
serializar_paquete-cuerpo :
    (codigo : ℕ) (ds : List (List ℕ))
    → serializar_paquete (agregar_todos (crear_paquete codigo) ds)
      ≡ encode_int codigo
        ++ (encode_int (length (cuerpo ds))
            ++ (if length (cuerpo ds) == 0 then [] else cuerpo ds ++ encode_int 0))
unfolding serializar_paquete crear_paquete
serializar_paquete-cuerpo codigo ds = rw (
  codigo-agregar_todos (crear_paquete codigo) ds,
  size-agregar_todos (crear_paquete codigo) ds,
  stream-agregar_todos (crear_paquete codigo) ds,
  zero-add,
)

length-encode_int_final :
    (n : ℕ) (ds : List (List ℕ))
    → length (if n == 0 then [] else cuerpo ds ++ encode_int 0)
      ≡ (if n == 0 then 0 else length (cuerpo ds) + 4)
unfolding encode_int
length-encode_int_final n ds = ground (arith, length-append (cuerpo ds) (encode_int 0))

-- The length of what is sent, and the answer without its wrap-around.
length_sin_vuelta :
    (codigo : ℕ) (ds : List (List ℕ))
    → length (serializar_paquete (agregar_todos (crear_paquete codigo) ds))
      ≡ (if length (cuerpo ds) == 0 then 8 + length (cuerpo ds) else 8 + length (cuerpo ds) + 4)
unfolding crear_paquete encode_int
length_sin_vuelta codigo ds =
    rw (serializar_paquete-cuerpo codigo ds)
      (ground (arith, length-encode_int_final (length (cuerpo ds)) ds))

espacio_sin_vuelta :
    (codigo : ℕ) (ds : List (List ℕ))
    → length (cuerpo ds) + 12 < 2 ^ 31
    → espacio_paquete_serializado (agregar_todos (crear_paquete codigo) ds)
      ≡ (if length (cuerpo ds) == 0 then 8 + length (cuerpo ds) else 8 + length (cuerpo ds) + 4)
unfolding espacio_paquete_serializado crear_paquete
espacio_sin_vuelta codigo ds b = rw (size-agregar_todos (crear_paquete codigo) ds) (ground arith)

-- Where the items with their lengths, and twelve bytes more, fit an `int`, what `serializar_paquete`
-- writes has as many bytes as `espacio_paquete_serializado` tells malloc and `send`, and that `int` is
-- not negative.
pub length-serializar_paquete :
    (codigo : ℕ) (ds : List (List ℕ))
    → length (cuerpo ds) + 12 < 2 ^ 31
    → (length (serializar_paquete (agregar_todos (crear_paquete codigo) ds))
        ≡ espacio_paquete_serializado (agregar_todos (crear_paquete codigo) ds))
      × (espacio_paquete_serializado (agregar_todos (crear_paquete codigo) ds) < 2 ^ 31)
length-serializar_paquete codigo ds b =
    let e = espacio_sin_vuelta codigo ds b in
    (length_sin_vuelta codigo ds ∙ sym e, rw e (ground arith))

recibir_paquete_vacio :
    (codigo : ℕ) (resto : List ℕ)
    → codigo < 2 ^ 32
    → recibir_paquete (encode_int codigo ++ (encode_int 0 ++ resto))
      ≡ recibido (crear_paquete codigo) resto
unfolding recibir_paquete
recibir_paquete_vacio codigo resto c =
    recv_int-encode_int codigo (encode_int 0 ++ resto) _ c
    ∙ recv_int-encode_int 0 resto _ (omega arith)

recibir_paquete_lleno :
    (codigo n : ℕ) (xs : List ℕ)
    → codigo < 2 ^ 32
    → n < 2 ^ 32
    → n ≢ 0
    → recibir_paquete (encode_int codigo ++ (encode_int n ++ xs))
      ≡ recibir_items (length xs + 1) (crear_paquete codigo) xs
unfolding recibir_paquete
recibir_paquete_lleno codigo n xs c b z =
    recv_int-encode_int codigo (encode_int n ++ xs) _ c
    ∙ recv_int-encode_int n xs _ b
    ∙ rw (ne→== n 0 z)

recibir_paquete_sin_items :
    (codigo : ℕ) (resto : List ℕ)
    → codigo < 2 ^ 32
    → recibir_paquete (serializar_paquete (agregar_todos (crear_paquete codigo) []) ++ resto)
      ≡ recibido (agregar_todos (crear_paquete codigo) []) resto
unfolding cuerpo agregar_todos
recibir_paquete_sin_items codigo resto c =
    rw (serializar_paquete-cuerpo codigo [], append_assoc, append_assoc)
      (recibir_paquete_vacio codigo resto c)

recibir_paquete-serializar_paquete :
    (codigo : ℕ) (ds : List (List ℕ)) (resto : List ℕ)
    → codigo < 2 ^ 32
    → NoVacios ds
    → length (cuerpo ds) < 2 ^ 31
    → recibir_paquete (serializar_paquete (agregar_todos (crear_paquete codigo) ds) ++ resto)
      ≡ recibido (agregar_todos (crear_paquete codigo) ds) resto
recibir_paquete-serializar_paquete codigo [] resto c v b = recibir_paquete_sin_items codigo resto c
recibir_paquete-serializar_paquete codigo (d ∷ ds) resto c v b =
    rw
      (
        serializar_paquete-cuerpo codigo (d ∷ ds),
        ne→== (length (cuerpo (d ∷ ds))) 0 (omega (arith, length-cuerpo d ds)),
        append_assoc,
        append_assoc,
        append_assoc,
      )
      (recibir_paquete_lleno codigo _ _ c (omega arith) (omega (arith, length-cuerpo d ds))
        ∙ recibir_items-cuerpo _ _ (d ∷ ds) resto
            (omega (
              arith,
              length-le-cuerpo (d ∷ ds) v,
              length-append (cuerpo (d ∷ ds)) (encode_int 0 ++ resto),
            ))
            v b)

-- A message of any number of non-empty items that fits an `int` is received as it was sent: the
-- same code, the same items in the same order, and the bytes behind it are left in the socket.
pub recv_package-serializar_paquete :
    (codigo : ℕ) (ds : List (List ℕ)) (resto : List ℕ)
    → codigo < 2 ^ 32
    → NoVacios ds
    → length (cuerpo ds) < 2 ^ 31
    → recv_package (serializar_paquete (agregar_todos (crear_paquete codigo) ds) ++ resto)
      ≡ recibido (codigo, ds) resto
unfolding recv_package crear_paquete
recv_package-serializar_paquete codigo ds resto c v b =
    let p = agregar_todos (crear_paquete codigo) ds in
    rw (recibir_paquete-serializar_paquete codigo ds resto c v b, recv_package)
      (sacar_items-cuerpo (p.buffer.size + 1) p ds resto _
          (omega (arith, length-le-cuerpo ds v, size-agregar_todos (crear_paquete codigo) ds)) v b
          (stream-agregar_todos (crear_paquete codigo) ds)
          (size-agregar_todos (crear_paquete codigo) ds ∙ zero-add (length (cuerpo ds)))
        ∙ ap (λ (n : ℕ). recibido (n, ds) resto) (codigo-agregar_todos (crear_paquete codigo) ds))
