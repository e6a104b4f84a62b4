-- ===== src/Worker/Access.antt =====
-- A write and a read of the memory of a worker (escribir_pagina and leer_pagina of
-- worker/src/memoria.c).
use Prim.Native.String.{String}
use tp_ssoo_2c.Base.{
  ℕ, ◌+◌, ◌-◌, ◌*◌, ◌≤◌, ◌<◌, ◌≡◌, refl, ap, true, false, some, List, [], ◌++◌, length, take, leb,
  le→leb, length-take, append-nil, arith,
}
use native.Mathlib.Nat.{div-lt_iff_lt-mul}
use tp_ssoo_2c.Worker.{NodoPagina, nodo}
use tp_ssoo_2c.Worker.Machine.{
  Entorno, Estado, Salida, hecho, exit_failure, fallo, y_luego, y_luego_ext, y_luego-pure, pure,
}
use tp_ssoo_2c.Worker.Tables.{leer_nodo, cambiar_nodo}
use tp_ssoo_2c.Worker.Frames.{ceil, leer_marco, interaccion_escritura}
use tp_ssoo_2c.Worker.Pages.{escribir_resto, escribir_pagina, leer_resto, leer_bytes}

ceil_uno : (n tam : ℕ) → 0 < n → n ≤ tam → ceil n tam - 1 ≡ 0
ceil_uno n tam h k =
    omega
      (arith, (div-lt_iff_lt-mul {k = tam} {x = n + tam - 1} {y = 2} (omega arith)).1 (omega arith))

leb_no : (a b : ℕ) → b < a → leb a b ≡ false
leb_no a b h = ground arith

sin_resto : {S : Type 0} (r : Salida S (List ℕ)) → y_luego r (λ leidos. pure (leidos ++ [])) ≡ r
sin_resto (hecho leidos s) = ap (λ l. hecho l s) (append-nil leidos)
sin_resto exit_failure = refl
sin_resto fallo = refl

module _ (e : Entorno) where
  abbrev espacio : Estado e.almacen.State → NodoPagina → ℕ → ℕ
  espacio s p base = s.memoria.tam_pagina - (base - s.memoria.tam_pagina * p.nro_pagina)

  -- Data that fits in one page, but not in what is left of the page of its address, is cut: nothing is
  -- written to the next page.
  pub escribir_pagina-cut :
      (s : Estado e.almacen.State) (a : ℕ) (p : NodoPagina) (identificador : String) (base : ℕ)
      (datos : List ℕ)
      → nodo s.memoria.paginas a ≡ some p
      → espacio s p base < length datos
      → length datos ≤ s.memoria.tam_pagina
      → escribir_pagina e a identificador base datos s
        ≡ escribir_pagina e a identificador base (take (espacio s p base) datos) s
  unfolding escribir_pagina leer_nodo escribir_resto
  escribir_pagina-cut s a p identificador base datos hp hm hl =
      rw
        (
          hp,
          leb_no (length datos) (espacio s p base) hm,
          ceil_uno (length datos) s.memoria.tam_pagina (omega arith) hl,
          le→leb (length (take (espacio s p base) datos)) (espacio s p base)
              (omega (arith, length-take (espacio s p base) datos (omega arith))),
        )
        (y_luego_ext (leer_marco p.nro_marco s) _ _ λ m t.
          y_luego_ext (cambiar_nodo a (λ q. record q { modificado = true; uso = true }) t) _ _
            λ _ u. y_luego-pure (
              interaccion_escritura e p.nro_marco (base - s.memoria.tam_pagina * p.nro_pagina)
                (take (espacio s p base) datos) u))

  -- A read that fits in one page, but not in what is left of the page of its address, has the bytes to
  -- the end of the page alone.
  pub leer_bytes-cut :
      (s : Estado e.almacen.State) (a : ℕ) (p : NodoPagina) (identificador : String) (base size : ℕ)
      → nodo s.memoria.paginas a ≡ some p
      → espacio s p base < size
      → size ≤ s.memoria.tam_pagina
      → leer_bytes e a identificador base size s
        ≡ leer_bytes e a identificador base (espacio s p base) s
  unfolding leer_bytes leer_nodo leer_resto
  leer_bytes-cut s a p identificador base size hp hm hl =
      rw
        (
          hp,
          leb_no size (espacio s p base) hm,
          ceil_uno size s.memoria.tam_pagina (omega arith) hl,
          le→leb (espacio s p base) (espacio s p base) (omega arith),
        )
        (y_luego_ext (cambiar_nodo a (λ q. record q { uso = true }) s) _ _ λ _ u. sin_resto _)
