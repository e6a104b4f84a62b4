-- ===== src/Worker/Notify.antt =====
-- A page is sent to the storage (notificar_cambios of worker/src/algoritmos_reemplazo.c).
use Prim.Native.String.{String}
use tp_ssoo_2c.Base.{ℕ, ◌≡◌, inl, inr, refl, some, List, ◌∷◌, Bool-cases}
use tp_ssoo_2c.Codes.{RtaStorage, es_exitosa}
use tp_ssoo_2c.Worker.{NodoPagina, nodo}
use tp_ssoo_2c.Worker.Machine.{Entorno, Estado, hecho, Aviso, error_at_exec}
use tp_ssoo_2c.Worker.Tables.{leer_nodo, dos_primeros, agregar_file_tag}
use tp_ssoo_2c.Worker.Evict.{notificar_cambios}

module _ (e : Entorno) where
  -- The storage answers every MODIFICACIONES_STORAGE.
  unfoldable pub Contesta : Type 0
  Contesta =
      (ft : String × String) (n : ℕ) (bytes : List ℕ) (s : e.almacen.State)
      → (r : RtaStorage) × (t : e.almacen.State) × (e.almacen.modificaciones ft n bytes s
          ≡ some (r, t))

  -- The bytes are sent for the page, and the master is told of an error.
  pub notificar_cambios-hecho :
      (a : ℕ) (identificador : String) (ft : String × String) (bytes : List ℕ)
      (s : Estado e.almacen.State) (p : NodoPagina)
      → Contesta
      → dos_primeros (e.string_split identificador ":") ≡ some ft
      → nodo s.memoria.paginas a ≡ some p
      → (r : RtaStorage) × (t : e.almacen.State) × (avisos : List Aviso) × (e.almacen.modificaciones
            ft p.nro_pagina bytes s.almacen
          ≡ some (r, t))
        × (notificar_cambios e a identificador bytes s
            ≡ hecho tt (record s { almacen = t; avisos = avisos }))
  unfolding Contesta notificar_cambios agregar_file_tag leer_nodo
  notificar_cambios-hecho a identificador ft bytes s p c d h =
      let (r, t, eq) = c ft p.nro_pagina bytes s.almacen in
      elim (Bool-cases (es_exitosa r)) [
        | inl ok ↦ (r, t, s.avisos, eq, rw (d, h, eq, ok) refl)
        | inr f ↦ (r, t, error_at_exec r ∷ s.avisos, eq, rw (d, h, eq, f) refl)
      ]
