-- ===== src/Worker/Flushed.antt =====
-- A FLUSH (worker/src/interpreter.c) of the pages of a table.
use Prim.Native.String.{String}
use tp_ssoo_2c.Base.{
  ℕ, ◌≡◌, ◌⊎◌, inl, inr, refl, sym, ap, ◌∙◌, Bool, true, false, some, List, [], ◌∷◌, get_elem?, set,
  Bool-cases,
}
use tp_ssoo_2c.Codes.{RtaStorage}
use tp_ssoo_2c.Worker.Clean.{
  sucia, Cargada, Limpia, Limpiada, Limpiada-refl, Limpiada-trans, Cargada-Limpiada,
  Limpia-Limpiada, limpiar-Limpiada,
}
use tp_ssoo_2c.Worker.{NodoPagina, NodoMarco, Memoria, nodo}
use tp_ssoo_2c.Worker.Machine.{Entorno, Estado, hecho, Aviso}
use tp_ssoo_2c.Worker.Tables.{leer_nodo, cambiar_nodo, dos_primeros}
use tp_ssoo_2c.Worker.Notify.{Contesta, notificar_cambios-hecho}
use tp_ssoo_2c.Worker.Evict.{notificar_cambios}
use tp_ssoo_2c.Worker.Frames.{leer_marco}
use tp_ssoo_2c.Worker.Ring.{nodo-set_self}
use tp_ssoo_2c.Worker.Interpreter.{flush_paginas}

module _ (e : Entorno) where
  -- What becomes of a page that is dirty.
  abbrev pub limpio : NodoPagina → NodoPagina
  limpio p = record p { modificado = false }

  -- The memory behind a round for the page `*a`, which is `p`.
  abbrev pub tras : Bool → ℕ → NodoPagina → Memoria → Memoria
  tras true a p s = record s { paginas = set s.paginas a (some (limpio p)) }
  tras false a p s = s

  -- A round takes the storage from `x` to `z`: the frame of a dirty page is sent, and else nothing.
  unfoldable pub Enviada :
      String × String → Memoria → NodoPagina → e.almacen.State → e.almacen.State → Type 0
  Enviada datos s p x z =
      ((sucia p ≡ true)
        × (i : ℕ) × (m : NodoMarco) × (r : RtaStorage) × (p.nro_marco ≡ some i)
        × (get_elem? s.marco i ≡ some m)
        × (e.almacen.modificaciones datos p.nro_pagina m.puntero_marco x ≡ some (r, z)))
      ⊎ ((sucia p ≡ false) × (z ≡ x))

  -- The same for all pages of a table, one behind the other.
  unfoldable pub Enviadas :
      String × String → Memoria → List ℕ → e.almacen.State → e.almacen.State → Type 0
  Enviadas datos s [] x y = y ≡ x
  Enviadas datos s (a ∷ tabla) x y =
      (p : NodoPagina) × (u : Memoria) × (z : e.almacen.State) × (nodo s.paginas a ≡ some p)
      × (u ≡ tras (sucia p) a p s)
      × Enviada datos s p x z
      × Enviadas datos u tabla z y

  flush_paginas-sucia :
      (a : ℕ) (identificador : String) (s u : Estado e.almacen.State) (p : NodoPagina) (i : ℕ)
      (m : NodoMarco) (t : e.almacen.State) (avisos : List Aviso) (tabla : List ℕ)
      → nodo s.memoria.paginas a ≡ some p
      → sucia p ≡ true
      → p.nro_marco ≡ some i
      → get_elem? s.memoria.marco i ≡ some m
      → notificar_cambios e a identificador m.puntero_marco s
        ≡ hecho tt (record s { almacen = t; avisos = avisos })
      → u ≡ record s {
        memoria = record s.memoria { paginas = set s.memoria.paginas a (some (limpio p)) };
        almacen = t;
        avisos = avisos;
      }
      → flush_paginas e identificador (a ∷ tabla) s ≡ flush_paginas e identificador tabla u
  unfolding flush_paginas leer_nodo leer_marco cambiar_nodo
  flush_paginas-sucia a identificador s u p i m t avisos tabla h w ki km eq z =
      rw (h, w, ki, km, eq, h) (ap (flush_paginas e identificador tabla) (sym z))

  flush_paginas-de_limpia :
      (a : ℕ) (identificador : String) (s : Estado e.almacen.State) (p : NodoPagina)
      (tabla : List ℕ)
      → nodo s.memoria.paginas a ≡ some p
      → sucia p ≡ false
      → flush_paginas e identificador (a ∷ tabla) s ≡ flush_paginas e identificador tabla s
  unfolding flush_paginas leer_nodo
  flush_paginas-de_limpia a identificador s p tabla h f = rw (h, f) refl

  -- One round of the loop over the pages.
  flush_paginas_paso :
      (a : ℕ) (identificador : String) (ft : String × String) (s : Estado e.almacen.State)
      → Contesta e
      → dos_primeros (e.string_split identificador ":") ≡ some ft
      → Cargada e s.memoria a
      → (t : Estado e.almacen.State) × ((tabla : List ℕ)
          → flush_paginas e identificador (a ∷ tabla) s ≡ flush_paginas e identificador tabla t)
        × Limpiada e s.memoria t.memoria
        × Limpia e t.memoria a
        × (p : NodoPagina) × (nodo s.memoria.paginas a ≡ some p)
        × (t.memoria ≡ tras (sucia p) a p s.memoria)
        × Enviada ft s.memoria p s.almacen t.almacen
  unfolding Cargada Limpia Enviada
  flush_paginas_paso a identificador ft s c d (p, h, k) = elim (Bool-cases (sucia p)) [
    | inr f ↦ (
      s,
      (λ tabla. flush_paginas-de_limpia a identificador s p tabla h f),
      Limpiada-refl e s.memoria,
      (p, h, f),
      p,
      h,
      rw f refl,
      inr (f, refl),
    )
    | inl w ↦
        let (i, m, ki, km) = k w in
        let (r, t, avisos, enviada, eq) =
          notificar_cambios-hecho e a identificador ft m.puntero_marco s p c d h in
        let memoria : Memoria = record s.memoria {
          paginas = set s.memoria.paginas a (some (limpio p));
        } in
        (
          record { memoria = memoria; almacen = t; avisos = avisos },
          (λ tabla. flush_paginas-sucia a identificador s _ p i m t avisos tabla h w ki km eq refl),
          limpiar-Limpiada e s.memoria a p h,
          (limpio p, nodo-set_self s.memoria.paginas a p (limpio p) h, refl),
          p,
          h,
          rw w refl,
          inl (w, i, m, r, ki, km, enviada),
        )
  ]

  unfoldable pub Todas : (ℕ → Type 0) → List ℕ → Type 0
  Todas P [] = Unit {0}
  Todas P (a ∷ tabla) = P a × Todas P tabla

  Todas-map :
      (P Q : ℕ → Type 0) (tabla : List ℕ) → ((a : ℕ) → P a → Q a) → Todas P tabla → Todas Q tabla
  unfolding Todas
  Todas-map P Q [] f h = tt
  Todas-map P Q (a ∷ tabla) f (h, hs) = (f a h, Todas-map P Q tabla f hs)

  -- Where the storage answers every change, and each page of a table is there and has a frame if it is
  -- dirty (present and modified), a FLUSH of the table returns and leaves no page of it dirty. The frame of
  -- each page that was dirty went to the storage, in the order of the table, and nothing else did; no page
  -- has become dirty, and the bytes of the frames are as they were.
  pub flush_paginas-Limpia :
      (identificador : String) (ft : String × String) (tabla : List ℕ) (s : Estado e.almacen.State)
      → Contesta e
      → dos_primeros (e.string_split identificador ":") ≡ some ft
      → Todas (Cargada e s.memoria) tabla
      → (t : Estado e.almacen.State) × (flush_paginas e identificador tabla s ≡ hecho tt t)
        × Limpiada e s.memoria t.memoria
        × Todas (Limpia e t.memoria) tabla
        × Enviadas ft s.memoria tabla s.almacen t.almacen
  unfolding Todas flush_paginas Enviadas
  flush_paginas-Limpia identificador ft [] s c d h = (s, refl, Limpiada-refl e s.memoria, tt, refl)
  flush_paginas-Limpia identificador ft (a ∷ tabla) s c d (h, hs) =
      let (t, paso, g, l, p, es, siguiente, enviada) =
        flush_paginas_paso a identificador ft s c d h in
      let (u, eq, g2, ls, enviadas) = flush_paginas-Limpia identificador ft tabla t c d (
        Todas-map (Cargada e s.memoria) (Cargada e t.memoria) tabla
          (λ b. Cargada-Limpiada e s.memoria t.memoria b g) hs) in
      (
        u,
        paso tabla ∙ eq,
        Limpiada-trans e s.memoria t.memoria u.memoria g g2,
        (Limpia-Limpiada e t.memoria u.memoria a g2 l, ls),
        (p, t.memoria, t.almacen, es, siguiente, enviada, enviadas),
      )
