-- ===== src/Worker/Told.antt =====
-- What a worker has told the master: an interruption (worker/src/main.c) sends no program counter.
use Prim.Native.String.{String}
use tp_ssoo_2c.Base.{
  ℕ, ◌≡◌, Bool, List, [], ◌∷◌, true, false, Option, none, some, ◌&&◌, get_elem?, if◌then◌else◌,
}
use tp_ssoo_2c.Worker.Machine.{
  Entorno, Estado, Salida, hecho, exit_failure, fallo, consulta_interrupcion, M, ◌>>=◌, ◌>>◌, pure,
  y_luego, Aviso, lectura_master, error_at_exec, instruccion_master, o_fallo, preguntar,
}
use tp_ssoo_2c.Codes.{RtaStorage, es_exitosa}
use tp_ssoo_2c.Worker.{NodoPagina, NodoMarco, FileTag, nodo}
use tp_ssoo_2c.Worker.Tables.{
  leer_nodo, cambiar_nodo, dos_primeros, agregar_file_tag, buscar_file_tag,
}
use tp_ssoo_2c.Worker.Frames.{leer_marco}
use tp_ssoo_2c.Worker.Evict.{notif_query_error, notificar_cambios}
use tp_ssoo_2c.Worker.Interpreter.{flush_paginas, flush_file_tag}
use tp_ssoo_2c.Worker.Loop.{flush_todos}

-- The program counter of the last CONSULTA_INTERRUPCION among what the master was told.
unfoldable pub ultima_consulta : List Aviso → Option ℕ
ultima_consulta [] = none
ultima_consulta (consulta_interrupcion pc ∷ avisos) = some pc
ultima_consulta (lectura_master f c ∷ avisos) = ultima_consulta avisos
ultima_consulta (error_at_exec c ∷ avisos) = ultima_consulta avisos
ultima_consulta (instruccion_master ∷ avisos) = ultima_consulta avisos

-- What a step that ends leaves.
abbrev pub Deja : {S A : Type 0} → (A → Estado S → Type 0) → Salida S A → Type 0
Deja Q (hecho a s) = Q a s
Deja Q exit_failure = Unit
Deja Q fallo = Unit

pub luego-Deja :
    {S A B : Type 0} (P : A → Estado S → Type 0) (Q : B → Estado S → Type 0) (r : Salida S A)
    (f : A → M S B)
    → Deja P r
    → ((a : A) (t : Estado S) → P a t → Deja Q (f a t))
    → Deja Q (y_luego r f)
luego-Deja P Q (hecho a t) f p h = h a t p
luego-Deja P Q exit_failure f p h = tt
luego-Deja P Q fallo f p h = tt

pub mono-Deja :
    {S A : Type 0} (P Q : A → Estado S → Type 0) (r : Salida S A)
    → ((a : A) (t : Estado S) → P a t → Q a t)
    → Deja P r
    → Deja Q r
mono-Deja P Q (hecho a t) h p = h a t p
mono-Deja P Q exit_failure h p = tt
mono-Deja P Q fallo h p = tt

-- The last program counter that the master was told is still `o`.
abbrev pub Dicho : {S A : Type 0} → Option ℕ → A → Estado S → Type 0
Dicho o a t = ultima_consulta t.avisos ≡ o

o_fallo-Dicho :
    {S A : Type 0} (o : Option ℕ) (a : Option A) (s : Estado S)
    → ultima_consulta s.avisos ≡ o
    → Deja (Dicho o) (o_fallo a s)
o_fallo-Dicho o none s h = tt
o_fallo-Dicho o (some a) s h = h

leer_marco-Dicho :
    {S : Type 0} (o : Option ℕ) (i : Option ℕ) (s : Estado S)
    → ultima_consulta s.avisos ≡ o
    → Deja (Dicho o) (leer_marco i s)
unfolding leer_marco
leer_marco-Dicho o none s h = tt
leer_marco-Dicho o (some i) s h = o_fallo-Dicho o (get_elem? s.memoria.marco i) s h

cambiar_nodo-Dicho :
    {S : Type 0} (o : Option ℕ) (a : ℕ) (f : NodoPagina → NodoPagina) (s : Estado S)
    → ultima_consulta s.avisos ≡ o
    → Deja (Dicho o) (cambiar_nodo a f s)
unfolding cambiar_nodo leer_nodo
cambiar_nodo-Dicho o a f s h =
    luego-Deja (Dicho o) (Dicho o) (o_fallo (nodo s.memoria.paginas a) s) _
      (o_fallo-Dicho o (nodo s.memoria.paginas a) s h) λ _ t k. k

module _ (e : Entorno) where
  modificaciones-Dicho :
      (o : Option ℕ) (r : Option (RtaStorage × e.almacen.State)) (s : Estado e.almacen.State)
      → ultima_consulta s.avisos ≡ o
      → Deja (Dicho o) (preguntar (λ _. r) s)
  modificaciones-Dicho o none s h = tt
  modificaciones-Dicho o (some (r, t)) s h = h

  avisado-Dicho :
      (o : Option ℕ) (b : Bool) (r : RtaStorage) (s : Estado e.almacen.State)
      → ultima_consulta s.avisos ≡ o
      → Deja (Dicho o) ((if b then pure tt else notif_query_error r) s)
  unfolding ultima_consulta
  avisado-Dicho o true r s h = h
  avisado-Dicho o false r s h = h

  notificar_cambios-Dicho :
      (o : Option ℕ) (a : ℕ) (identificador : String) (bytes : List ℕ) (s : Estado e.almacen.State)
      → ultima_consulta s.avisos ≡ o
      → Deja (Dicho o) (notificar_cambios e a identificador bytes s)
  unfolding notificar_cambios agregar_file_tag leer_nodo
  notificar_cambios-Dicho o a identificador bytes s h =
      luego-Deja (Dicho o) (Dicho o) (agregar_file_tag e identificador s) _
        (o_fallo-Dicho o (dos_primeros (e.string_split identificador ":")) s h)
        λ ft t k.
          luego-Deja (Dicho o) (Dicho o) (o_fallo (nodo t.memoria.paginas a) t) _
            (o_fallo-Dicho o (nodo t.memoria.paginas a) t k)
            λ p u l.
              luego-Deja (Dicho o) (Dicho o)
                (preguntar (e.almacen.modificaciones ft p.nro_pagina bytes) u) _
                (modificaciones-Dicho o (e.almacen.modificaciones ft p.nro_pagina bytes u.almacen) u
                  l)
                λ r v m. avisado-Dicho o (es_exitosa r) r v m

  sucia-Dicho :
      (o : Option ℕ) (b : Bool) (a : ℕ) (i : Option ℕ) (identificador : String)
      (s : Estado e.almacen.State)
      → ultima_consulta s.avisos ≡ o
      → Deja (Dicho o) (
          (if b
              then (do
                n_marco ← leer_marco i
                notificar_cambios e a identificador n_marco.puntero_marco
                cambiar_nodo a λ p. record p { modificado = false })
              else pure tt)
            s)
  sucia-Dicho o false a i identificador s h = h
  sucia-Dicho o true a i identificador s h =
      luego-Deja (Dicho o) (Dicho o) (leer_marco i s) _ (leer_marco-Dicho o i s h)
        λ (m : NodoMarco) t k.
          luego-Deja (Dicho o) (Dicho o) (notificar_cambios e a identificador m.puntero_marco t) _
            (notificar_cambios-Dicho o a identificador m.puntero_marco t k)
            λ _ u l. cambiar_nodo-Dicho o a _ u l

  flush_paginas-Dicho :
      (o : Option ℕ) (identificador : String) (tabla : List ℕ) (s : Estado e.almacen.State)
      → ultima_consulta s.avisos ≡ o
      → Deja (Dicho o) (flush_paginas e identificador tabla s)
  unfolding flush_paginas leer_nodo
  flush_paginas-Dicho o identificador [] s h = h
  flush_paginas-Dicho o identificador (a ∷ tabla) s h =
      luego-Deja (Dicho o) (Dicho o) (o_fallo (nodo s.memoria.paginas a) s) _
        (o_fallo-Dicho o (nodo s.memoria.paginas a) s h)
        λ p t k.
          luego-Deja (Dicho o) (Dicho o) _ (λ _. flush_paginas e identificador tabla)
            (sucia-Dicho o (p.modificado && p.presencia) a p.nro_marco identificador t k)
            λ _ u l. flush_paginas-Dicho o identificador tabla u l

  hallado-Dicho :
      (o : Option ℕ) (identificador : String) (x : Option FileTag) (s : Estado e.almacen.State)
      → ultima_consulta s.avisos ≡ o
      → let m : M e.almacen.State (Unit {0}) = elim x [
        | none ↦ pure tt
        | some ft ↦ flush_paginas e identificador ft.tabla_paginas
      ] in
        Deja (Dicho o) (m s)
  hallado-Dicho o identificador none s h = h
  hallado-Dicho o identificador (some ft) s h =
      flush_paginas-Dicho o identificador ft.tabla_paginas s h

  pub flush_todos-Dicho :
      (o : Option ℕ) (fts : List FileTag) (s : Estado e.almacen.State)
      → ultima_consulta s.avisos ≡ o
      → Deja (Dicho o) (flush_todos e fts s)
  unfolding flush_todos flush_file_tag
  flush_todos-Dicho o [] s h = h
  flush_todos-Dicho o (ft ∷ fts) s h =
      luego-Deja (Dicho o) (Dicho o) (flush_file_tag e ft.identificador s) _
        (hallado-Dicho o ft.identificador
          (buscar_file_tag e ft.identificador s.memoria.file_tag_pages) s h)
        λ _ t k. flush_todos-Dicho o fts t k
