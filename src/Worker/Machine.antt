-- ===== src/Worker/Machine.antt =====
-- The worker as a program beside its peers: its memory, the storage behind one socket, what it has
-- told the master on the other, and how a step of it ends.
use Prim.Native.String.{String}
use tp_ssoo_2c.Base.{ℕ, ◌≡◌, refl, ap, Bool, Option, none, some, List, ◌∷◌}
use tp_ssoo_2c.Codes.{RtaStorage}
use tp_ssoo_2c.Storage.Server.{Paquete}
use tp_ssoo_2c.Worker.{Memoria}

-- The storage as the worker sees it: a request changes its state and is answered, or the connection
-- breaks (`none`).
pub record Almacen : Type 1 where
  pub State : Type 0
  -- INFO_FILE_TAG_STORAGE; the size -1 is `none`
  pub info_file_tag : String × String → State → Option (Option ℕ × State)
  -- SOLICITUD_STORAGE: the result, and the block
  pub solicitud : String × String → ℕ → State → Option ((RtaStorage × List ℕ) × State)
  -- MODIFICACIONES_STORAGE
  pub modificaciones : String × String → ℕ → List ℕ → State → Option (RtaStorage × State)
  -- INSTRUCCION_STORAGE
  pub instruccion : Paquete → State → Option (RtaStorage × State)

-- What is sent to the master.
pub data Aviso : Type 0 where
  lectura_master : String → List ℕ → Aviso
  error_at_exec : RtaStorage → Aviso
  instruccion_master : Aviso
  consulta_interrupcion : ℕ → Aviso

-- What is not of this program: the peers, and the functions of the libraries. The master answers by
-- what it was told so far, the latest first; `none` is a broken connection.
pub record Entorno : Type 1 where
  pub almacen : Almacen
  -- the `resultado_t` of a read (true: OK) and of the END
  pub resultado_lectura : List Aviso → Option Bool
  pub resultado_fin : List Aviso → Option Bool
  pub resultado_consulta : List Aviso → Option Bool
  pub string_equals_ignore_case : String → String → Bool
  pub string_split : String → String → List String
  pub atoi : String → ℕ
  -- the bytes of a C string
  pub bytes : String → List ℕ
  pub temporal_gettime : ℕ → ℕ
  -- what a fresh allocation of a size holds
  pub malloc : ℕ → List ℕ
  pub algoritmo_reemplazo : String

pub record Estado (S : Type 0) : Type 0 where
  pub memoria : Memoria
  pub almacen : S
  pub avisos : List Aviso

-- `fallo`: a NULL, an object that is gone, or a division by 0 is used.
pub data Salida (S A : Type 0) : Type 0 where
  hecho : A → Estado S → Salida S A
  exit_failure fallo : Salida S A

abbrev pub M : Type 0 → Type 0 → Type 0
M S A = Estado S → Salida S A

abbrev pub y_luego : {S A B : Type 0} → Salida S A → (A → M S B) → Salida S B
y_luego (hecho a s) f = f a s
y_luego exit_failure f = exit_failure
y_luego fallo f = fallo

infixl 5 ◌>>=◌ ◌>>◌
abbrev pub ◌>>=◌ : {S A B : Type 0} → M S A → (A → M S B) → M S B
◌>>=◌ m f s = y_luego (m s) f

abbrev pub ◌>>◌ : {S B : Type 0} → M S (Unit {0}) → M S B → M S B
m >> k = m >>= λ _. k

abbrev pub pure : {S A : Type 0} → A → M S A
pure a s = hecho a s

abbrev pub get : {S : Type 0} → M S Memoria
get s = hecho s.memoria s

abbrev pub modificar : {S : Type 0} → (Memoria → Memoria) → M S (Unit {0})
modificar f s = hecho tt (record s { memoria = f s.memoria })

abbrev pub avisar : {S : Type 0} → Aviso → M S (Unit {0})
avisar a s = hecho tt (record s { avisos = a ∷ s.avisos })

abbrev pub salir : {S A : Type 0} → M S A
salir s = exit_failure

abbrev pub o_fallo : {S A : Type 0} → Option A → M S A
o_fallo (Option.some a) s = hecho a s
o_fallo Option.none s = fallo

abbrev pub o_salir : {S A : Type 0} → Option A → M S A
o_salir (Option.some a) s = hecho a s
o_salir Option.none s = exit_failure

abbrev contestado : {S A : Type 0} → Estado S → Option (A × S) → Salida S A
contestado s none = exit_failure
contestado s (some (a, t)) = hecho a (record s { almacen = t })

-- A request to the storage, and its answer; a broken connection ends the program.
abbrev pub preguntar : {S A : Type 0} → (S → Option (A × S)) → M S A
preguntar f s = contestado s (f s.almacen)

abbrev respondido : {S A : Type 0} → Estado S → Option A → Salida S A
respondido s none = exit_failure
respondido s (some a) = hecho a s

-- The answer of the master to what it was told.
abbrev pub esperar_master : {S A : Type 0} → (List Aviso → Option A) → M S A
esperar_master f s = respondido s (f s.avisos)

-- One step of a `do`.
pub bind_hecho :
    {S A B : Type 0} (m : M S A) (f : A → M S B) (s t : Estado S) (a : A)
    → m s ≡ hecho a t
    → (m >>= f) s ≡ f a t
bind_hecho m f s t a h = ap (λ r. y_luego r f) h

-- What follows a step is told apart by what it does alone.
pub y_luego_ext :
    {S A B : Type 0} (r : Salida S A) (f g : A → M S B)
    → ((a : A) (s : Estado S) → f a s ≡ g a s)
    → y_luego r f ≡ y_luego r g
y_luego_ext (hecho a s) f g h = h a s
y_luego_ext exit_failure f g h = refl
y_luego_ext fallo f g h = refl

pub y_luego-pure : {S : Type 0} (r : Salida S (Unit {0})) → y_luego r (λ _. pure tt) ≡ r
y_luego-pure (hecho tt s) = refl
y_luego-pure exit_failure = refl
y_luego-pure fallo = refl
