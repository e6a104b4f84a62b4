-- ===== src/Worker/Parser.antt =====
-- worker/src/parser.c: the instructions of the file of a query.
use Prim.Native.String.{String}
use tp_ssoo_2c.Base.{ℕ, zero, suc, Bool, Option, none, some, List, [], ◌∷◌, if◌then◌else◌}
use tp_ssoo_2c.Codes.{
  SetInstrucciones, create, truncate, write, flush, commit, read, tag, delete, fin,
}
use tp_ssoo_2c.Worker.Interpreter.{Instruccion}

-- `inexistente`: the program ends; `fallo`: it uses a token that is not there.
pub data Parseo (A : Type 0) : Type 0 where
  parseado : A → Parseo A
  inexistente fallo : Parseo A

infixl 5 ◌>>=◌
abbrev pub ◌>>=◌ : {A B : Type 0} → Parseo A → (A → Parseo B) → Parseo B
parseado a >>= f = f a
inexistente >>= f = inexistente
fallo >>= f = fallo

abbrev pub o_fallo : {A : Type 0} → Option A → Parseo A
o_fallo none = fallo
o_fallo (some a) = parseado a

abbrev pub o_inexistente : {A : Type 0} → Option A → Parseo A
o_inexistente none = inexistente
o_inexistente (some a) = parseado a

abbrev pub instrucciones_l : List (String × SetInstrucciones)
instrucciones_l =
    ("CREATE", create)
    ∷ ("TRUNCATE", truncate)
    ∷ ("WRITE", write)
    ∷ ("FLUSH", flush)
    ∷ ("COMMIT", commit)
    ∷ ("READ", read)
    ∷ ("TAG", tag)
    ∷ ("DELETE", delete)
    ∷ ("END", fin)
    ∷ []

-- How many of the tokens after the first an instruction takes.
unfoldable pub cantidad_datos : SetInstrucciones → ℕ
cantidad_datos copi = elim copi [
  | create ↦ 1
  | commit ↦ 1
  | delete ↦ 1
  | flush ↦ 1
  | truncate ↦ 2
  | tag ↦ 2
  | read ↦ 3
  | write ↦ 3
  | fin ↦ 0
]

-- The first `n` of the tokens; one that is missing is NULL, and string_duplicate uses it.
unfoldable pub tomar : ℕ → List String → Parseo (List String)
tomar zero tokens = parseado []
tomar (suc n) [] = fallo
tomar (suc n) (t ∷ tokens) = do resto ← tomar n tokens; parseado (t ∷ resto)

module _ (string_equals_ignore_case : String → String → Bool)
    (string_split : String → String → List String) where
  unfoldable pub buscar_copi : String → List (String × SetInstrucciones) → Option SetInstrucciones
  buscar_copi identificador [] = none
  buscar_copi identificador (c ∷ cs) =
      if string_equals_ignore_case identificador c.0 then some c.1 else buscar_copi identificador cs

  unfoldable pub parsear_tokens : List String → Parseo Instruccion
  unfolding buscar_copi cantidad_datos tomar
  parsear_tokens [] = fallo
  parsear_tokens (identificador ∷ tokens) = do
    copi ← o_inexistente (buscar_copi identificador instrucciones_l)
    datos ← tomar (cantidad_datos copi) tokens
    parseado (record { copi = copi; identificador = identificador; datos = datos })

  -- The lines are taken from the last, and each instruction is put before the others.
  unfoldable pub parsear_lineas : List String → Parseo (List Instruccion)
  unfolding parsear_tokens
  parsear_lineas [] = parseado []
  parsear_lineas (linea ∷ lineas) = do
    instrucciones ← parsear_lineas lineas
    instruccion ← parsear_tokens (string_split linea " ")
    parseado (instruccion ∷ instrucciones)

  unfoldable pub parsear_archivo : String → Parseo (List Instruccion)
  unfolding parsear_lineas
  parsear_archivo contenido = parsear_lineas (string_split contenido "\n")
