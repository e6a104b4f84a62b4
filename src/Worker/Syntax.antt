-- ===== src/Worker/Syntax.antt =====
-- The parser of worker/src/parser.c reads what the comments in it give as the format of a line.
use Prim.Native.String.{String}
use tp_ssoo_2c.Base.{ℕ, ◌≡◌, refl, sym, ◌==◌, Bool, some, List, [], ◌∷◌, length}
use tp_ssoo_2c.Codes.{
  SetInstrucciones, create, truncate, write, flush, commit, read, tag, delete, fin,
}
use tp_ssoo_2c.Worker.Interpreter.{Instruccion}
use tp_ssoo_2c.Worker.Parser.{
  parseado, instrucciones_l, cantidad_datos, tomar, buscar_copi, parsear_tokens, parsear_lineas,
  parsear_archivo,
}

-- The name of an instruction.
unfoldable pub nombre : SetInstrucciones → String
nombre create = "CREATE"
nombre truncate = "TRUNCATE"
nombre write = "WRITE"
nombre flush = "FLUSH"
nombre commit = "COMMIT"
nombre read = "READ"
nombre tag = "TAG"
nombre delete = "DELETE"
nombre fin = "END"

abbrev pub codigo : SetInstrucciones → ℕ
codigo create = 0
codigo truncate = 1
codigo write = 2
codigo flush = 3
codigo commit = 4
codigo read = 5
codigo tag = 6
codigo delete = 7
codigo fin = 8

tomar-length : (ds : List String) → tomar (length ds) ds ≡ parseado ds
unfolding tomar
tomar-length [] = refl
tomar-length (d ∷ ds) = rw (tomar-length ds) refl

-- The data of an instruction, as the comments of the parser give them: a File:Tag, with a size for
-- TRUNCATE, an address and a content for WRITE, an address and a size for READ, the File:Tag of the
-- copy for TAG; END has none.
pub data Formato : SetInstrucciones → List String → Type 0 where
  f_create : {ft : String} → Formato create (ft ∷ [])
  f_truncate : {ft size : String} → Formato truncate (ft ∷ size ∷ [])
  f_write : {ft base contenido : String} → Formato write (ft ∷ base ∷ contenido ∷ [])
  f_read : {ft base size : String} → Formato read (ft ∷ base ∷ size ∷ [])
  f_tag : {origen destino : String} → Formato tag (origen ∷ destino ∷ [])
  f_commit : {ft : String} → Formato commit (ft ∷ [])
  f_flush : {ft : String} → Formato flush (ft ∷ [])
  f_delete : {ft : String} → Formato delete (ft ∷ [])
  f_fin : Formato fin []

Formato-cantidad_datos :
    (c : SetInstrucciones) (ds : List String) → Formato c ds → length ds ≡ cantidad_datos c
unfolding cantidad_datos
Formato-cantidad_datos c ds f_create = refl
Formato-cantidad_datos c ds f_truncate = refl
Formato-cantidad_datos c ds f_write = refl
Formato-cantidad_datos c ds f_read = refl
Formato-cantidad_datos c ds f_tag = refl
Formato-cantidad_datos c ds f_commit = refl
Formato-cantidad_datos c ds f_flush = refl
Formato-cantidad_datos c ds f_delete = refl
Formato-cantidad_datos c ds f_fin = refl

module _ (string_equals_ignore_case : String → String → Bool)
    (string_split : String → String → List String) where
  -- A comparison that tells the nine names apart.
  unfoldable pub Distingue : Type 0
  Distingue =
      (a b : SetInstrucciones)
      → string_equals_ignore_case (nombre a) (nombre b) ≡ (codigo a == codigo b)

  buscar_copi-nombre :
      Distingue
      → (c : SetInstrucciones)
      → buscar_copi string_equals_ignore_case string_split (nombre c) instrucciones_l ≡ some c
  unfolding Distingue buscar_copi nombre
  buscar_copi-nombre h create = rw (h create create) refl
  buscar_copi-nombre h truncate = rw (h truncate create, h truncate truncate) refl
  buscar_copi-nombre h write = rw (h write create, h write truncate, h write write) refl
  buscar_copi-nombre h flush =
      rw (h flush create, h flush truncate, h flush write, h flush flush) refl
  buscar_copi-nombre h commit =
      rw (h commit create, h commit truncate, h commit write, h commit flush, h commit commit) refl
  buscar_copi-nombre h read =
      rw (h read create, h read truncate, h read write, h read flush, h read commit, h read read)
        refl
  buscar_copi-nombre h tag =
      rw
        (
          h tag create,
          h tag truncate,
          h tag write,
          h tag flush,
          h tag commit,
          h tag read,
          h tag tag,
        )
        refl
  buscar_copi-nombre h delete =
      rw
        (
          h delete create,
          h delete truncate,
          h delete write,
          h delete flush,
          h delete commit,
          h delete read,
          h delete tag,
          h delete delete,
        )
        refl
  buscar_copi-nombre h fin =
      rw
        (
          h fin create,
          h fin truncate,
          h fin write,
          h fin flush,
          h fin commit,
          h fin read,
          h fin tag,
          h fin delete,
          h fin fin,
        )
        refl

  -- A line that is written as the comments of the parser say: the name of the instruction, and its data.
  unfoldable pub EsLinea : Instruccion → String → Type 0
  EsLinea i linea =
      (string_split linea " " ≡ i.identificador ∷ i.datos)
      × (i.identificador ≡ nombre i.copi)
      × Formato i.copi i.datos

  unfoldable pub SonLineas : List Instruccion → List String → Type 0
  SonLineas [] [] = Unit {0}
  SonLineas (i ∷ is) (linea ∷ lineas) = EsLinea i linea × SonLineas is lineas
  SonLineas _ _ = ⊥

  parsear_tokens-EsLinea :
      Distingue
      → (i : Instruccion) (linea : String) → EsLinea i linea
      → parsear_tokens string_equals_ignore_case string_split (string_split linea " ") ≡ parseado i
  unfolding EsLinea parsear_tokens
  parsear_tokens-EsLinea h i linea (s, n, l) =
      rw
        (
          s,
          n,
          buscar_copi-nombre h i.copi,
          sym (Formato-cantidad_datos i.copi i.datos l),
          tomar-length i.datos,
        )
        refl

  parsear_lineas-SonLineas :
      Distingue
      → (is : List Instruccion) (lineas : List String) → SonLineas is lineas
      → parsear_lineas string_equals_ignore_case string_split lineas ≡ parseado is
  unfolding SonLineas parsear_lineas
  parsear_lineas-SonLineas h [] [] l = refl
  parsear_lineas-SonLineas h (i ∷ is) [] l = absurd l
  parsear_lineas-SonLineas h [] (x ∷ lineas) l = absurd l
  parsear_lineas-SonLineas h (i ∷ is) (linea ∷ lineas) (l, ls) =
      rw (parsear_lineas-SonLineas h is lineas ls, parsear_tokens-EsLinea h i linea l) refl

  -- A file whose lines are instructions in their formats is parsed to these instructions, in the order
  -- of the lines.
  pub parsear_archivo-SonLineas :
      Distingue
      → (is : List Instruccion) (contenido : String) → SonLineas is (string_split contenido "\n")
      → parsear_archivo string_equals_ignore_case string_split contenido ≡ parseado is
  unfolding parsear_archivo
  parsear_archivo-SonLineas h is contenido l =
      parsear_lineas-SonLineas h is (string_split contenido "\n") l
