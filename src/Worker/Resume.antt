-- ===== src/Worker/Resume.antt =====
-- Where a query is left when it is interrupted (the loop of worker/src/main.c): the program counter with
-- which it comes back.
use tp_ssoo_2c.Base.{
  ℕ, ◌+◌, ◌<◌, ◌≤◌, ◌≡◌, Bool, List, [], ◌∷◌, length, drop, arith, true, false, length-drop, Option,
  none, some, refl, if◌then◌else◌,
}
use tp_ssoo_2c.Worker.Machine.{
  Entorno, Estado, Salida, hecho, exit_failure, fallo, consulta_interrupcion, ◌>>=◌, ◌>>◌, pure,
  avisar, esperar_master,
}
use tp_ssoo_2c.Worker.Interpreter.{Instruccion}
use tp_ssoo_2c.Worker.Loop.{
  Fin, por_end, desalojada, agotada, interpretar, desalojar, ejecutar_desde, ejecutar_query,
}
use tp_ssoo_2c.Worker.Told.{luego-Deja, mono-Deja, flush_todos-Dicho, ultima_consulta, Deja, Dicho}

-- An interruption lies behind `pc`, and not behind `n`, and the master was told of it last.
abbrev pub Avanza : {S : Type 0} → ℕ → ℕ → Fin → Estado S → Type 0
Avanza pc n por_end t = Unit
Avanza pc n (desalojada k) t = (pc < k) × (k ≤ n) × (ultima_consulta t.avisos ≡ some k)
Avanza pc n agotada t = Unit

Avanza-suc :
    {S : Type 0} (pc m n : ℕ) (f : Fin) (t : Estado S)
    → pc + 1 + m ≡ n
    → Avanza (pc + 1) (pc + 1 + m) f t
    → Avanza pc n f t
Avanza-suc pc m n por_end t h a = tt
Avanza-suc pc m n (desalojada k) t h (a, b, c) = (omega arith, omega arith, c)
Avanza-suc pc m n agotada t h a = tt

module _ (e : Entorno) where
  tras_consulta :
      (pc n : ℕ) (resto : List Instruccion)
      → pc + 1 ≤ n
      → ((t : Estado e.almacen.State) → Deja (Avanza pc n) (ejecutar_desde e (pc + 1) resto t))
      → (resultado : Bool) (t : Estado e.almacen.State) → ultima_consulta t.avisos ≡ some (pc + 1)
      → Deja (Avanza pc n) (
          (if resultado
              then (do desalojar e; pure (desalojada (pc + 1)))
              else ejecutar_desde e (pc + 1) resto)
            t)
  unfolding desalojar
  tras_consulta pc n resto l h true t k =
      luego-Deja (Dicho (some (pc + 1))) (Avanza pc n) (desalojar e t) _
        (flush_todos-Dicho e (some (pc + 1)) t.memoria.file_tag_pages t k)
        λ _ u z. (omega arith, l, z)
  tras_consulta pc n resto l h false t k = h t

  respondido-Dicho :
      (o : Option ℕ) (r : Option Bool) (s : Estado e.almacen.State)
      → ultima_consulta s.avisos ≡ o
      → Deja (Dicho o) (esperar_master (λ _. r) s)
  respondido-Dicho o none s h = tt
  respondido-Dicho o (some b) s h = h

  tras_instruccion :
      (pc n : ℕ) (resto : List Instruccion)
      → pc + 1 ≤ n
      → ((t : Estado e.almacen.State) → Deja (Avanza pc n) (ejecutar_desde e (pc + 1) resto t))
      → (fue_end : Bool) (t : Estado e.almacen.State)
      → Deja (Avanza pc n) (
          (if fue_end then pure por_end else (do
            avisar (consulta_interrupcion (pc + 1))
            resultado ← esperar_master e.resultado_consulta
            if resultado
                then (do desalojar e; pure (desalojada (pc + 1)))
                else ejecutar_desde e (pc + 1) resto))
            t)
  unfolding ultima_consulta
  tras_instruccion pc n resto l h true t = tt
  tras_instruccion pc n resto l h false t =
      let u : Estado e.almacen.State = record t {
        avisos = consulta_interrupcion (pc + 1) ∷ t.avisos;
      } in
      luego-Deja (Dicho (some (pc + 1))) (Avanza pc n) (esperar_master e.resultado_consulta u) _
        (respondido-Dicho (some (pc + 1)) (e.resultado_consulta u.avisos) u refl)
        (tras_consulta pc n resto l h)

  nada : {A : Type 0} (r : Salida e.almacen.State A) → Deja (λ _ _. Unit {0}) r
  nada (hecho a t) = tt
  nada exit_failure = tt
  nada fallo = tt

  ejecutar_desde-Avanza :
      (pc : ℕ) (is : List Instruccion) (s : Estado e.almacen.State)
      → Deja (Avanza pc (pc + length is)) (ejecutar_desde e pc is s)
  unfolding ejecutar_desde
  ejecutar_desde-Avanza pc [] s = tt
  ejecutar_desde-Avanza pc (i ∷ resto) s =
      luego-Deja (λ _ _. Unit {0}) (Avanza pc (pc + length (i ∷ resto))) (interpretar e i s) _
        (nada (interpretar e i s))
        λ fue_end v _.
          tras_instruccion pc (pc + length (i ∷ resto)) resto (omega arith)
            (λ t.
              mono-Deja (Avanza (pc + 1) (pc + 1 + length resto)) _ _
                (λ f u. Avanza-suc pc (length resto) _ f u (omega arith))
                (ejecutar_desde-Avanza (pc + 1) resto t))
            fue_end v

  -- A query that runs from a program counter within its instructions and is interrupted comes back
  -- with a greater program counter: the last one that the worker sent to the master in a
  -- CONSULTA_INTERRUPCION is the one at which the loop stopped, and it is greater than the first one and
  -- lies within the instructions or right at their end.
  pub ejecutar_query-Avanza :
      (is : List Instruccion) (pc k : ℕ) (s t : Estado e.almacen.State)
      → pc ≤ length is
      → ejecutar_query e is pc s ≡ hecho (desalojada k) t
      → (pc < k) × (k ≤ length is) × (ultima_consulta t.avisos ≡ some k)
  unfolding ejecutar_query
  ejecutar_query-Avanza is pc k s t l h =
      let z : pc + length (drop pc is) ≡ length is = omega (arith, length-drop pc is) in
      let d : Deja (Avanza pc (pc + length (drop pc is))) (ejecutar_desde e pc (drop pc is) s) =
        ejecutar_desde-Avanza pc (drop pc is) s in
      rw (h, z) at d
