-- ===== src/Worker/Started.antt =====
-- The memory that init_memoria (worker/src/memoria.c) sets up.
use native.Mathlib.Nat.{suc-mul, div-add-mod'}
use tp_ssoo_2c.Base.{
  ℕ, zero, suc, ◌+◌, ◌*◌, ◌/◌, ◌≤◌, ◌<◌, ◌≡◌, ◌≢◌, refl, sym, ap, ◌∙◌, Bool, false, some, List,
  take, length, get_elem?, drop, some_inj, replicate, length-replicate, length-take, length-drop,
  ne→==, arith,
}
use tp_ssoo_2c.Worker.{NodoMarco, Memoria}
use tp_ssoo_2c.Worker.Blocks.{drop-drop}
use tp_ssoo_2c.Worker.Frames.{crear_marcos, memoria_inicial, init_memoria}

length-crear_marcos :
    (mn : ℕ → NodoMarco) (n tam : ℕ) (memoria : List ℕ) → length (crear_marcos mn n tam memoria) ≡ n
unfolding crear_marcos
length-crear_marcos mn zero tam memoria = refl
length-crear_marcos mn (suc n) tam memoria =
    ap suc (length-crear_marcos mn n tam (drop tam memoria))

-- Each frame is the piece of the memory at its place, of a page's size.
crear_marcos-entero :
    (mn : ℕ → NodoMarco) (n tam : ℕ) (memoria : List ℕ)
    → n * tam ≤ length memoria
    → (i : ℕ) (m : NodoMarco) → get_elem? (crear_marcos mn n tam memoria) i ≡ some m
    → (length m.puntero_marco ≡ tam) × (m.puntero_marco ≡ take tam (drop (i * tam) memoria))
unfolding crear_marcos
crear_marcos-entero mn zero tam memoria h i m k = absurd (ground arith)
crear_marcos-entero mn (suc n) tam memoria h zero m k =
    let z = some_inj _ m k in
    (
      ap (λ p. length p.puntero_marco) (sym z)
          ∙ length-take tam memoria (omega (arith, suc-mul n tam)),
      ap (λ p. p.puntero_marco) (sym z)
          ∙ ap (λ l. take tam (drop l memoria)) {x = 0} {y = 0 * tam} (omega arith),
    )
crear_marcos-entero mn (suc n) tam memoria h (suc i) m k =
    let (a, b) =
      crear_marcos-entero mn n tam (drop tam memoria)
        (omega (arith, suc-mul n tam, length-drop tam memoria)) i m k in
    (
      a,
      b
          ∙ ap (take tam) (
              sym (drop-drop tam (i * tam) memoria)
              ∙ ap (λ l. drop l memoria) (omega (arith, suc-mul i tam))),
    )

-- What a memory starts with: `n` frames, each the piece of the memory at its place and of a page's size,
-- a bit for each, and all frames free.
pub record Iniciada (n tam : ℕ) (memoria : List ℕ) (s : Memoria) : Type 0 where
  pub marcos : length s.marco ≡ n
  pub enteros :
      (i : ℕ) (m : NodoMarco)
      → get_elem? s.marco i ≡ some m
      → (length m.puntero_marco ≡ tam) × (m.puntero_marco ≡ take tam (drop (i * tam) memoria))
  pub bits : n ≤ length s.bit_map
  pub libres : (i : ℕ) → i < n → get_elem? s.bit_map i ≡ some false

get_elem?-replicate : (n i : ℕ) (b : Bool) → i < n → get_elem? (replicate n b) i ≡ some b
get_elem?-replicate zero i b h = absurd (omega arith)
get_elem?-replicate (suc n) zero b h = refl
get_elem?-replicate (suc n) (suc i) b h = get_elem?-replicate n i b (omega arith)

-- init_memoria, with a page size above 0, returns a memory of as many frames as pages fit in
-- TAM_MEMORIA, whatever malloc left in their nodes: frame `i` has the `tam` bytes of the memory from
-- `i * tam` on, the bitmap has a bit for each frame, and all are free.
pub init_memoria-Iniciada :
    (malloc_nodo : ℕ → NodoMarco) (memoria : List ℕ) (tam_memoria tam : ℕ)
    → tam ≢ 0
    → length memoria ≡ tam_memoria
    → (s : Memoria) × (init_memoria malloc_nodo memoria tam_memoria tam ≡ some s)
      × Iniciada (tam_memoria / tam) tam memoria s
unfolding init_memoria memoria_inicial
init_memoria-Iniciada mn memoria tam_memoria tam h l = (
  memoria_inicial mn memoria tam_memoria tam,
  rw (ne→== tam 0 h) refl,
  record {
    marcos = length-crear_marcos mn (tam_memoria / tam) tam memoria;
    enteros =
        crear_marcos-entero mn (tam_memoria / tam) tam memoria
          (omega (arith, div-add-mod' tam_memoria tam));
    bits = omega (arith, length-replicate ((tam_memoria / tam + 7) / 8 * 8) false);
    libres = λ i k. get_elem?-replicate ((tam_memoria / tam + 7) / 8 * 8) i false (omega arith);
  },
)
