-- ===== src/Storage/FreshStart/Coherent.antt =====
-- The disk of a fresh start (storage/src/storage_fresh_start.c), against the invariant.
use mathlib.Core.Path.{subst}
use tp_ssoo_2c.Base.{
  ℕ, zero, suc, ◌/◌, ◌<◌, ◌≡◌, sym, ◌∙◌, true, false, none, some, [], ◌∷◌, length, get_elem?,
  replicate, arith, length-set, length-replicate, Bool-cases, inl, inr,
}
use tp_ssoo_2c.Storage.{FileTag, mismo, MetadataFile, Directorio}
use tp_ssoo_2c.Storage.FileSystem.{buscar, destino, desenlazar}
use tp_ssoo_2c.Storage.Bitmap.{max_bit}
use tp_ssoo_2c.Storage.Bitmap.Search.{test_bit-set_self}
use tp_ssoo_2c.Storage.Contents.RoundTrip.{Coherente}
use tp_ssoo_2c.Storage.FreshStart.{storage_fresh_start, directorio_base, initial_file}

unica_base :
    (g : FileTag) (d : Directorio) → buscar g (directorio_base ∷ []) ≡ some d → directorio_base ≡ d
unfolding buscar
unica_base g d h = elim (Bool-cases (mismo initial_file g)) [
  | inl t ↦ ground arith
  | inr f ↦ absurd (ground arith)
]

enlace_base : (j p : ℕ) → destino j directorio_base.logical_blocks ≡ some p → p ≡ 0
unfolding destino
enlace_base j p h = ground arith

acorde_base :
    (j p : ℕ) → get_elem? (0 ∷ []) j ≡ some p → destino j directorio_base.logical_blocks ≡ some p
unfolding destino
acorde_base zero p h = h
acorde_base (suc j) p h = absurd (ground arith)

metadata_base : (meta : MetadataFile) → directorio_base.metadata ≡ some meta → 0 ∷ [] ≡ meta.blocks
metadata_base meta h = ground arith

unico_base : (j : ℕ) → destino j (desenlazar j directorio_base.logical_blocks) ≡ none
unfolding destino desenlazar
unico_base j = ground arith

-- A fresh start with at least one block, and a number of blocks that fills its bitmap's bytes, leaves
-- a coherent disk.
pub storage_fresh_start-Coherente :
    (fs_size block_size : ℕ)
    → 0 < fs_size / block_size
    → max_bit (fs_size / block_size) ≡ fs_size / block_size
    → Coherente (storage_fresh_start fs_size block_size)
unfolding storage_fresh_start
storage_fresh_start-Coherente fs_size block_size pos m =
    let n = fs_size / block_size in
    let lon : length (replicate (max_bit n) false) ≡ n = length-replicate (max_bit n) false ∙ m in
    record {
      bloques = length-replicate n _;
      bits = length-set (replicate (max_bit n) false) 0 true ∙ lon;
      marcados = λ g d j p b k.
          let e = unica_base g d b in
          let z : p ≡ 0 =
            enlace_base j p
              (subst (λ (x : Directorio). destino j x.logical_blocks ≡ some p) (sym e) k) in
          (rw z pos, rw z (test_bit-set_self (replicate (max_bit n) false) 0 true (rw lon pos)));
      acordes = λ g d meta j p b q k.
          let e = unica_base g d b in
          let q' : directorio_base.metadata ≡ some meta =
            subst (λ (x : Directorio). x.metadata ≡ some meta) (sym e) q in
          subst (λ (x : Directorio). destino j x.logical_blocks ≡ some p) e
            (acorde_base j p (let z : 0 ∷ [] ≡ meta.blocks = metadata_base meta q' in rw z k));
      unicos = λ g d j b.
          subst (λ (x : Directorio). destino j (desenlazar j x.logical_blocks) ≡ none)
            (unica_base g d b) (unico_base j);
    }
