-- ===== src/Storage/Hashes.antt =====
-- storage/src/storage_hashes.c: blocks_hash_index.config, from the hash of a content to the block
-- that holds it. `crypto_md5` is a function of another library, a parameter; of the value
-- "block<n>" the number is kept, which the callers read back by `atoi(value + 5)`.
use Prim.Native.String.{String}
use text.Mathlib.Text.{◌==◌ as str_eq}
use tp_ssoo_2c.Base.{
  ℕ, ◌≡◌, refl, Bool, true, false, Option, none, some, List, [], ◌∷◌, take, if◌then◌else◌,
}
use tp_ssoo_2c.Storage.{FileTag, Fs, listo, M, ◌>>=◌, ◌>>◌}
use tp_ssoo_2c.Storage.FileSystem.{leer_logico}

-- `config_get_string_value`, `config_has_property` and `config_remove_key` on the index.
unfoldable pub valor : String → List (String × ℕ) → Option ℕ
valor h [] = none
valor h ((k, p) ∷ ks) = if str_eq k h then some p else valor h ks

unfoldable pub sin_clave : String → List (String × ℕ) → List (String × ℕ)
sin_clave h [] = []
sin_clave h ((k, p) ∷ ks) = if str_eq k h then sin_clave h ks else (k, p) ∷ sin_clave h ks

unfoldable pub hash_is_loaded : String → Fs → Bool
hash_is_loaded h s = elim (valor h s.hash_index) [ none ↦ false | some _ ↦ true ]

unfoldable pub block_asocied_to : String → M (Option ℕ)
unfolding hash_is_loaded
block_asocied_to h s = listo (if hash_is_loaded h s then valor h s.hash_index else none) s

unfoldable pub remove_hash : String → M (Unit {0})
unfolding hash_is_loaded
remove_hash h s =
    listo tt (if hash_is_loaded h s then record s { hash_index = sin_clave h s.hash_index } else s)

config_set_value : String → ℕ → M (Unit {0})
config_set_value h p s = listo tt (record s { hash_index = (h, p) ∷ sin_clave h s.hash_index })

unfoldable pub load_hash_in_index : String → ℕ → M (Unit {0})
unfolding config_set_value
load_hash_in_index h p = do remove_hash h; config_set_value h p

-- The first hash.
pub load_hash_in_index-vacio :
    (h : String) (p : ℕ) (s : Fs)
    → s.hash_index ≡ []
    → load_hash_in_index h p s ≡ listo tt (record s { hash_index = (h, p) ∷ [] })
unfolding load_hash_in_index remove_hash config_set_value hash_is_loaded valor sin_clave
load_hash_in_index-vacio h p s e = rw e refl

module _ (crypto_md5 : List ℕ → String) where
  -- `crypto_md5(data, BLOCK_SIZE)`.
  unfoldable pub get_hash_from_content : List ℕ → M String
  get_hash_from_content contenido s = listo (crypto_md5 (take s.block_size contenido)) s

  unfoldable pub get_hash_from_block : FileTag → ℕ → M String
  get_hash_from_block ft i = do contenido ← leer_logico ft i; get_hash_from_content contenido
