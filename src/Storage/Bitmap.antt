-- ===== src/Storage/Bitmap.antt =====
-- storage/src/storage_bitmap.c: the bitmap of the physical blocks. `bitmap_lock` brackets each
-- function, and `msync` writes the mapped bytes through.
pub mod Search
use tp_ssoo_2c.Base.{
  ℕ, zero, suc, ◌+◌, ◌-◌, ◌*◌, ◌/◌, ◌≤◌, ◌<◌, ◌≡◌, refl, Bool, true, false, Option, none, some,
  List, length, get_elem?, set, if◌then◌else◌,
}
use tp_ssoo_2c.Storage.{Fs, Res, listo, M}

-- `bitarray_create_with_mode` over (blocks_count + 7) / 8 bytes: the number of bits.
abbrev pub max_bit : ℕ → ℕ
max_bit blocks_count = (blocks_count + 7) / 8 * 8

unfoldable pub test_bit : List Bool → ℕ → Bool
test_bit bits i = elim (get_elem? bits i) [ none ↦ false | some b ↦ b ]

-- The `for` of `find_free_block` from `i`, with the rounds that are left.
unfoldable pub buscar_libre : ℕ → ℕ → List Bool → Option ℕ
buscar_libre zero i bits = none
buscar_libre (suc n) i bits =
    let resto = buscar_libre n (i + 1) bits in if test_bit bits i then resto else some i

unfoldable pub reservar : Option ℕ → Fs → Fs
reservar none s = s
reservar (some i) s = record s { bitmap = set s.bitmap i true }

-- -1 is `none`.
unfoldable pub find_free_block : M (Option ℕ)
find_free_block s =
    let libre = buscar_libre (length s.bitmap - 1) 1 s.bitmap in listo libre (reservar libre s)

unfoldable pub mark_block_used : ℕ → M (Unit {0})
mark_block_used p s = listo tt (record s { bitmap = set s.bitmap p true })

unfoldable pub mark_block_free : ℕ → M (Unit {0})
mark_block_free p s = listo tt (record s { bitmap = set s.bitmap p false })
