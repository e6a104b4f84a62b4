-- ===== src/Storage/Contents/Shared.antt =====
-- The block that storage_commit moves away from (storage/src/sotrage_files.c).
use tp_ssoo_2c.Base.{ℕ, ◌<◌, ◌≡◌, ◌≢◌, sym, ap, ◌∙◌, false, some, length, set, arith, ne→==}
use tp_ssoo_2c.Storage.{FileTag, mismo, MetadataFile, Fs, listo, ◌>>◌, pure, bind-eq-listo}
use tp_ssoo_2c.Storage.FileSystem.{unlink, link, blk_mutex, storage_metadata_write, destino_en}
use tp_ssoo_2c.Storage.Bitmap.{test_bit, mark_block_free}
use tp_ssoo_2c.Storage.Bitmap.Search.{test_bit-set_self}
use tp_ssoo_2c.Storage.Commit.{reasignar}
use tp_ssoo_2c.Storage.Frame.{Marco, usar}
use tp_ssoo_2c.Storage.Frame.Calls.{unlink-Conserva, blk_mutex-Conserva, link-Conserva}
use tp_ssoo_2c.Storage.Frame.Operations.{reasignar-Conserva}

destino_en_marco :
    (ft g : FileTag) (j : ℕ) (s s' : Fs)
    → Marco ft s s'
    → mismo ft g ≡ false
    → destino_en g j s' ≡ destino_en g j s
unfolding destino_en
destino_en_marco ft g j s s' m n = rw (m.others g n, destino_en)

liberado :
    (a : ℕ) (s s' : Fs) (u : Unit {0})
    → a < length s.bitmap
    → mark_block_free a s ≡ listo u s'
    → test_bit s'.bitmap a ≡ false
unfolding mark_block_free
liberado a s s' u h e =
    let q : record s { bitmap = set s.bitmap a false } ≡ s' = cc in
    ap (λ (x : Fs). test_bit x.bitmap a) (sym q) ∙ test_bit-set_self s.bitmap a false h

bits_fin :
    (ft : FileTag) (meta m n : MetadataFile) (s s' : Fs)
    → (storage_metadata_write ft meta >> pure n) s ≡ listo m s'
    → s'.bitmap ≡ s.bitmap
unfolding storage_metadata_write
bits_fin ft meta m n s s' h = ground arith

-- When a commit moves a logical block of `ft` from the block `a` to one with the same content, `a` is
-- free in the bitmap afterwards, although another File:Tag `g` still has its block `j` there.
pub reasignar_libera_compartido :
    (ft g : FileTag) (i j a p : ℕ) (meta m : MetadataFile) (s s' : Fs)
    → mismo ft g ≡ false
    → a ≢ 0
    → a < length s.bitmap
    → destino_en g j s ≡ some a
    → reasignar ft i a p meta s ≡ listo m s'
    → (test_bit s'.bitmap a ≡ false) × (destino_en g j s' ≡ some a)
unfolding reasignar
reasignar_libera_compartido ft g i j a p meta m s s' n z l d h =
    let (u1, s1, e1, h1) = bind-eq-listo (unlink ft i) _ s s' m h in
    let (u2, s2, e2, h2) = bind-eq-listo (blk_mutex p) _ s1 s' m h1 in
    let (u3, s3, e3, h3) = bind-eq-listo (link p ft i) _ s2 s' m h2 in
    let h3' = rw (ne→== a 0 z) at h3 in
    let (u4, s4, e4, h4) = bind-eq-listo (mark_block_free a) _ s3 s' m h3' in
    let b : length s3.bitmap ≡ length s.bitmap =
      (usar (link-Conserva ft p i) s2 s3 u3 e3).bits
      ∙ ((usar (blk_mutex-Conserva ft p) s1 s2 u2 e2).bits
          ∙ (usar (unlink-Conserva ft i) s s1 u1 e1).bits) in
    let f = liberado a s3 s4 u4 (rw b l) e4 in
    let m' = usar (reasignar-Conserva ft i a p meta) s s' m h in
    (ap (λ x. test_bit x a) (bits_fin ft _ m _ s4 s' h4) ∙ f, destino_en_marco ft g j s s' m' n ∙ d)
