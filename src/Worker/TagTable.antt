-- ===== src/Worker/TagTable.antt =====
-- The list of `file_tag` (worker/src/memoria.c) behind a change through a pointer.
use tp_ssoo_2c.Base.{
  ℕ, ◌≡◌, inl, inr, ap, true, some, List, [], ◌∷◌, ◌==◌, Bool-cases, some_inj, arith,
}
use tp_ssoo_2c.Worker.{FileTag}
use tp_ssoo_2c.Worker.Tables.{file_tag_de, cambiar_file_tag}

-- The pointer leads to what was changed.
pub file_tag_de-cambiar :
    (a : ℕ) (f : FileTag → FileTag)
    → ((t : FileTag) → (f t).direccion ≡ t.direccion)
    → (fts : List FileTag) (ft : FileTag) → file_tag_de a fts ≡ some ft
    → file_tag_de a (cambiar_file_tag a f fts) ≡ some (f ft)
unfolding file_tag_de cambiar_file_tag
file_tag_de-cambiar a f d [] ft h = absurd (ground arith)
file_tag_de-cambiar a f d (t ∷ fts) ft h = elim (Bool-cases (t.direccion == a)) [
  | inl y ↦
      let z : some t ≡ some ft = rw y at h in
      let w : ((f t).direccion == a) ≡ true = rw (d t) y in
      rw (y, w) (ap (λ u. some (f u)) (some_inj t ft z))
  | inr n ↦ rw (n, n) (file_tag_de-cambiar a f d fts ft (rw n at h))
]
