-- ===== src/Dict/Laws.antt =====
-- What a lookup sees after a write or a removal, and what a removal undoes.
use asset_embedding_protocol.Prelude.{
  String, ◌≡◌, refl, false, none, some, [], ◌∷◌, ◌++◌, arith, ◌==◌, string_eq, eq_iff,
  if◌then◌else◌, length, ◌≤◌, ◌+◌, nat_eq,
}
use asset_embedding_protocol.Dict.{Dict, get, put, remove, has}

module _ {ℓ} {V : Type ℓ} where
  pub get-put :
      (k j : String) (v : V) (d : Dict V) → get j (put k v d) ≡ (if k == j then some v else get j d)
  unfolding get put
  get-put k j v [] = refl
  get-put k j v ((i, w) ∷ d) = ground (arith, eq_iff k j, eq_iff i k, eq_iff i j, get-put k j v d)

  pub get-put_self : (k : String) (v : V) (d : Dict V) → get k (put k v d) ≡ some v
  get-put_self k v d = ground (arith, get-put k k v d, eq_iff k k)

  pub get-remove :
      (k j : String) (d : Dict V) → get j (remove k d) ≡ (if k == j then none else get j d)
  unfolding get remove
  get-remove k j [] = ground arith
  get-remove k j ((i, w) ∷ d) = ground (arith, eq_iff i k, eq_iff i j, eq_iff k j, get-remove k j d)

  pub remove_absent : (k : String) (d : Dict V) → has k d ≡ false → remove k d ≡ d
  unfolding get remove
  remove_absent k [] h = refl
  remove_absent k ((i, w) ∷ d) h = ground (arith, remove_absent k d)

  -- A key that is not there goes to the end.
  pub put_absent :
      (k : String) (v : V) (d : Dict V) → has k d ≡ false → put k v d ≡ d ++ (k, v) ∷ []
  unfolding get put
  put_absent k v [] h = refl
  put_absent k v ((i, w) ∷ d) h = ground (arith, put_absent k v d)

  -- Removing a key that was just added gives the dictionary back.
  pub remove-put_absent :
      (k : String) (v : V) (d : Dict V) → has k d ≡ false → remove k (put k v d) ≡ d
  unfolding get put remove
  remove-put_absent k v [] h = ground (arith, eq_iff k k)
  remove-put_absent k v ((i, w) ∷ d) h = ground (arith, remove-put_absent k v d)

  pub length-put-le : (k : String) (v : V) (d : Dict V) → length (put k v d) ≤ length d + 1
  unfolding put
  length-put-le k v [] = omega arith
  length-put-le k v ((i, w) ∷ d) = ground (arith, length-put-le k v d)
