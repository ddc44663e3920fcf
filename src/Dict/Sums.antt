-- ===== src/Dict/Sums.antt =====
-- The sum of a weight over the values of a dict, under each operation.
use fpga_algotrading.Prelude.{ℕ, ◌+◌, ◌≡◌, refl, Bool, true, false, none, some, [], ◌∷◌, arith}
use fpga_algotrading.Dict.Defs.{Dict, lookup, insert, erase, drop_where, IsDistinct, sum_of}

module _ {ℓ} {V : Type ℓ} (w : V → ℕ) where
  pub sum-insert_new :
      (k : ℕ) (v : V) (d : Dict V) → lookup k d ≡ none → sum_of w (insert k v d) ≡ sum_of w d + w v
  sum-insert_new k v [] h = omega arith
  sum-insert_new k v (e ∷ d) h = ground (arith, sum-insert_new k v d)

  pub sum-insert_old :
      (k : ℕ) (v old : V) (d : Dict V)
      → lookup k d ≡ some old
      → sum_of w (insert k v d) + w old ≡ sum_of w d + w v
  sum-insert_old k v old [] h = cc
  sum-insert_old k v old (e ∷ d) h = ground (arith, sum-insert_old k v old d)

  pub sum-erase_absent :
      (k : ℕ) (d : Dict V) → lookup k d ≡ none → sum_of w (erase k d) ≡ sum_of w d
  sum-erase_absent k [] h = refl
  sum-erase_absent k (e ∷ d) h = ground (arith, sum-erase_absent k d)

  pub sum-erase :
      (k : ℕ) (old : V) (d : Dict V)
      → IsDistinct d
      → lookup k d ≡ some old
      → sum_of w (erase k d) + w old ≡ sum_of w d
  sum-erase k old [] u h = cc
  sum-erase k old (e ∷ d) u h = ground (arith, sum-erase k old d u.1, sum-erase_absent k d)

  -- Where the test only drops values of no weight the sum stays.
  pub sum-drop_light :
      (p : V → Bool) (d : Dict V)
      → ((v : V) → p v ≡ true → w v ≡ 0)
      → sum_of w (drop_where p d) ≡ sum_of w d
  sum-drop_light p [] h = refl
  sum-drop_light p (e ∷ d) h = ground (arith, h e.1, sum-drop_light p d h)

  -- Where the test drops every value of weight nothing is left.
  pub sum-drop_heavy :
      (p : V → Bool) (d : Dict V)
      → ((v : V) → p v ≡ false → w v ≡ 0)
      → sum_of w (drop_where p d) ≡ 0
  sum-drop_heavy p [] h = refl
  sum-drop_heavy p (e ∷ d) h = ground (arith, h e.1, sum-drop_heavy p d h)
