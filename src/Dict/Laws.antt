-- ===== src/Dict/Laws.antt =====
-- What a lookup finds after each operation, and that the keys stay distinct.
use fpga_algotrading.Prelude.{
  ℕ, ◌≡◌, refl, ◌≢◌, Bool, none, some, [], ◌∷◌, ◌==◌, if◌then◌else◌, arith,
}
use fpga_algotrading.Dict.Defs.{Dict, lookup, insert, erase, drop_where, IsDistinct}

module _ {ℓ} {V : Type ℓ} where
  pub lookup-insert :
      (j k : ℕ) (v : V) (d : Dict V)
      → lookup j (insert k v d) ≡ (if j == k then some v else lookup j d)
  lookup-insert j k v [] = ground arith
  lookup-insert j k v (e ∷ d) = ground (arith, lookup-insert j k v d)

  pub lookup-erase :
      (j k : ℕ) (d : Dict V) → lookup j (erase k d) ≡ (if j == k then none else lookup j d)
  lookup-erase j k [] = ground arith
  lookup-erase j k (e ∷ d) = ground (arith, lookup-erase j k d)

  pub lookup-insert_self : (k : ℕ) (v : V) (d : Dict V) → lookup k (insert k v d) ≡ some v
  lookup-insert_self k v d = ground (arith, lookup-insert k k v d)

  pub lookup-insert_ne :
      (j k : ℕ) (v : V) (d : Dict V) → j ≢ k → lookup j (insert k v d) ≡ lookup j d
  lookup-insert_ne j k v d h = ground (arith, lookup-insert j k v d)

  pub lookup-erase_self : (k : ℕ) (d : Dict V) → lookup k (erase k d) ≡ none
  lookup-erase_self k d = ground (arith, lookup-erase k k d)

  pub lookup-erase_ne : (j k : ℕ) (d : Dict V) → j ≢ k → lookup j (erase k d) ≡ lookup j d
  lookup-erase_ne j k d h = ground (arith, lookup-erase j k d)

  pub erase-insert : (k : ℕ) (v : V) (d : Dict V) → erase k (insert k v d) ≡ erase k d
  erase-insert k v [] = ground arith
  erase-insert k v (e ∷ d) = ground (arith, erase-insert k v d)

  pub erase_absent : (k : ℕ) (d : Dict V) → lookup k d ≡ none → erase k d ≡ d
  erase_absent k [] h = refl
  erase_absent k (e ∷ d) h = ground (arith, erase_absent k d)

  pub insert-IsDistinct : (k : ℕ) (v : V) (d : Dict V) → IsDistinct d → IsDistinct (insert k v d)
  insert-IsDistinct k v [] h = ground arith
  insert-IsDistinct k v (e ∷ d) h = ground (arith, insert-IsDistinct k v d, lookup-insert e.0 k v d)

  pub erase-IsDistinct : (k : ℕ) (d : Dict V) → IsDistinct d → IsDistinct (erase k d)
  erase-IsDistinct k [] h = tt
  erase-IsDistinct k (e ∷ d) h = ground (arith, erase-IsDistinct k d, lookup-erase e.0 k d)

  lookup-drop_none :
      (j : ℕ) (p : V → Bool) (d : Dict V) → lookup j d ≡ none → lookup j (drop_where p d) ≡ none
  lookup-drop_none j p [] h = refl
  lookup-drop_none j p (e ∷ d) h = ground (arith, lookup-drop_none j p d)

  pub drop_where-IsDistinct :
      (p : V → Bool) (d : Dict V) → IsDistinct d → IsDistinct (drop_where p d)
  drop_where-IsDistinct p [] h = tt
  drop_where-IsDistinct p (e ∷ d) h =
      ground (arith, drop_where-IsDistinct p d, lookup-drop_none e.0 p d)

  -- A value that passes the test is gone, any other is still there.
  pub lookup-drop_where :
      (j : ℕ) (p : V → Bool) (d : Dict V)
      → IsDistinct d
      → lookup j (drop_where p d)
        ≡ (elim (lookup j d) [ none ↦ none | some v ↦ if p v then none else some v ])
  lookup-drop_where j p [] h = refl
  lookup-drop_where j p (e ∷ d) h =
      ground (arith, lookup-drop_where j p d h.1, lookup-drop_none j p d)
