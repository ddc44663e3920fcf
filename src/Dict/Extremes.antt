-- ===== src/Dict/Extremes.antt =====
-- The greatest and the least key of a dict.
use native.Mathlib.Nat.{le_refl}
use fpga_algotrading.Prelude.{
  ℕ, ◌≤◌, ◌≡◌, true, some, [], ◌∷◌, ltb, ◌==◌, ◌||◌, arith, if◌then◌else◌,
}
use fpga_algotrading.Dict.Defs.{Dict, lookup, contains}

module _ {ℓ} {V : Type ℓ} where
  -- `max(levels)`, from a first price on
  abbrev pub highest : ℕ → Dict V → ℕ
  highest p [] = p
  highest p (e ∷ d) = highest (if ltb p e.0 then e.0 else p) d

  -- `min(levels)`, from a first price on
  abbrev pub lowest : ℕ → Dict V → ℕ
  lowest p [] = p
  lowest p (e ∷ d) = lowest (if ltb e.0 p then e.0 else p) d

  pub highest-ge : (q : ℕ) (d : Dict V) → q ≤ highest q d
  highest-ge q [] = le_refl q
  highest-ge q (e ∷ d) = ground (arith, highest-ge (if ltb q e.0 then e.0 else q) d)

  pub highest_bound : (q p : ℕ) (l : V) (d : Dict V) → lookup p d ≡ some l → p ≤ highest q d
  highest_bound q p l [] h = cc
  highest_bound q p l (e ∷ d) h = ground (
    arith,
    highest-ge (if ltb q e.0 then e.0 else q) d,
    highest_bound (if ltb q e.0 then e.0 else q) p l d,
  )

  pub highest_found : (q : ℕ) (d : Dict V) → (highest q d == q || contains (highest q d) d) ≡ true
  highest_found q [] = ground arith
  highest_found q (e ∷ d) = ground (arith, highest_found (if ltb q e.0 then e.0 else q) d)

  pub lowest-le : (q : ℕ) (d : Dict V) → lowest q d ≤ q
  lowest-le q [] = le_refl q
  lowest-le q (e ∷ d) = ground (arith, lowest-le (if ltb e.0 q then e.0 else q) d)

  pub lowest_bound : (q p : ℕ) (l : V) (d : Dict V) → lookup p d ≡ some l → lowest q d ≤ p
  lowest_bound q p l [] h = cc
  lowest_bound q p l (e ∷ d) h = ground (
    arith,
    lowest-le (if ltb e.0 q then e.0 else q) d,
    lowest_bound (if ltb e.0 q then e.0 else q) p l d,
  )

  pub lowest_found : (q : ℕ) (d : Dict V) → (lowest q d == q || contains (lowest q d) d) ≡ true
  lowest_found q [] = ground arith
  lowest_found q (e ∷ d) = ground (arith, lowest_found (if ltb e.0 q then e.0 else q) d)
