-- ===== src/Dict/Defs.antt =====
-- The operations of a dict: a key stands in it once, at the place of its first insertion.
use fpga_algotrading.Prelude.{
  ℕ, ◌+◌, ◌≡◌, Bool, Option, none, some, List, [], ◌∷◌, ◌==◌, if◌then◌else◌, is_some,
}

abbrev pub Dict {ℓ} : Type ℓ → Type ℓ
Dict A = List (ℕ × A)

module _ {ℓ} {V : Type ℓ} where
  -- `d.get(k)`
  abbrev pub lookup : ℕ → Dict V → Option V
  lookup k [] = none
  lookup k (e ∷ d) = if k == e.0 then some e.1 else lookup k d

  -- `d[k] = v`
  abbrev pub insert : ℕ → V → Dict V → Dict V
  insert k v [] = (k, v) ∷ []
  insert k v (e ∷ d) = if k == e.0 then (k, v) ∷ d else e ∷ insert k v d

  -- `k in d`
  abbrev pub contains : ℕ → Dict V → Bool
  contains k d = is_some (lookup k d)

  -- `del d[k]`, `d.pop(k)`
  abbrev pub erase : ℕ → Dict V → Dict V
  erase k [] = []
  erase k (e ∷ d) = let rest = erase k d in if k == e.0 then rest else e ∷ rest

  -- `for k in [k for k, v in d.items() if p(v)]: del d[k]`
  abbrev pub drop_where : (V → Bool) → Dict V → Dict V
  drop_where p [] = []
  drop_where p (e ∷ d) = let rest = drop_where p d in if p e.1 then rest else e ∷ rest

  -- No key stands in the list twice.
  abbrev pub IsDistinct : Dict V → Type ℓ
  IsDistinct [] = Unit
  IsDistinct (e ∷ d) = (lookup e.0 d ≡ none) × IsDistinct d

  -- The sum of a weight over the values.
  abbrev pub sum_of : (V → ℕ) → Dict V → ℕ
  sum_of w [] = 0
  sum_of w (e ∷ d) = w e.1 + sum_of w d
