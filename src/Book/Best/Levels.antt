-- ===== src/Book/Best/Levels.antt =====
-- `best_bid` and `best_ask` find the first price of a side and what its level holds.
use fpga_algotrading.Prelude.{
  ℕ, ◌≤◌, ◌≡◌, refl, inl, inr, true, Option, none, some, [], ◌∷◌, arith, Option-cases,
}
use fpga_algotrading.Prelude.Int.{ℤ}
use fpga_algotrading.Dict.{
  Dict, lookup, contains, highest, lowest, highest-ge, highest_bound, highest_found, lowest-le,
  lowest_bound, lowest_found,
}
use fpga_algotrading.Contract.{Side}
use fpga_algotrading.Book.State.{Level}
use fpga_algotrading.Book.Top.{quote_at, best_bid, best_ask}

-- `px` is the first price of the side, by the order `Ahead`, and `qty` is what its level holds.
pub record IsBest (Ahead : ℕ → ℕ → Type 0) (levels : Dict Level) (px qty : ℕ) : Type 0 where
  pub count : ℤ
  pub found : lookup px levels ≡ some (record { qty = qty; order_count = count })
  pub first : (p : ℕ) (l : Level) → lookup p levels ≡ some l → Ahead px p

abbrev pub BestIs : (ℕ → ℕ → Type 0) → Dict Level → Option (ℕ × ℕ) → Type 0
BestIs Ahead levels none = (p : ℕ) → lookup p levels ≡ none
BestIs Ahead levels (some (px, qty)) = IsBest Ahead levels px qty

quote_at-BestIs :
    (Ahead : ℕ → ℕ → Type 0) (levels : Dict Level) (px : ℕ)
    → contains px levels ≡ true
    → ((p : ℕ) (l : Level) → lookup p levels ≡ some l → Ahead px p)
    → BestIs Ahead levels (quote_at levels px)
quote_at-BestIs Ahead levels px there first = elim (Option-cases (lookup px levels)) [
  | inl absent ↦ absurd (ground arith)
  | inr (l, found) ↦
      rw (found, quote_at) (record { count = l.order_count; found = found; first = first })
]

-- A higher bid is ahead, a lower ask is.
abbrev pub Ahead : Side → ℕ → ℕ → Type 0
Ahead Side.buy a b = b ≤ a
Ahead Side.sell a b = a ≤ b

pub best_bid-BestIs : (d : Dict Level) → BestIs (Ahead Side.buy) d (best_bid d)
unfolding best_bid
best_bid-BestIs [] = λ p. refl
best_bid-BestIs (e ∷ d) =
    quote_at-BestIs (Ahead Side.buy) (e ∷ d) (highest e.0 d) (ground (arith, highest_found e.0 d))
      (λ p l found. ground (arith, highest-ge e.0 d, highest_bound e.0 p l d))

pub best_ask-BestIs : (d : Dict Level) → BestIs (Ahead Side.sell) d (best_ask d)
unfolding best_ask
best_ask-BestIs [] = λ p. refl
best_ask-BestIs (e ∷ d) =
    quote_at-BestIs (Ahead Side.sell) (e ∷ d) (lowest e.0 d) (ground (arith, lowest_found e.0 d))
      (λ p l found. ground (arith, lowest-le e.0 d, lowest_bound e.0 p l d))
