-- ===== src/GoldenBook/Audit.antt =====
-- `verify_consistency` finds nothing to complain about.
use fpga_algotrading.Prelude.{
  ℕ, ◌+◌, ◌≡◌, ◌≢◌, refl, sym, ◌∙◌, true, Option, none, some, [], ◌∷◌, ◌==◌, arith, or_else,
}
use fpga_algotrading.Dict.{Dict, lookup, sum_of, lookup-drop_where}
use fpga_algotrading.Contract.{Side}
use fpga_algotrading.GoldenBook.State.{BookConfig, Order, Sides, GoldenBook}
use fpga_algotrading.GoldenBook.Query.{
  positive, add_level, rebuilt, covers, same_dict, check_side, check_locates, verify_consistency,
}
use fpga_algotrading.GoldenBook.Laws.{
  side_levels, held, share, IsTidy, held-raised, raised-IsTidy, empty-IsTidy, held_empty,
}
use fpga_algotrading.GoldenBook.Agreement.{AllLive, IsSound}
use fpga_algotrading.GoldenBook.Messages.{Reach, Reach-IsSound}

rebuilt-IsTidy :
    (levels : Dict Sides) (d : Dict Order) → AllLive d → IsTidy levels → IsTidy (rebuilt levels d)
rebuilt-IsTidy levels [] all h = h
rebuilt-IsTidy levels (e ∷ d) all h =
    rebuilt-IsTidy (add_level levels e.1) d all.1
      (raised-IsTidy levels h e.1.locate e.1.side e.1.price e.1.shares all.0)

held-rebuilt :
    (levels : Dict Sides) (d : Dict Order) (l : ℕ) (s : Side) (p : ℕ)
    → AllLive d
    → IsTidy levels
    → held (rebuilt levels d) l s p ≡ held levels l s p + sum_of (share l s p) d
held-rebuilt levels [] l s p all h = omega arith
held-rebuilt levels (e ∷ d) l s p all h =
    let o = e.1 in
    omega (
      arith,
      held-rebuilt (add_level levels o) d l s p all.1
          (raised-IsTidy levels h o.locate o.side o.price o.shares all.0),
      held-raised levels h o.locate o.side o.price o.shares l s p,
    )

covers_equal :
    (d a b : Dict ℕ)
    → ((k : ℕ) → lookup k a ≡ lookup k b)
    → ((k : ℕ) → lookup k d ≢ none → lookup k a ≢ none)
    → covers d a b ≡ true
covers_equal [] a b same keys = refl
covers_equal (e ∷ d) a b same keys =
    let rest = covers_equal d a b same (λ k h. keys k (λ n. h (ground arith))) in
    ground (arith, same e.0, keys e.0)

same_dict_equal :
    (have want : Dict ℕ) → ((k : ℕ) → lookup k have ≡ lookup k want) → same_dict have want ≡ true
same_dict_equal have want same = ground (
  arith,
  covers_equal have have want same (λ k h. h),
  covers_equal want have want same (λ k h e. h (sym (same k) ∙ e)),
)

-- Tidy sides that hold the same have the same entries.
tidy_equal : (a b : Option ℕ) → a ≢ some 0 → b ≢ some 0 → or_else a 0 ≡ or_else b 0 → a ≡ b
tidy_equal a b ha hb e = ground arith

pub lookup-positive :
    (levels : Dict Sides) (l : ℕ) (s : Side) (p : ℕ)
    → IsTidy levels
    → lookup p (positive (side_levels levels l s)) ≡ lookup p (side_levels levels l s)
lookup-positive levels l s p h = ground (
  arith,
  lookup-drop_where p (λ q. q == 0) (side_levels levels l s) (h.distinct l s),
  h.held_some l s p,
)

module _ (g : GoldenBook) (h : IsSound g) where
  orders-IsTidy : IsTidy (rebuilt [] g.orders)
  orders-IsTidy = rebuilt-IsTidy [] g.orders h.live empty-IsTidy

  check_side-true : (l : ℕ) (s : Side) → check_side g.levels (rebuilt [] g.orders) l s ≡ true
  unfolding check_side
  check_side-true l s = same_dict_equal _ _ (λ p.
      lookup-positive g.levels l s p h.tidy
      ∙ tidy_equal _ _ (h.tidy.held_some l s p) (orders-IsTidy.held_some l s p) (
          omega (
            arith,
            h.agrees l s p,
            held-rebuilt [] g.orders l s p h.live empty-IsTidy,
            held_empty l s p,
          )))

  check_locates-true : (d : Dict Sides) → check_locates d g.levels (rebuilt [] g.orders) ≡ true
  unfolding check_locates
  check_locates-true [] = refl
  check_locates-true (e ∷ d) =
      ground
        (arith, check_side-true e.0 Side.buy, check_side-true e.0 Side.sell, check_locates-true d)

-- The audit passes in every state that regular messages, clears and staleness marks reach from a
-- new book: `verify_consistency` does not raise, and each price level is the sum of the shares of
-- the live orders that rest there.
pub verify_consistency-passes :
    {cfg : BookConfig} {g : GoldenBook}
    → Reach cfg g
    → (verify_consistency g ≡ true)
      × ((l : ℕ) (s : Side) (p : ℕ) → held g.levels l s p ≡ sum_of (share l s p) g.orders)
unfolding verify_consistency
verify_consistency-passes {g = g} r =
    let h = Reach-IsSound r in (check_locates-true g h g.levels, h.agrees)
