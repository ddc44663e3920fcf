-- ===== src/Book/Consistency/Shrink.antt =====
-- An order that leaves the map, or shrinks, together with its level.
use fpga_algotrading.Prelude.{
  ℕ, suc, ◌+◌, ◌-◌, ◌≤◌, ◌≡◌, refl, sym, ◌∙◌, inl, inr, Bool, false, some, ◌&&◌, ◌==◌, arith,
  Bool-cases, if◌then◌else◌,
}
use mathlib.Core.Path.{subst₃}
use fpga_algotrading.Prelude.Int.{pos}
use fpga_algotrading.Dict.{
  Dict, IsDistinct, lookup, insert, erase, sum_of, lookup-erase, lookup-insert,
}
use fpga_algotrading.Contract.{Side}
use fpga_algotrading.Book.State.{LiveOrder, Level, OrderBookModel, side_levels, book_of}
use fpga_algotrading.Book.Levels.{put_levels, level_remove}
use fpga_algotrading.Book.Aggregate.{
  share, one, level_of, level_at, aggregate, Agrees, Sound, share_of_none,
}
use fpga_algotrading.Book.Frame.{
  here, here-eq, level_at-put_levels_self, level_at-put_levels_away, level_remove_clean,
}

level_of_pos :
    (q n : ℕ) → 1 ≤ n → level_of q n ≡ some (record { qty = q; order_count = pos (suc (n - 1)) })
level_of_pos q n h = ground arith

-- `orders` is the map after the removal of `delta` shares, and of an order if `gone`, from the
-- level at `place`, `side` and `price`.
module _ (m : OrderBookModel) (orders : Dict LiveOrder) (place : ℕ) (side : Side) (price delta : ℕ)
    (gone : Bool) (agrees : Agrees m place side price)
    (shares : sum_of (share place side price) orders + delta
      ≡ sum_of (share place side price) m.orders)
    (members : sum_of (one place side price) orders + (if gone then 1 else 0)
      ≡ sum_of (one place side price) m.orders)
    (occupied : 1 ≤ sum_of (one place side price) m.orders) where
  abbrev held : ℕ
  held = sum_of (share place side price) m.orders

  abbrev others : ℕ
  others = sum_of (one place side price) m.orders - 1

  abbrev after : OrderBookModel
  after = record m { orders = orders }

  abbrev before_levels : Dict Level
  before_levels = side_levels (book_of m place) side

  abbrev after_levels : Dict Level
  after_levels =
      if gone && others == 0
      then erase price before_levels
      else insert price
          (record { qty = held - delta; order_count = pos (if gone then others else suc others) })
          before_levels

  -- The removal is the plain update of the level: no fault is counted.
  pub level_remove_exact :
      level_remove after place side price delta gone ≡ put_levels after place side after_levels
  level_remove_exact =
      level_remove_clean after place side price delta gone held others
        (agrees ∙ level_of_pos _ _ occupied) (omega arith)
        (λ e z. ground (arith, share_of_none place side price orders))

  lookup-after_levels : lookup price after_levels ≡ aggregate orders place side price
  lookup-after_levels = ground (
    arith,
    lookup-erase price price before_levels,
    lookup-insert price price
        (record { qty = held - delta; order_count = pos (if gone then others else suc others) })
        before_levels,
  )

  lookup-after_levels_ne :
      (p : ℕ) → (p == price) ≡ false → lookup p after_levels ≡ lookup p before_levels
  lookup-after_levels_ne p ne = ground (
    arith,
    lookup-erase p price before_levels,
    lookup-insert p price
        (record { qty = held - delta; order_count = pos (if gone then others else suc others) })
        before_levels,
  )

  abbrev result : OrderBookModel
  result = put_levels after place side after_levels

  result_self : Agrees result place side price
  result_self = level_at-put_levels_self after place side after_levels price ∙ lookup-after_levels

  result_away :
      (s : ℕ) (sd : Side) (p : ℕ)
      → here place side price s sd p ≡ false
      → level_at result s sd p ≡ level_at m s sd p
  result_away s sd p away =
      level_at-put_levels_away after place side price after_levels s sd p away
        (lookup-after_levels_ne p)

  pub level_remove-Agrees :
      (s : ℕ) (sd : Side) (p : ℕ)
      → Agrees m s sd p
      → (here place side price s sd p ≡ false → aggregate orders s sd p ≡ aggregate m.orders s sd p)
      → Agrees (level_remove after place side price delta gone) s sd p
  level_remove-Agrees s sd p h elsewhere =
      rw level_remove_exact (elim (Bool-cases (here place side price s sd p)) [
        | inl at ↦
            let (es, ed, ep) = here-eq place side price s sd p at in
            subst₃ (Agrees result) es ed ep result_self
        | inr away ↦ result_away s sd p away ∙ h ∙ sym (elsewhere away)
      ])

  -- The model stays consistent, and no counter moves.
  pub level_remove-Sound :
      IsDistinct orders
      → ((s : ℕ) (sd : Side) (p : ℕ) → Agrees m s sd p)
      → ((s : ℕ) (sd : Side) (p : ℕ)
          → here place side price s sd p ≡ false
          → aggregate orders s sd p ≡ aggregate m.orders s sd p)
      → Sound m (level_remove after place side price delta gone)
  level_remove-Sound distinct everywhere elsewhere = (
    record {
      distinct = rw level_remove_exact distinct;
      agrees = λ s sd p. level_remove-Agrees s sd p (everywhere s sd p) (elsewhere s sd p);
    },
    rw level_remove_exact refl,
  )
