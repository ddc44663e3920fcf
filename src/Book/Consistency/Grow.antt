-- ===== src/Book/Consistency/Grow.antt =====
-- An order that enters the map together with its level.
use fpga_algotrading.Prelude.{
  ℕ, ◌+◌, ◌≡◌, ap, ◌∙◌, sym, inl, inr, false, none, some, arith, Bool-cases,
}
use mathlib.Core.Path.{ap₂, subst₃}
use fpga_algotrading.Prelude.Int.{◌+ℤ◌}
use fpga_algotrading.Dict.{lookup, insert, sum_of, sum-insert_new}
use fpga_algotrading.Contract.{Side}
use fpga_algotrading.Book.State.{LiveOrder, OrderBookModel}
use fpga_algotrading.Book.Levels.{level_add}
use fpga_algotrading.Book.Aggregate.{share, one, level_of, aggregate, Agrees, share_of_none}
use fpga_algotrading.Book.Frame.{
  here, here-eq, here_self, here-rests, grown, level_at-level_add_self, level_at-level_add_away,
}

grown-level_of :
    (q n qty : ℕ)
    → (n ≡ 0 → q ≡ 0)
    → ◌≡◌ (some (grown qty (level_of q n))) (level_of (q + qty) (n + 1))
unfolding ◌+ℤ◌
grown-level_of q n qty h = ground arith

aggregate-insert :
    (m : OrderBookModel) (ref : ℕ) (o : LiveOrder)
    → lookup ref m.orders ≡ none
    → aggregate (insert ref o m.orders) o.sym o.side o.price
      ≡ level_of
          (sum_of (share o.sym o.side o.price) m.orders + o.qty)
          (sum_of (one o.sym o.side o.price) m.orders + 1)
aggregate-insert m ref o new =
    let at = here_self o.sym o.side o.price in
    ap₂ level_of
      (ground (arith, at, sum-insert_new (share o.sym o.side o.price) ref o m.orders new))
      (ground (arith, at, sum-insert_new (one o.sym o.side o.price) ref o m.orders new))

module _ (m : OrderBookModel) (ref : ℕ) (o : LiveOrder) (new : lookup ref m.orders ≡ none) where
  abbrev entered : OrderBookModel
  entered = record m { orders = insert ref o m.orders }

  abbrev added : OrderBookModel
  added = level_add entered o.sym o.side o.price o.qty

  level_add-Agrees_self : Agrees m o.sym o.side o.price → Agrees added o.sym o.side o.price
  unfolding level_add
  level_add-Agrees_self h =
      level_at-level_add_self entered o.sym o.side o.price o.qty
      ∙ ap (λ l. some (grown o.qty l)) h
      ∙ grown-level_of _ _ o.qty (share_of_none o.sym o.side o.price m.orders)
      ∙ sym (aggregate-insert m ref o new)

  aggregate-insert_away :
      (s : ℕ) (sd : Side) (p : ℕ)
      → here o.sym o.side o.price s sd p ≡ false
      → aggregate (insert ref o m.orders) s sd p ≡ aggregate m.orders s sd p
  aggregate-insert_away s sd p away =
      ap₂ level_of
        (ground (arith, here-rests s sd p o, sum-insert_new (share s sd p) ref o m.orders new))
        (ground (arith, here-rests s sd p o, sum-insert_new (one s sd p) ref o m.orders new))

  pub level_add-Agrees : (s : ℕ) (sd : Side) (p : ℕ) → Agrees m s sd p → Agrees added s sd p
  unfolding level_add
  level_add-Agrees s sd p h = elim (Bool-cases (here o.sym o.side o.price s sd p)) [
    | inl at ↦
        let (es, ed, ep) = here-eq o.sym o.side o.price s sd p at in
        subst₃ (Agrees added) es ed ep
          (level_add-Agrees_self (subst₃ (Agrees m) (sym es) (sym ed) (sym ep) h))
    | inr away ↦
        level_at-level_add_away entered o.sym o.side o.price o.qty s sd p away
        ∙ h
        ∙ sym (aggregate-insert_away s sd p away)
  ]
