-- ===== src/Book/Consistency/Steps.antt =====
-- The operations one by one.
use fpga_algotrading.Prelude.{
  ℕ, ◌≡◌, refl, sym, ◌∙◌, ap, inl, inr, true, false, none, some, ◌==◌, arith, Bool-cases, ==_iff,
  Option-cases,
}
use fpga_algotrading.Dict.{
  lookup, insert, erase, IsDistinct, insert-IsDistinct, drop_where-IsDistinct, erase-IsDistinct,
  sum-erase, drop_where, sum-drop_heavy, sum-drop_light, Dict,
}
use mathlib.Core.Path.{ap₂, subst}
use fpga_algotrading.Contract.{Side, BookEvt}
use fpga_algotrading.Book.State.{LiveOrder, SymbolBook, side_levels, book_of, OrderBookModel}
use fpga_algotrading.Book.Levels.{level_add, level_remove}
use fpga_algotrading.Book.Apply.{cleared, apply_clear, apply_add}
use fpga_algotrading.Book.Aggregate.{
  share, one, level_of, aggregate, Agrees, IsConsistent, Sound, counted_order,
}
use fpga_algotrading.Book.Frame.{level_at-put_book, here, share_self, one_self, share_away}
use fpga_algotrading.Book.Consistency.Shrink.{level_remove-Sound}
use fpga_algotrading.Book.Consistency.Grow.{level_add-Agrees}
use fpga_algotrading.Book.Consistency.Quiet.{recount-IsConsistent, mark_stale-IsConsistent}

pub level_add-IsConsistent :
    (m : OrderBookModel) (ref : ℕ) (o : LiveOrder)
    → lookup ref m.orders ≡ none
    → IsConsistent m
    → IsConsistent
        (level_add (record m { orders = insert ref o m.orders }) o.sym o.side o.price o.qty)
unfolding level_add
level_add-IsConsistent m ref o new h = record {
  distinct = insert-IsDistinct ref o m.orders h.distinct;
  agrees = λ s sd p. level_add-Agrees m ref o new s sd p (h.agrees s sd p);
}

pub apply_add-IsConsistent :
    (m : OrderBookModel) (evt : BookEvt) → IsConsistent m → IsConsistent (apply_add m evt)
unfolding apply_add
apply_add-IsConsistent m evt h = elim (Option-cases (lookup evt.order_ref m.orders)) [
  | inl new ↦ elim (Bool-cases (evt.qty == 0)) [
    | inl zero_qty ↦ rw (new, zero_qty) (mark_stale-IsConsistent _ _ _ (recount-IsConsistent m _ h))
    | inr some_qty ↦
        rw (new, some_qty) (level_add-IsConsistent _ _ _ new (recount-IsConsistent m _ h))
  ]
  | inr (old, live) ↦ rw live (mark_stale-IsConsistent _ _ _ (recount-IsConsistent m _ h))
]

cleared_empty : (b : SymbolBook) (sd : Side) (p : ℕ) → lookup p (side_levels (cleared b) sd) ≡ none
cleared_empty b Side.buy p = refl
cleared_empty b Side.sell p = refl

-- An order of one symbol counts for no level of another.
elsewhere_weightless :
    (s : ℕ) (sd : Side) (p place : ℕ) (o : LiveOrder)
    → (s == place) ≡ false
    → (o.sym == place) ≡ true
    → (share s sd p o ≡ 0) × (one s sd p o ≡ 0)
elsewhere_weightless s sd p place o other mine = ground arith

aggregate-clear_self :
    (orders : Dict LiveOrder) (s : ℕ) (sd : Side) (p : ℕ)
    → aggregate (drop_where (λ o. o.sym == s) orders) s sd p ≡ none
aggregate-clear_self orders s sd p =
    ap (level_of _) (sum-drop_heavy (one s sd p) (λ o. o.sym == s) orders (λ o other. ground arith))

aggregate-clear_ne :
    (orders : Dict LiveOrder) (place s : ℕ) (sd : Side) (p : ℕ)
    → (s == place) ≡ false
    → aggregate (drop_where (λ o. o.sym == place) orders) s sd p ≡ aggregate orders s sd p
aggregate-clear_ne orders place s sd p ne =
    ap₂ level_of
      (sum-drop_light (share s sd p) (λ o. o.sym == place) orders
        (λ o mine. (elsewhere_weightless s sd p place o ne mine).0))
      (sum-drop_light (one s sd p) (λ o. o.sym == place) orders
        (λ o mine. (elsewhere_weightless s sd p place o ne mine).1))

apply_clear-Agrees :
    (m : OrderBookModel) (place s : ℕ) (sd : Side) (p : ℕ)
    → Agrees m s sd p
    → Agrees (apply_clear m place) s sd p
unfolding apply_clear
apply_clear-Agrees m place s sd p h =
    let m' : OrderBookModel = record m { orders = drop_where (λ o. o.sym == place) m.orders } in
    let e = level_at-put_book m' place (cleared (book_of m' place)) s sd p in
    elim (Bool-cases (s == place)) [
      | inl here ↦
          rw here at e
          ∙ cleared_empty (book_of m' place) sd p
          ∙ sym (
              subst (λ x. aggregate (drop_where (λ o. o.sym == x) m.orders) s sd p ≡ none)
                ((==_iff s place).0 here) (aggregate-clear_self m.orders s sd p))
      | inr ne ↦ rw ne at e ∙ h ∙ sym (aggregate-clear_ne m.orders place s sd p ne)
    ]

pub apply_clear-IsConsistent :
    (m : OrderBookModel) (place : ℕ) → IsConsistent m → IsConsistent (apply_clear m place)
unfolding apply_clear
apply_clear-IsConsistent m place h = record {
  distinct = drop_where-IsDistinct (λ o. o.sym == place) m.orders h.distinct;
  agrees = λ s sd p. apply_clear-Agrees m place s sd p (h.agrees s sd p);
}

aggregate-erase_away :
    (m : OrderBookModel) (ref : ℕ) (o : LiveOrder) (s : ℕ) (sd : Side) (p : ℕ)
    → IsDistinct m.orders
    → lookup ref m.orders ≡ some o
    → here o.sym o.side o.price s sd p ≡ false
    → aggregate (erase ref m.orders) s sd p ≡ aggregate m.orders s sd p
aggregate-erase_away m ref o s sd p u live away =
    let (no_share, no_member) = share_away s sd p o away in
    ap₂ level_of (omega (arith, sum-erase (share s sd p) ref o m.orders u live))
      (omega (arith, sum-erase (one s sd p) ref o m.orders u live))

-- The order leaves the map and its level at once.
pub remove_order-Sound :
    (m : OrderBookModel) (ref : ℕ) (o : LiveOrder)
    → lookup ref m.orders ≡ some o
    → IsConsistent m
    → Sound m
        (level_remove (record m { orders = erase ref m.orders }) o.sym o.side o.price o.qty true)
remove_order-Sound m ref o live h =
    level_remove-Sound m (erase ref m.orders) o.sym o.side o.price o.qty true
      (h.agrees o.sym o.side o.price)
      (omega (
        arith,
        share_self o,
        sum-erase (share o.sym o.side o.price) ref o m.orders h.distinct live,
      ))
      (omega
        (arith, one_self o, sum-erase (one o.sym o.side o.price) ref o m.orders h.distinct live))
      (counted_order m.orders ref o h.distinct live).0 (erase-IsDistinct ref m.orders h.distinct)
      h.agrees (λ s sd p away. aggregate-erase_away m ref o s sd p h.distinct live away)
