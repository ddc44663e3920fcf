-- ===== src/GoldenBook/Twin/Tops.antt =====
-- The two books publish the same top.
use mathlib.Core.Path.{subst, fun_ext, ap₂}
use fpga_algotrading.Prelude.{
  ℕ, ◌≤◌, ◌<◌, ◌≡◌, refl, sym, ap, ◌∙◌, inl, inr, Option, none, some, [], ◌∷◌, ◌==◌, ◌&&◌, arith,
  if◌then◌else◌, Bool-cases, Option-cases,
}
use fpga_algotrading.Dict.{
  Dict, lookup, sum_of, sum-erase, IsDistinct, highest-ge, highest_bound, highest_found, lowest-le,
  lowest_bound, lowest_found,
}
use fpga_algotrading.Contract.{Side}
use fpga_algotrading.Book.State.{LiveOrder, OrderBookModel}
use fpga_algotrading.Book.Aggregate.{same_side, rests}
use fpga_algotrading.Book.Aggregate
use fpga_algotrading.Book.Frame.{here-eq}
use fpga_algotrading.Book.Best.{Ahead, OrdersBest}
use fpga_algotrading.GoldenBook.State.{Order, GoldenBook}
use fpga_algotrading.GoldenBook.Query.{best_of}
use fpga_algotrading.GoldenBook.Laws.{side_levels, share}
use fpga_algotrading.GoldenBook.Agreement.{IsSound, AllLive-lookup}
use fpga_algotrading.GoldenBook.Twin.{View, view_live, view_order, viewed, SameOrders, IsOneToOne}
use fpga_algotrading.GoldenBook.Twin.Sums.{viewed-some, sum_viewed, sum_witness}

-- The best entry of a side.
abbrev pub IsBestOf : Side → Dict ℕ → Option (ℕ × ℕ) → Type 0
IsBestOf side d none = (p : ℕ) → lookup p d ≡ none
IsBestOf side d (some (px, qty)) =
    (lookup px d ≡ some qty) × ((p q : ℕ) → lookup p d ≡ some q → Ahead side px p)

pub best_of-IsBestOf : (side : Side) (d : Dict ℕ) → IsBestOf side d (best_of side d)
unfolding best_of
best_of-IsBestOf Side.buy [] = λ p. refl
best_of-IsBestOf Side.sell [] = λ p. refl
best_of-IsBestOf Side.buy (e ∷ d) = (
  ground (arith, highest_found e.0 d),
  λ p q found. ground (arith, highest-ge e.0 d, highest_bound e.0 p q d),
)
best_of-IsBestOf Side.sell (e ∷ d) = (
  ground (arith, lowest_found e.0 d),
  λ p q found. ground (arith, lowest-le e.0 d, lowest_bound e.0 p q d),
)

-- The shares of a view at a place.
abbrev shares_at : ℕ → Side → ℕ → View → ℕ
shares_at place side price (s, sd, p, q) =
    if s == place && same_side sd side && p == price then q else 0

same_side_sym : (a b : Side) → same_side a b ≡ same_side b a
same_side_sym Side.buy Side.buy = refl
same_side_sym Side.buy Side.sell = refl
same_side_sym Side.sell Side.buy = refl
same_side_sym Side.sell Side.sell = refl

Ahead-antisym : (side : Side) (a b : ℕ) → Ahead side a b → Ahead side b a → a ≡ b
Ahead-antisym Side.buy a b h h' = omega arith
Ahead-antisym Side.sell a b h h' = omega arith

module _ (sym_of : ℕ → ℕ) (one_to_one : IsOneToOne sym_of) where
  share-view :
      (l : ℕ) (s : Side) (p : ℕ) (o : Order)
      → share l s p o ≡ shares_at (sym_of l) s p (view_order sym_of o)
  share-view l s p o = elim (Bool-cases (l == o.locate)) [
    | inl there ↦
        let e : l ≡ o.locate = ground arith in
        let e' : sym_of l ≡ sym_of o.locate = ap sym_of e in ground (arith, same_side_sym s o.side)
    | inr elsewhere ↦ ground (arith, one_to_one o.locate l)
  ]

  module _ (m : OrderBookModel) (g : GoldenBook) (distinct : IsDistinct m.orders)
      (sound : IsSound g) (same : SameOrders sym_of m.orders g.orders) (l : ℕ) (side : Side) where
    abbrev pub place : ℕ
    place = sym_of l

    abbrev pub kept : Dict ℕ
    kept = side_levels g.levels l side

    -- The shares at a price are the same in both order maps.
    sums_same :
        (p : ℕ) → sum_of (Aggregate.share place side p) m.orders ≡ sum_of (share l side p) g.orders
    sums_same p =
        sum_viewed view_live (view_order sym_of) (shares_at place side p) m.orders g.orders distinct
          sound.distinct same
        ∙ ap (λ w. sum_of w g.orders) (sym (fun_ext (share-view l side p)))

    kept_sum : (p q : ℕ) → lookup p kept ≡ some q → (q ≡ sum_of (share l side p) g.orders) × (0 < q)
    kept_sum p q found = ground (arith, sound.agrees l side p, sound.tidy.held_some l side p)

    -- A price with shares has an order of the golden model.
    order_at :
        (p : ℕ)
        → 0 < sum_of (share l side p) g.orders
        → (ref : ℕ) × (o : LiveOrder) × (lookup ref m.orders ≡ some o)
          × (o.sym ≡ place)
          × (o.side ≡ side)
          × (o.price ≡ p)
    order_at p h =
        let (ref, o', found', heavy) = sum_witness (share l side p) g.orders sound.distinct h in
        let (o, found, e) =
          viewed-some view_live (lookup ref m.orders) (view_order sym_of o')
            (same ref ∙ ap (viewed (view_order sym_of)) found') in
        let (el, es, ep) = here-eq o'.locate o'.side o'.price l side p (ground arith) in
        (ref, o, found, ap (λ v. v.0) e ∙ ap sym_of el, ap (λ v. v.1) e ∙ es, ap (λ v. v.2) e ∙ ep)

    -- A price with an order of the golden model has shares.
    shares_of :
        (p : ℕ)
        → 1 ≤ sum_of (Aggregate.one place side p) m.orders
        → 0 < sum_of (share l side p) g.orders
    shares_of p h =
        let (ref, o, found, counted) =
          sum_witness (Aggregate.one place side p) m.orders distinct h in
        let (o', found', e) =
          viewed-some (view_order sym_of) (lookup ref g.orders) (view_live o)
            (sym (same ref) ∙ ap (viewed view_live) found) in
        let alive = AllLive-lookup ref o' g.orders sound.live found' in
        let weight : share l side p o' ≡ shares_at place side p (view_live o) =
          share-view l side p o' ∙ ap (shares_at place side p) e in
        let shares : o'.shares ≡ o.qty = ap (λ v. v.3) e in
        ground (arith, sum-erase (share l side p) ref o' g.orders sound.distinct found')

    held_at : (p : ℕ) → 0 < sum_of (share l side p) g.orders → (q : ℕ) × (lookup p kept ≡ some q)
    held_at p h = elim (Option-cases (lookup p kept)) [
      | inl absent ↦ absurd (ground (arith, sound.agrees l side p))
      | inr there ↦ there
    ]

    -- The best quote by the orders of the one book is the best entry of the levels of the other.
    pub best_same :
        (b b' : Option (ℕ × ℕ)) → OrdersBest m.orders place side b → IsBestOf side kept b' → b ≡ b'
    best_same none none h h' = refl
    best_same none (some (px, qty)) h h' =
        let (e, positive) = kept_sum px qty h'.0 in
        let (ref, o, found, at, on, price) = order_at px (omega arith) in
        absurd (h ref o found at on)
    best_same (some (px, qty)) none h h' =
        let held_there = shares_of px h.1 in absurd (ground (arith, h' px, sound.agrees l side px))
    best_same (some (px, qty)) (some (px', qty')) h h' =
        let (q, found_q) = held_at px (shares_of px h.1) in
        let (e', positive) = kept_sum px' qty' h'.0 in
        let (ref, o, found, at, on, price) = order_at px' (omega arith) in
        let ahead : Ahead side px px' = subst (Ahead side px) price (h.2 ref o found at on) in
        let e : px ≡ px' = Ahead-antisym side px px' ahead (h'.1 px q found_q) in
        let shares : qty ≡ sum_of (share l side px) g.orders = h.0 ∙ sums_same px in
        let shares' : qty ≡ sum_of (share l side px') g.orders =
          subst (λ p. qty ≡ sum_of (share l side p) g.orders) e shares in
        ap₂ (λ a b. some (a, b)) e (shares' ∙ sym e')
