-- ===== src/GoldenBook/Laws.antt =====
-- What the primitive operations write to the levels, and the sums of the orders.
use mathlib.Core.Path.{subst, subst₃, ap₂}
use fpga_algotrading.Prelude.{
  ℕ, ◌+◌, ◌-◌, ◌<◌, ◌≡◌, ◌≢◌, refl, sym, ap, ◌∙◌, inl, inr, Bool-cases, false, some, [], leb, ◌==◌,
  ◌&&◌, arith, if◌then◌else◌, or_else,
}
use fpga_algotrading.Dict.{
  Dict, lookup, insert, erase, IsDistinct, lookup-insert, lookup-erase, insert-IsDistinct,
  erase-IsDistinct,
}
use fpga_algotrading.Contract.{Side}
use fpga_algotrading.Book.Aggregate.{same_side}
use fpga_algotrading.Book.Frame.{here, here_self, here-eq}
use fpga_algotrading.GoldenBook.State.{Order, Sides, side_of, with_side, sides_at}

abbrev pub side_levels : Dict Sides → ℕ → Side → Dict ℕ
side_levels levels locate side = side_of (sides_at levels locate) side

-- The shares that the levels hold at a price.
abbrev pub held : Dict Sides → ℕ → Side → ℕ → ℕ
held levels locate side price = or_else (lookup price (side_levels levels locate side)) 0

abbrev pub written : Dict Sides → ℕ → Side → Dict ℕ → Dict Sides
written levels locate side d = insert locate (with_side (sides_at levels locate) side d) levels

pub side_levels-written :
    (levels : Dict Sides) (locate : ℕ) (side : Side) (d : Dict ℕ) (l : ℕ) (s : Side)
    → side_levels (written levels locate side d) l s
      ≡ (if l == locate && same_side s side then d else side_levels levels l s)
side_levels-written levels locate Side.buy d l Side.buy =
    ground (arith, lookup-insert l locate (with_side (sides_at levels locate) Side.buy d) levels)
side_levels-written levels locate Side.buy d l Side.sell =
    ground (arith, lookup-insert l locate (with_side (sides_at levels locate) Side.buy d) levels)
side_levels-written levels locate Side.sell d l Side.buy =
    ground (arith, lookup-insert l locate (with_side (sides_at levels locate) Side.sell d) levels)
side_levels-written levels locate Side.sell d l Side.sell =
    ground (arith, lookup-insert l locate (with_side (sides_at levels locate) Side.sell d) levels)

-- What holds of the dict that is written and of the dict before holds afterwards.
written_keeps :
    (P : Dict ℕ → Type 0) (levels : Dict Sides) (locate : ℕ) (side : Side) (d : Dict ℕ) (l : ℕ)
    (s : Side)
    → P d
    → P (side_levels levels l s)
    → P (side_levels (written levels locate side d) l s)
written_keeps P levels locate side d l s new old =
    subst P (sym (side_levels-written levels locate side d l s))
      (elim (Bool-cases (l == locate && same_side s side)) [
        | inl at ↦ rw at new
        | inr away ↦ rw away old
      ])

written_self :
    (levels : Dict Sides) (locate : ℕ) (side : Side) (d : Dict ℕ)
    → side_levels (written levels locate side d) locate side ≡ d
written_self levels locate side d =
    side_levels-written levels locate side d locate side ∙ ground (arith, here_self locate side 0)

written_away :
    (levels : Dict Sides) (locate : ℕ) (side : Side) (price : ℕ) (d : Dict ℕ) (l : ℕ) (s : Side)
    (p : ℕ)
    → here locate side price l s p ≡ false
    → ((p == price) ≡ false → lookup p d ≡ lookup p (side_levels levels locate side))
    → lookup p (side_levels (written levels locate side d) l s) ≡ lookup p (side_levels levels l s)
written_away levels locate side price d l s p away same =
    ap (lookup p) (side_levels-written levels locate side d l s)
    ∙ (elim (Bool-cases (l == locate && same_side s side)) [
      | inl at ↦
          let (el, es, ep) = here-eq locate side p l s p (ground arith) in
          rw at (same (ground arith) ∙ ap₂ (λ a b. lookup p (side_levels levels a b)) el es)
      | inr elsewhere ↦ rw elsewhere refl
    ])

-- The order's shares, where it rests.
abbrev pub share : ℕ → Side → ℕ → Order → ℕ
share l s p o = if here o.locate o.side o.price l s p then o.shares else 0

-- No price is kept with no shares, and none twice.
pub record IsTidy (levels : Dict Sides) : Type 0 where
  pub distinct : (l : ℕ) (s : Side) → IsDistinct (side_levels levels l s)
  pub held_some : (l : ℕ) (s : Side) (p : ℕ) → lookup p (side_levels levels l s) ≢ some 0

pub empty-IsTidy : IsTidy []
empty-IsTidy = record { distinct = none_distinct; held_some = none_held }
  where
    none_distinct : (l : ℕ) (s : Side) → IsDistinct (side_levels [] l s)
    none_distinct l Side.buy = tt
    none_distinct l Side.sell = tt

    none_held : (l : ℕ) (s : Side) (p : ℕ) → lookup p (side_levels [] l s) ≢ some 0
    none_held l Side.buy p = λ e. cc
    none_held l Side.sell p = λ e. cc

pub held_empty : (l : ℕ) (s : Side) (p : ℕ) → held [] l s p ≡ 0
held_empty l Side.buy p = refl
held_empty l Side.sell p = refl

module _ (levels : Dict Sides) (tidy : IsTidy levels) (locate : ℕ) (side : Side) (price : ℕ) where
  -- More shares at a price.
  abbrev pub raised : ℕ → Dict Sides
  raised n =
      written levels locate side
        (insert price (held levels locate side price + n) (side_levels levels locate side))

  -- Fewer shares at a price.
  abbrev pub lowered : ℕ → Dict Sides
  lowered n = written levels locate side (
      if leb (held levels locate side price) n
      then erase price (side_levels levels locate side)
      else insert price (held levels locate side price - n) (side_levels levels locate side))

  raised_self : (n : ℕ) → held (raised n) locate side price ≡ held levels locate side price + n
  raised_self n =
      ap (λ d. or_else (lookup price d) 0) (written_self levels locate side _)
      ∙ ground (
        arith,
        lookup-insert price price (held levels locate side price + n)
            (side_levels levels locate side),
      )

  lowered_self : (n : ℕ) → held (lowered n) locate side price ≡ held levels locate side price - n
  lowered_self n =
      ap (λ d. or_else (lookup price d) 0) (written_self levels locate side _)
      ∙ ground (
        arith,
        lookup-erase price price (side_levels levels locate side),
        lookup-insert price price (held levels locate side price - n)
            (side_levels levels locate side),
      )

  pub held-raised :
      (n l : ℕ) (s : Side) (p : ℕ)
      → held (raised n) l s p ≡ held levels l s p + (if here locate side price l s p then n else 0)
  held-raised n l s p = elim (Bool-cases (here locate side price l s p)) [
    | inl at ↦
        let (el, es, ep) = here-eq locate side price l s p at in
        rw at
          (subst₃ (λ a b c. held (raised n) a b c ≡ held levels a b c + n) el es ep (raised_self n))
    | inr away ↦ rw away (
        ap (λ o. or_else o 0)
          (written_away levels locate side price _ l s p away (λ ne. ground (
            arith,
            lookup-insert p price (held levels locate side price + n)
                (side_levels levels locate side),
          )))
        ∙ omega arith)
  ]

  pub held-lowered :
      (n l : ℕ) (s : Side) (p : ℕ)
      → held (lowered n) l s p ≡ held levels l s p - (if here locate side price l s p then n else 0)
  held-lowered n l s p = elim (Bool-cases (here locate side price l s p)) [
    | inl at ↦
        let (el, es, ep) = here-eq locate side price l s p at in
        rw at (
          subst₃ (λ a b c. held (lowered n) a b c ≡ held levels a b c - n) el es ep
            (lowered_self n))
    | inr away ↦ rw away (
        ap (λ o. or_else o 0)
          (written_away levels locate side price _ l s p away (λ ne. ground (
            arith,
            lookup-erase p price (side_levels levels locate side),
            lookup-insert p price (held levels locate side price - n)
                (side_levels levels locate side),
          )))
        ∙ omega arith)
  ]

  pub raised-IsTidy : (n : ℕ) → 0 < n → IsTidy (raised n)
  raised-IsTidy n h = record {
    distinct = λ l s.
        written_keeps IsDistinct levels locate side _ l s
          (insert-IsDistinct price (held levels locate side price + n)
            (side_levels levels locate side) (tidy.distinct locate side))
          (tidy.distinct l s);
    held_some = λ l s p.
        written_keeps (λ d. lookup p d ≢ some 0) levels locate side _ l s
          (λ e. ground (
            arith,
            tidy.held_some locate side p,
            lookup-insert p price (held levels locate side price + n)
                (side_levels levels locate side),
          ))
          (tidy.held_some l s p);
  }

  lowered-IsDistinct :
      (n : ℕ)
      → IsDistinct (
          if leb (held levels locate side price) n
          then erase price (side_levels levels locate side)
          else insert price (held levels locate side price - n) (side_levels levels locate side))
  lowered-IsDistinct n = elim (Bool-cases (leb (held levels locate side price) n)) [
    | inl all ↦
        rw all (erase-IsDistinct price (side_levels levels locate side) (tidy.distinct locate side))
    | inr some_left ↦ rw some_left (
        insert-IsDistinct price (held levels locate side price - n) (side_levels levels locate side)
          (tidy.distinct locate side))
  ]

  pub lowered-IsTidy : (n : ℕ) → IsTidy (lowered n)
  lowered-IsTidy n = record {
    distinct = λ l s.
        written_keeps IsDistinct levels locate side _ l s (lowered-IsDistinct n)
          (tidy.distinct l s);
    held_some = λ l s p.
        written_keeps (λ d. lookup p d ≢ some 0) levels locate side _ l s
          (λ e. ground (
            arith,
            tidy.held_some locate side p,
            lookup-erase p price (side_levels levels locate side),
            lookup-insert p price (held levels locate side price - n)
                (side_levels levels locate side),
          ))
          (tidy.held_some l s p);
  }
