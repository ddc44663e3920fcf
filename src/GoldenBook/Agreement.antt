-- ===== src/GoldenBook/Agreement.antt =====
-- The levels of the reference book are the sums of its orders.
use mathlib.Core.Path.{subst, subst₂}
use fpga_algotrading.Prelude.{
  ℕ, ◌-◌, ◌≤◌, ◌<◌, ◌≡◌, ◌≢◌, refl, inl, inr, Bool-cases, Option-cases, Bool, Option, none, some,
  [], ◌∷◌, ◌==◌, arith, min,
}
use fpga_algotrading.Dict.{
  Dict, lookup, insert, erase, sum_of, drop_where, IsDistinct, lookup-insert_self, erase-insert,
  insert-IsDistinct, erase-IsDistinct, sum-insert_new, sum-insert_old, sum-erase,
}
use fpga_algotrading.Contract.{Side}
use fpga_algotrading.Book.Frame.{here}
use fpga_algotrading.GoldenBook.State.{
  Order, Sides, GoldenBook, add, level_sub, remove_live, remove, reduce_live, reduce, execute,
}
use fpga_algotrading.GoldenBook.Laws.{
  held, share, IsTidy, lowered, held-raised, held-lowered, raised-IsTidy, lowered-IsTidy,
}

-- Every order holds shares.
abbrev pub AllLive : Dict Order → Type 0
AllLive [] = Unit
AllLive (e ∷ d) = (0 < e.1.shares) × AllLive d

insert-AllLive :
    (k : ℕ) (o : Order) (d : Dict Order) → 0 < o.shares → AllLive d → AllLive (insert k o d)
insert-AllLive k o [] h all = (h, tt)
insert-AllLive k o (e ∷ d) h all = ground (arith, insert-AllLive k o d h all.1)

erase-AllLive : (k : ℕ) (d : Dict Order) → AllLive d → AllLive (erase k d)
erase-AllLive k [] all = tt
erase-AllLive k (e ∷ d) all = ground (arith, erase-AllLive k d all.1)

pub drop_where-AllLive : (p : Order → Bool) (d : Dict Order) → AllLive d → AllLive (drop_where p d)
drop_where-AllLive p [] all = tt
drop_where-AllLive p (e ∷ d) all = ground (arith, drop_where-AllLive p d all.1)

pub AllLive-lookup :
    (k : ℕ) (o : Order) (d : Dict Order) → AllLive d → lookup k d ≡ some o → 0 < o.shares
AllLive-lookup k o [] all h = cc
AllLive-lookup k o (e ∷ d) all h = ground (arith, AllLive-lookup k o d all.1)

-- The two structures of the book say the same.
pub record IsSound (g : GoldenBook) : Type 0 where
  pub distinct : IsDistinct g.orders
  pub live : AllLive g.orders
  pub tidy : IsTidy g.levels
  pub agrees : (l : ℕ) (s : Side) (p : ℕ) → held g.levels l s p ≡ sum_of (share l s p) g.orders

-- What only writes other fields keeps the agreement.
pub alike :
    (g g' : GoldenBook) → g.orders ≡ g'.orders → g.levels ≡ g'.levels → IsSound g → IsSound g'
alike g g' orders levels h = record {
  distinct = subst IsDistinct orders h.distinct;
  live = subst AllLive orders h.live;
  tidy = subst IsTidy levels h.tidy;
  agrees = λ l s p.
      subst₂ (λ ls os. held ls l s p ≡ sum_of (share l s p) os) levels orders (h.agrees l s p);
}

pub add-IsSound :
    (g : GoldenBook) (o : Order)
    → (o.shares ≢ 0 → lookup o.ref g.orders ≡ none)
    → IsSound g
    → IsSound (add g o)
unfolding add
add-IsSound g o fresh h = elim (Bool-cases (o.shares == 0)) [
  | inl empty ↦ rw empty h
  | inr full ↦
      let absent : lookup o.ref g.orders ≡ none = fresh (ground arith) in
      rw full (record {
        distinct = insert-IsDistinct o.ref o g.orders h.distinct;
        live = insert-AllLive o.ref o g.orders (ground arith) h.live;
        tidy = raised-IsTidy g.levels h.tidy o.locate o.side o.price o.shares (ground arith);
        agrees = λ l s p. omega (
          arith,
          held-raised g.levels h.tidy o.locate o.side o.price o.shares l s p,
          sum-insert_new (share l s p) o.ref o g.orders absent,
          h.agrees l s p,
        );
      })
]

remove_live-IsSound :
    (g : GoldenBook) (ref : ℕ) (o : Order)
    → lookup ref g.orders ≡ some o
    → IsSound g
    → IsSound (remove_live g ref o)
unfolding remove_live level_sub
remove_live-IsSound g ref o found h = record {
  distinct = erase-IsDistinct ref g.orders h.distinct;
  live = erase-AllLive ref g.orders h.live;
  tidy = lowered-IsTidy g.levels h.tidy o.locate o.side o.price o.shares;
  agrees = λ l s p. omega (
    arith,
    held-lowered g.levels h.tidy o.locate o.side o.price o.shares l s p,
    sum-erase (share l s p) ref o g.orders h.distinct found,
    h.agrees l s p,
  );
}

pub remove-IsSound : (g : GoldenBook) (ref : ℕ) → IsSound g → IsSound (remove g ref)
unfolding remove
remove-IsSound g ref h = elim (Option-cases (lookup ref g.orders)) [
  | inl absent ↦ rw (absent, remove) (alike g _ refl refl h)
  | inr (o, found) ↦ rw (found, remove) (remove_live-IsSound g ref o found h)
]

module _ (g : GoldenBook) (ref taken : ℕ) (o : Order) (found : lookup ref g.orders ≡ some o)
    (fits : taken ≤ o.shares) (h : IsSound g) where
  abbrev left : Order
  left = record o { shares = o.shares - taken }

  abbrev after_levels : Dict Sides
  after_levels = lowered g.levels h.tidy o.locate o.side o.price taken

  held-after :
      (l : ℕ) (s : Side) (p : ℕ)
      → held after_levels l s p ≡ sum_of (share l s p) (insert ref left g.orders)
  held-after l s p =
      let lower = held-lowered g.levels h.tidy o.locate o.side o.price taken l s p in
      let write = sum-insert_old (share l s p) ref left o g.orders found in
      let before = h.agrees l s p in
      elim (Bool-cases (here o.locate o.side o.price l s p)) [
        | inl there ↦ ground arith
        | inr away ↦ ground arith
      ]

  held-erased :
      o.shares - taken ≡ 0
      → (l : ℕ) (s : Side) (p : ℕ)
      → held after_levels l s p ≡ sum_of (share l s p) (erase ref (insert ref left g.orders))
  held-erased gone l s p = ground (
    arith,
    held-after l s p,
    sum-erase (share l s p) ref left (insert ref left g.orders)
        (insert-IsDistinct ref left g.orders h.distinct) (lookup-insert_self ref left g.orders),
  )

reduced_IsSound :
    (g : GoldenBook) (ref shares : ℕ) (o : Order)
    → lookup ref g.orders ≡ some o
    → IsSound g
    → IsSound (reduce_live g o.locate ref shares o)
unfolding reduce_live level_sub
reduced_IsSound g ref shares o found h =
    let taken = min shares o.shares in
    let fits : taken ≤ o.shares = omega arith in
    elim (Bool-cases (o.shares - taken == 0)) [
      | inl gone ↦ rw gone (record {
        distinct = erase-IsDistinct ref _ (insert-IsDistinct ref _ g.orders h.distinct);
        live = rw erase-insert (erase-AllLive ref g.orders h.live);
        tidy = lowered-IsTidy g.levels h.tidy o.locate o.side o.price taken;
        agrees = held-erased g ref taken o found fits h (ground arith);
      })
      | inr kept ↦ rw kept (record {
        distinct = insert-IsDistinct ref _ g.orders h.distinct;
        live = insert-AllLive ref _ g.orders (ground arith) h.live;
        tidy = lowered-IsTidy g.levels h.tidy o.locate o.side o.price taken;
        agrees = held-after g ref taken o found fits h;
      })
    ]

pub reduce-IsSound :
    (g : GoldenBook) (locate ref shares : ℕ)
    → ((o : Order) → lookup ref g.orders ≡ some o → o.locate ≡ locate)
    → IsSound g
    → IsSound (reduce g locate ref shares)
unfolding reduce
reduce-IsSound g locate ref shares own h = elim (Option-cases (lookup ref g.orders)) [
  | inl absent ↦ rw (absent, reduce) (alike g _ refl refl h)
  | inr (o, found) ↦
      rw (found, reduce)
        (subst (λ l. IsSound (reduce_live g l ref shares o)) (own o found)
          (reduced_IsSound g ref shares o found h))
]

pub execute-IsSound :
    (g : GoldenBook) (locate ref shares : ℕ) (printable : Bool) (exec_px : Option ℕ)
    → ((o : Order) → lookup ref g.orders ≡ some o → o.locate ≡ locate)
    → IsSound g
    → IsSound (execute g locate ref shares printable exec_px)
unfolding execute
execute-IsSound g locate ref shares printable exec_px own h =
    elim (Option-cases (lookup ref g.orders)) [
      | inl absent ↦ rw (absent, execute) (alike g _ refl refl h)
      | inr (o, found) ↦
          rw (found, execute)
            (elim (Bool-cases printable) [
              | inl shown ↦
                  rw shown (reduce-IsSound _ locate ref shares own (alike g _ refl refl h))
              | inr hidden ↦ rw hidden (reduce-IsSound g locate ref shares own h)
            ])
    ]
