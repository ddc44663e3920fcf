-- ===== src/GoldenBook/Messages.antt =====
-- The agreement over `apply`, `clear` and `set_stale`, and over every run of them.
use mathlib.Core.Path.{subst}
use fpga_algotrading.Prelude.{
  ℕ, ◌≡◌, ◌≢◌, ◌⊎◌, refl, sym, ap, ◌∙◌, inl, inr, Bool-cases, Option-cases, Bool, true, false,
  Option, none, some, List, [], ltb, ◌==◌, ◌&&◌, ◌||◌, not, arith, if◌then◌else◌, or_else,
  get_elem?, length, ◌>>=◌,
}
use fpga_algotrading.Dict.{
  Dict, lookup, erase, sum_of, drop_where, IsDistinct, drop_where-IsDistinct, sum-drop_light,
  sum-drop_heavy, lookup-erase,
}
use fpga_algotrading.Contract.{Side}
use fpga_algotrading.Feed.Bytes.{from_bytes}
use fpga_algotrading.GoldenBook.State.{
  BookConfig, Order, Sides, GoldenBook, new_book, remove, remove_live, level_sub, set_stale, clear,
}
use fpga_algotrading.GoldenBook.Apply.{
  slice, unpack, applied, is_active, apply_add, apply_executed, apply_executed_price, apply_cancel,
  apply_delete, replace, apply_replace, apply_trade, apply_typed, apply,
}
use fpga_algotrading.GoldenBook.Laws.{side_levels, held, share, empty-IsTidy, held_empty}
use fpga_algotrading.GoldenBook.Agreement.{
  IsSound, alike, add-IsSound, remove-IsSound, reduce-IsSound, execute-IsSound, drop_where-AllLive,
}

abbrev pub locate_of : List ℕ → ℕ
locate_of msg = from_bytes (slice msg 1 3)

abbrev pub type_of : List ℕ → ℕ
type_of msg = or_else (get_elem? msg 0) 0

abbrev pub IsOneOf : ℕ → ℕ → ℕ → Type 0
IsOneOf t a b = (t ≡ a) ⊎ (t ≡ b)

-- What the feed promises of a message: an order that is added is of a new reference, and a message
-- that executes or cancels shares carries the locate of the order that it names.
pub record IsRegular (g : GoldenBook) (msg : List ℕ) : Type 0 where
  pub new_add :
      IsOneOf (type_of msg) b'A' b'F'
      → (ref : ℕ) → unpack msg 11 19 ≡ some ref
      → lookup ref g.orders ≡ none
  pub new_replace :
      type_of msg ≡ b'U'
      → (orig ref : ℕ) → unpack msg 11 19 ≡ some orig
      → unpack msg 19 27 ≡ some ref
      → lookup ref (erase orig g.orders) ≡ none
  pub own_execute :
      IsOneOf (type_of msg) b'E' b'C'
      → (ref : ℕ) → unpack msg 11 19 ≡ some ref
      → (o : Order) → lookup ref g.orders ≡ some o
      → o.locate ≡ locate_of msg
  pub own_cancel :
      type_of msg ≡ b'X'
      → (ref : ℕ) → unpack msg 11 19 ≡ some ref
      → (o : Order) → lookup ref g.orders ≡ some o
      → o.locate ≡ locate_of msg

-- What holds of the value of a chain holds of the result.
after_unpack {ℓ} :
    {B : Type ℓ} (o : Option ℕ) (f : ℕ → Option B) (P : B → Type 0)
    → ((v : ℕ) → o ≡ some v → (b : B) → f v ≡ some b → P b)
    → (b : B) → (o >>= f) ≡ some b
    → P b
after_unpack none f P step b h = cc
after_unpack (some v) f P step b h = step v refl b h

orders-remove :
    (g : GoldenBook) (ref : ℕ) (o : Order)
    → lookup ref g.orders ≡ some o
    → (remove g ref).orders ≡ erase ref g.orders
unfolding remove remove_live level_sub
orders-remove g ref o found = rw (found, remove) refl

pub replace-IsSound :
    (g : GoldenBook) (orig ref shares price : ℕ)
    → lookup ref (erase orig g.orders) ≡ none
    → IsSound g
    → IsSound (replace g orig ref shares price)
unfolding replace
replace-IsSound g orig ref shares price new h = elim (Option-cases (lookup orig g.orders)) [
  | inl absent ↦ rw (absent, replace) (alike g _ refl refl h)
  | inr (o, found) ↦
      rw (found, replace)
        (add-IsSound _ _ (λ _. ap (lookup ref) (orders-remove g orig o found) ∙ new)
          (remove-IsSound g orig h))
]

-- A book that equals a result is as sound as it.
returned :
    (g g' : GoldenBook) → ◌≡◌ {A = Option GoldenBook} (some g) (some g') → IsSound g → IsSound g'
returned g g' e h = let e' : g ≡ g' = cc in subst IsSound e' h

returned_applied :
    (g g' : GoldenBook)
    → ◌≡◌ {A = Option GoldenBook} (some (applied g)) (some g')
    → IsSound g
    → IsSound g'
returned_applied g g' e h = returned (applied g) g' e (alike g (applied g) refl refl h)

module _ (g : GoldenBook) (h : IsSound g) (locate : ℕ) (msg : List ℕ) where
  apply_add-IsSound :
      ((ref : ℕ) → unpack msg 11 19 ≡ some ref → lookup ref g.orders ≡ none)
      → (g' : GoldenBook) → apply_add g locate msg ≡ some g'
      → IsSound g'
  unfolding apply_add
  apply_add-IsSound new = after_unpack (unpack msg 11 19) _ IsSound λ ref got.
      after_unpack (unpack msg 20 24) _ IsSound λ shares _.
        after_unpack (unpack msg 32 36) _ IsSound
          λ price _ g' e. returned_applied _ g' e (add-IsSound g _ (λ _. new ref got) h)

  module _
      (own : (ref : ℕ)
        → unpack msg 11 19 ≡ some ref
        → (o : Order) → lookup ref g.orders ≡ some o
        → o.locate ≡ locate) where
    apply_executed-IsSound : (g' : GoldenBook) → apply_executed g locate msg ≡ some g' → IsSound g'
    unfolding apply_executed
    apply_executed-IsSound = after_unpack (unpack msg 11 19) _ IsSound λ ref got.
        after_unpack (unpack msg 19 23) _ IsSound λ shares _ g' e.
          returned_applied _ g' e (execute-IsSound g locate ref shares true none (own ref got) h)

    apply_executed_price-IsSound :
        (g' : GoldenBook) → apply_executed_price g locate msg ≡ some g' → IsSound g'
    unfolding apply_executed_price
    apply_executed_price-IsSound = after_unpack (unpack msg 11 19) _ IsSound λ ref got.
        after_unpack (unpack msg 19 23) _ IsSound λ shares _.
          after_unpack (unpack msg 32 36) _ IsSound λ px _ g' e.
            returned_applied _ g' e
              (execute-IsSound g locate ref shares _ (some px) (own ref got) h)

    apply_cancel-IsSound : (g' : GoldenBook) → apply_cancel g locate msg ≡ some g' → IsSound g'
    unfolding apply_cancel
    apply_cancel-IsSound = after_unpack (unpack msg 11 19) _ IsSound λ ref got.
        after_unpack (unpack msg 19 23) _ IsSound λ shares _ g' e.
          returned_applied _ g' e (reduce-IsSound g locate ref shares (own ref got) h)

  apply_delete-IsSound : (g' : GoldenBook) → apply_delete g msg ≡ some g' → IsSound g'
  unfolding apply_delete
  apply_delete-IsSound =
      after_unpack (unpack msg 11 19) _ IsSound
        λ ref _ g' e. returned_applied _ g' e (remove-IsSound g ref h)

  apply_replace-IsSound :
      ((orig ref : ℕ)
        → unpack msg 11 19 ≡ some orig
        → unpack msg 19 27 ≡ some ref
        → lookup ref (erase orig g.orders) ≡ none)
      → (g' : GoldenBook) → apply_replace g msg ≡ some g'
      → IsSound g'
  unfolding apply_replace
  apply_replace-IsSound new = after_unpack (unpack msg 11 19) _ IsSound λ orig got.
      after_unpack (unpack msg 19 27) _ IsSound λ ref got'.
        after_unpack (unpack msg 27 31) _ IsSound λ shares _.
          after_unpack (unpack msg 31 35) _ IsSound λ price _ g' e.
            returned_applied _ g' e
              (replace-IsSound g orig ref shares price (new orig ref got got') h)

  apply_trade-IsSound : (g' : GoldenBook) → apply_trade g locate msg ≡ some g' → IsSound g'
  unfolding apply_trade
  apply_trade-IsSound =
      after_unpack (unpack msg 36 40) _ IsSound
        λ px _ g' e. returned_applied _ g' e (alike g _ refl refl h)

-- The result, if there is one, is sound.
abbrev GivesSound : Option GoldenBook → Type 0
GivesSound o = (g' : GoldenBook) → o ≡ some g' → IsSound g'

either :
    (b : Bool) (x y : Option GoldenBook)
    → (b ≡ true → GivesSound x)
    → (b ≡ false → GivesSound y)
    → GivesSound (if b then x else y)
either true x y hx hy = hx refl
either false x y hx hy = hy refl

one_of : (t a b : ℕ) → (t == a || t == b) ≡ true → IsOneOf t a b
one_of t a b h = elim (Bool-cases (t == a)) [
  | inl e ↦ inl (ground arith)
  | inr ne ↦ inr (ground arith)
]

apply_typed-IsSound :
    (g : GoldenBook) (msg : List ℕ)
    → IsRegular g msg
    → IsSound g
    → GivesSound (apply_typed g (type_of msg) (locate_of msg) msg)
unfolding apply_typed
apply_typed-IsSound g msg r h =
    let t = type_of msg in
    let locate = locate_of msg in
    either (t == b'S') _ _ (λ _ g' e. returned_applied _ g' e (alike g _ refl refl h))
      λ _.
        either (t == b'H') _ _ (λ _ g' e. returned_applied _ g' e (alike g _ refl refl h))
          λ _.
            either (t == b'Y') _ _ (λ _ g' e. returned_applied _ g' e (alike g _ refl refl h))
              λ _.
                either (t == b'A' || t == b'F') _ _
                  (λ is. apply_add-IsSound g h locate msg (r.new_add (one_of t b'A' b'F' is)))
                  λ _.
                    either (t == b'E') _ _
                      (λ is.
                        apply_executed-IsSound g h locate msg (r.own_execute (inl (ground arith))))
                      λ _.
                        either (t == b'C') _ _
                          (λ is.
                            apply_executed_price-IsSound g h locate msg
                              (r.own_execute (inr (ground arith))))
                          λ _.
                            either (t == b'X') _ _
                              (λ is.
                                apply_cancel-IsSound g h locate msg (r.own_cancel (ground arith)))
                              λ _.
                                either (t == b'D') _ _ (λ _. apply_delete-IsSound g h locate msg)
                                  λ _.
                                    either (t == b'U') _ _
                                      (λ is.
                                        apply_replace-IsSound g h locate msg
                                          (r.new_replace (ground arith)))
                                      λ _.
                                        either (t == b'P') _ _
                                          (λ _. apply_trade-IsSound g h locate msg)
                                          λ _.
                                            either (t == b'Q' || t == b'B') _ _
                                              (λ _ g' e. returned_applied g g' e h)
                                              λ _ g' e. returned _ g' e (alike g _ refl refl h)

-- A regular message of any bytes that the book takes keeps every price level the sum of the shares
-- of the live orders that rest there.
apply-IsSound :
    (g : GoldenBook) (msg : List ℕ) → IsRegular g msg → IsSound g → GivesSound (apply g msg)
unfolding apply
apply-IsSound g msg r h =
    either (ltb (length msg) 11) _ _ (λ _ g' e. returned _ g' e (alike g _ refl refl h))
      λ _.
        either (not (is_active g (locate_of msg)) && not (type_of msg == b'S')) _ _
          (λ _ g' e. returned _ g' e (alike g _ refl refl h)) λ _. apply_typed-IsSound g msg r h

side_levels-erase :
    (levels : Dict Sides) (locate l : ℕ) (s : Side)
    → side_levels (erase locate levels) l s ≡ (if l == locate then [] else side_levels levels l s)
side_levels-erase levels locate l Side.buy = ground (arith, lookup-erase l locate levels)
side_levels-erase levels locate l Side.sell = ground (arith, lookup-erase l locate levels)

-- What holds of no levels and of the levels before holds once a locate is erased.
erased_keeps :
    (P : Dict ℕ → Type 0) (levels : Dict Sides) (locate l : ℕ) (s : Side)
    → P []
    → P (side_levels levels l s)
    → P (side_levels (erase locate levels) l s)
erased_keeps P levels locate l s empty old =
    subst P (sym (side_levels-erase levels locate l s))
      (elim (Bool-cases (l == locate)) [ inl at ↦ rw at empty | inr away ↦ rw away old ])

held-cleared :
    (g : GoldenBook) (locate l : ℕ) (s : Side) (p : ℕ)
    → IsSound g
    → held (erase locate g.levels) l s p
      ≡ sum_of (share l s p) (drop_where (λ o. o.locate == locate) g.orders)
held-cleared g locate l s p h = elim (Bool-cases (l == locate)) [
  | inl at ↦
      ap (λ d. or_else (lookup p d) 0) (erased at)
      ∙ sym (
          sum-drop_heavy (share l s p) (λ o. o.locate == locate) g.orders (λ o other. ground arith))
  | inr away ↦
      ap (λ d. or_else (lookup p d) 0) (kept away)
      ∙ h.agrees l s p
      ∙ sym (
          sum-drop_light (share l s p) (λ o. o.locate == locate) g.orders (λ o there. ground arith))
]
  where
    erased : (l == locate) ≡ true → side_levels (erase locate g.levels) l s ≡ []
    erased at = side_levels-erase g.levels locate l s ∙ rw at refl

    kept :
        (l == locate) ≡ false → side_levels (erase locate g.levels) l s ≡ side_levels g.levels l s
    kept away = side_levels-erase g.levels locate l s ∙ rw away refl

pub clear-IsSound : (g : GoldenBook) (locate : ℕ) → IsSound g → IsSound (clear g (some locate))
unfolding clear
clear-IsSound g locate h = record {
  distinct = drop_where-IsDistinct _ g.orders h.distinct;
  live = drop_where-AllLive _ g.orders h.live;
  tidy = record {
    distinct = λ l s. erased_keeps IsDistinct g.levels locate l s tt (h.tidy.distinct l s);
    held_some = λ l s p.
        erased_keeps (λ d. lookup p d ≢ some 0) g.levels locate l s (λ e. cc)
          (h.tidy.held_some l s p);
  };
  agrees = λ l s p. held-cleared g locate l s p h;
}

-- The states that messages, clears and staleness marks reach from a new book, the messages regular.
pub data Reach (cfg : BookConfig) : GoldenBook → Type 0 where
  start : Reach cfg (new_book cfg)
  message :
      {g g' : GoldenBook}
      → Reach cfg g
      → (msg : List ℕ) → IsRegular g msg
      → apply g msg ≡ some g'
      → Reach cfg g'
  cleared : {g : GoldenBook} → Reach cfg g → (locate : Option ℕ) → Reach cfg (clear g locate)
  staled :
      {g : GoldenBook}
      → Reach cfg g
      → (locate : Option ℕ) (value : Bool) → Reach cfg (set_stale g locate value)

empty-IsSound : (g : GoldenBook) → g.orders ≡ [] → g.levels ≡ [] → IsSound g
empty-IsSound g orders levels =
    alike (new_book g.cfg) g (sym orders) (sym levels)
      (record { distinct = tt; live = tt; tidy = empty-IsTidy; agrees = held_empty })

pub Reach-IsSound : {cfg : BookConfig} {g : GoldenBook} → Reach cfg g → IsSound g
unfolding clear set_stale
Reach-IsSound {cfg} start = empty-IsSound (new_book cfg) refl refl
Reach-IsSound (message {g} {g'} r msg regular e) =
    apply-IsSound g msg regular (Reach-IsSound r) g' e
Reach-IsSound (cleared {g} r none) = empty-IsSound _ refl refl
Reach-IsSound (cleared {g} r (some locate)) = clear-IsSound g locate (Reach-IsSound r)
Reach-IsSound (staled {g} r none value) = alike g _ refl refl (Reach-IsSound r)
Reach-IsSound (staled {g} r (some locate) value) = alike g _ refl refl (Reach-IsSound r)
