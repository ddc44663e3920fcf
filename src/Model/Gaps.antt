-- ===== src/Model/Gaps.antt =====
-- Gaps, abandoned packets and duplicates over a whole packet.
use fpga_algotrading.Prelude.{
  ℕ, ◌≡◌, refl, ap, ◌∙◌, inl, inr, Bool, true, false, Option, none, some, List, [], ◌∷◌, ◌==◌,
  arith, Bool-cases, Option-cases, length, ◌||◌,
}
use mathlib.Core.Path.{subst}
use fpga_algotrading.Dict.{Dict, lookup}
use fpga_algotrading.Book.State.{OrderBookModel, Reason, mark_stale}
use fpga_algotrading.Itch.Decode.{is_error}
use fpga_algotrading.Model.Filter.{sym_for, subscribed_locates, keys_of, sorted, insert_sorted}
use fpga_algotrading.Model.State.{GoldenModel}
use fpga_algotrading.Model.Step.{step_message}
use fpga_algotrading.Model.Packet.{stale_locates, stale_everything, BlockRun, step_blocks}
use fpga_algotrading.Model.Recovery.{
  is_stale, Sticky, mark_stale_self, mark_stale-Sticky, Keeps, step_message-Keeps,
}

abbrev has : ℕ → List ℕ → Bool
has k [] = false
has k (j ∷ js) = k == j || has k js

has-keys_of : (k v : ℕ) (d : Dict ℕ) → lookup k d ≡ some v → has k (keys_of d) ≡ true
has-keys_of k v [] h = cc
has-keys_of k v (e ∷ d) h = ground (arith, has-keys_of k v d)

has-insert_sorted : (k j : ℕ) (ks : List ℕ) → has k (insert_sorted j ks) ≡ (k == j || has k ks)
has-insert_sorted k j [] = refl
has-insert_sorted k j (i ∷ ks) = ground (arith, has-insert_sorted k j ks)

has-sorted : (k : ℕ) (ks : List ℕ) → has k (sorted ks) ≡ has k ks
has-sorted k [] = refl
has-sorted k (j ∷ js) = has-insert_sorted k j (sorted js) ∙ ap (λ b. k == j || b) (has-sorted k js)

module _ (filter : Dict ℕ) (reason : Reason) where
  mark_one-Sticky :
      (o : Option ℕ) (b : OrderBookModel)
      → Sticky b (elim o [ none ↦ b | some place ↦ mark_stale b place reason ])
  mark_one-Sticky none b = λ s h. h
  mark_one-Sticky (some place) b = mark_stale-Sticky b place reason

  stale_locates-Sticky :
      (locates : List ℕ) (b : OrderBookModel) → Sticky b (stale_locates filter locates reason b)
  unfolding stale_locates
  stale_locates-Sticky [] b s h = h
  stale_locates-Sticky (locate ∷ locates) b s h =
      stale_locates-Sticky locates _ s (mark_one-Sticky (sym_for filter locate) b s h)

  marked :
      (o : Option ℕ) (b : OrderBookModel) (place : ℕ)
      → o ≡ some place
      → is_stale (elim o [ none ↦ b | some place ↦ mark_stale b place reason ]) place ≡ true
  marked none b place h = absurd (ground arith)
  marked (some p) b place h =
      let is : p ≡ place = ground arith in
      subst (λ q. is_stale (mark_stale b p reason) q ≡ true) is (mark_stale_self b p reason)

  stale_locates_hits :
      (locates : List ℕ) (b : OrderBookModel) (locate place : ℕ)
      → has locate locates ≡ true
      → sym_for filter locate ≡ some place
      → is_stale (stale_locates filter locates reason b) place ≡ true
  unfolding stale_locates
  stale_locates_hits [] b locate place h known = cc
  stale_locates_hits (l ∷ ls) b locate place h known = elim (Bool-cases (locate == l)) [
    | inl same ↦
        let is : locate ≡ l = ground arith in
        stale_locates-Sticky ls _ place
          (marked (sym_for filter l) b place (subst (λ k. sym_for filter k ≡ some place) is known))
    | inr other ↦ stale_locates_hits ls _ locate place (ground arith) known
  ]

-- Every subscribed symbol is stale afterwards.
pub stale_everything_hits :
    (m : GoldenModel) (reason : Reason) (locate place : ℕ)
    → sym_for m.symbols locate ≡ some place
    → is_stale (stale_everything m reason).book place ≡ true
unfolding stale_everything
stale_everything_hits m reason locate place known =
    stale_locates_hits m.symbols reason (subscribed_locates m.symbols) m.book locate place
      (has-sorted locate (keys_of m.symbols) ∙ has-keys_of locate place m.symbols known) known

pub stale_everything-Keeps :
    (m : GoldenModel) (reason : Reason) → Keeps m (stale_everything m reason)
unfolding stale_everything
stale_everything-Keeps m reason = record {
  symbols = refl;
  expects = refl;
  sticky = stale_locates-Sticky m.symbols reason (subscribed_locates m.symbols) m.book;
}

pub trans : {m m' m'' : GoldenModel} → Keeps m m' → Keeps m' m'' → Keeps m m''
trans a b = record {
  symbols = b.symbols ∙ a.symbols;
  expects = b.expects ∙ a.expects;
  sticky = λ s h. b.sticky s (a.sticky s h);
}

pub step_blocks-Keeps :
    (blocks : List (List ℕ)) (m : GoldenModel) (rx_cycle : ℕ) (run : BlockRun)
    → step_blocks m blocks rx_cycle ≡ some run
    → Keeps m run.model
unfolding step_blocks
step_blocks-Keeps [] m rx_cycle run h =
    let is : m ≡ run.model = ground arith in
    subst (Keeps m) is (record { symbols = refl; expects = refl; sticky = λ s e. e })
step_blocks-Keeps (block ∷ blocks) m rx_cycle run h =
    elim (Option-cases (step_message m block rx_cycle (some (length block)))) [
      | inl fails ↦ absurd (ground arith)
      | inr ((m₁, r), steps) ↦
          let first = step_message-Keeps m m₁ block rx_cycle (some (length block)) r steps in
          elim (Bool-cases (is_error r.status)) [
            | inl stops ↦ let is : m₁ ≡ run.model = ground arith in subst (Keeps m) is first
            | inr goes ↦ elim (Option-cases (step_blocks m₁ blocks rx_cycle)) [
              | inl fails ↦ absurd (ground arith)
              | inr (rest, runs) ↦
                  let is : rest.model ≡ run.model = ground arith in
                  subst (Keeps m) is (trans first (step_blocks-Keeps blocks m₁ rx_cycle rest runs))
            ]
          ]
    ]
