-- ===== src/ItchGen/Carries.antt =====
-- Sums of 16-bit words with their carries folded in.
use fpga_algotrading.Prelude.{
  ℕ, zero, suc, ◌+◌, ◌-◌, ◌/◌, ◌%◌, ◌≤◌, ◌<◌, ◌≡◌, refl, ◌∙◌, List, [], ◌∷◌, ◌++◌, arith, length,
  leb, inl, inr, Bool-cases,
}
use fpga_algotrading.ItchGen.Framing.{word_sum, fold_carry}

-- The loop ends within 16 bits, and on a sum with the same remainder.
record IsFolded (total r : ℕ) : Type 0 where
  small : r < 65536
  same : r % 65535 ≡ total % 65535
  above_zero : 0 < total → 0 < r

fold_carry-IsFolded : (fuel total : ℕ) → total ≤ fuel → IsFolded total (fold_carry fuel total)
unfolding fold_carry
fold_carry-IsFolded zero total h = record {
  small = omega (arith, h);
  same = refl;
  above_zero = λ p. p;
}
fold_carry-IsFolded (suc fuel) total h = elim (Bool-cases (leb 65536 total)) [
  | inr done ↦
      rw (done, fold_carry) (record { small = ground arith; same = refl; above_zero = λ p. p })
  | inl more ↦
      let next = total % 65536 + total / 65536 in
      let below : 65536 ≤ total = ground arith in
      let r = fold_carry-IsFolded fuel next (omega (arith, h, below)) in
      let small = r.small in
      let same = r.same in
      let same' : next % 65535 ≡ total % 65535 = omega arith in
      rw (more, fold_carry)
        (record {
          small = small;
          same = same ∙ same';
          above_zero = λ p. r.above_zero (omega (arith, below));
        })
]

-- Whatever the other words are, the checksum makes the sum of all a multiple of 65535.
pub sum_to_zero :
    (rest : ℕ)
    → 0 < rest
    → let c = 65535 - fold_carry rest rest % 65536 in
      65535 - fold_carry (rest + c) (rest + c) % 65536 ≡ 0
sum_to_zero rest p =
    let r = fold_carry-IsFolded rest rest (omega arith) in
    let c = 65535 - fold_carry rest rest % 65536 in
    let s = fold_carry-IsFolded (rest + c) (rest + c) (omega arith) in
    let r₁ = r.small in
    let r₂ = r.same in
    let r₃ = r.above_zero p in
    let s₁ = s.small in
    let s₂ = s.same in
    let s₃ = s.above_zero (omega (arith, p)) in omega (arith, r₁, r₂, r₃, s₁, s₂, s₃)

-- The complement of the checksum does not, unless the checksum is zero.
pub sum_to_other :
    (rest : ℕ)
    → 0 < rest
    → let c = 65535 - fold_carry rest rest % 65536 in
      0 < c → 0 < 65535 - fold_carry (rest + (65535 - c)) (rest + (65535 - c)) % 65536
sum_to_other rest p q =
    let r = fold_carry-IsFolded rest rest (omega arith) in
    let c = 65535 - fold_carry rest rest % 65536 in
    let s = fold_carry-IsFolded (rest + (65535 - c)) (rest + (65535 - c)) (omega arith) in
    let r₁ = r.small in
    let r₂ = r.same in
    let r₃ = r.above_zero p in
    let s₁ = s.small in let s₂ = s.same in omega (arith, r₁, r₂, r₃, s₁, s₂, q)

-- A checksum of zero and its complement are one.
pub sum_to_same :
    (rest : ℕ)
    → 0 < rest
    → 65535 - fold_carry rest rest % 65536 ≡ 0
    → 65535 - fold_carry (rest + 65535) (rest + 65535) % 65536 ≡ 0
sum_to_same rest p q =
    let r = fold_carry-IsFolded rest rest (omega arith) in
    let s = fold_carry-IsFolded (rest + 65535) (rest + 65535) (omega arith) in
    let r₁ = r.small in
    let r₂ = r.same in
    let s₁ = s.small in
    let s₂ = s.same in
    let s₃ = s.above_zero (omega (arith, p)) in omega (arith, r₁, r₂, s₁, s₂, s₃, q)

pub word_sum-append :
    (xs ys : List ℕ) → length xs % 2 ≡ 0 → word_sum (xs ++ ys) ≡ word_sum xs + word_sum ys
unfolding word_sum
word_sum-append [] ys h = omega arith
word_sum-append (a ∷ []) ys h = absurd (omega (arith, h))
word_sum-append (a ∷ b ∷ xs) ys h = omega (arith, word_sum-append xs ys (omega (arith, h)))
