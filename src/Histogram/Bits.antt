-- ===== src/Histogram/Bits.antt =====
-- `bit_length` is the number of binary digits.
use native.Mathlib.Omega.{pow_step}
use fpga_algotrading.Prelude.{
  ℕ, zero, suc, ◌-◌, ◌/◌, ◌^◌, ◌≤◌, ◌<◌, ◌≡◌, refl, inl, inr, ◌==◌, arith, Bool-cases,
}
use fpga_algotrading.Histogram.{bit_length_on, bit_length}

-- `b` binary digits are just enough for `n`.
pub record Digits (b n : ℕ) : Type 0 where
  pub enough : n < 2 ^ b
  pub needed : 0 < n → 2 ^ (b - 1) ≤ n
  pub no_digit : n ≡ 0 → b ≡ 0

suc-Digits : (b n : ℕ) → Digits b (n / 2) → 0 < n → Digits (suc b) n
suc-Digits zero n d h = record {
  enough = omega (arith, d.enough);
  needed = λ _. omega arith;
  no_digit = λ e. absurd (omega arith);
}
suc-Digits (suc b) n d h = record {
  enough = omega (arith, d.enough, pow_step 2 (suc b));
  needed = λ _. (let e : suc (suc b) - 1 ≡ suc b = omega arith in rw e needed_more);
  no_digit = λ e. absurd (omega arith);
}
  where
    left : 0 < n / 2
    left = elim (Bool-cases (n / 2 == 0)) [
      | inl z ↦ absurd (omega (arith, d.no_digit (ground arith)))
      | inr p ↦ ground arith
    ]

    needed_more : 2 ^ suc b ≤ n
    needed_more =
        let e : suc b - 1 ≡ b = omega arith in
        let half : 2 ^ b ≤ n / 2 = rw e at (d.needed left) in omega (arith, half, pow_step 2 b)

bit_length_on-Digits : (rounds n : ℕ) → n ≤ rounds → Digits (bit_length_on rounds n) n
unfolding bit_length_on
bit_length_on-Digits zero n h = omega arith
bit_length_on-Digits (suc rounds) n h = elim (Bool-cases (n == 0)) [
  | inl none_left ↦
      rw none_left (record {
        enough = ground arith;
        needed = λ p. absurd (ground arith);
        no_digit = λ p. refl;
      })
  | inr some_left ↦
      rw some_left
        (suc-Digits _ n (bit_length_on-Digits rounds (n / 2) (omega arith)) (ground arith))
]

pub bit_length-Digits : (n : ℕ) → Digits (bit_length n) n
unfolding bit_length
bit_length-Digits n = bit_length_on-Digits n n (omega arith)
