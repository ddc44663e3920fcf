-- ===== src/Histogram/Tally.antt =====
-- Samples counted by a test, and in a bank of buckets.
use fpga_algotrading.Prelude.{
  ℕ, zero, suc, ◌+◌, ◌≤◌, ◌<◌, ◌≡◌, refl, Bool, true, List, [], ◌∷◌, ltb, leb, ◌==◌, arith, length,
  if◌then◌else◌, inl, inr, Bool-cases,
}
use fpga_algotrading.Histogram.{total, first_reaching}

-- The number of samples that pass a test.
abbrev pub tally : (ℕ → Bool) → List ℕ → ℕ
tally p [] = 0
tally p (x ∷ xs) = (if p x then 1 else 0) + tally p xs

abbrev pub All : (ℕ → Type 0) → List ℕ → Type 0
All P [] = Unit
All P (x ∷ xs) = P x × All P xs

pub tally_mono :
    (p q : ℕ → Bool) (xs : List ℕ) → ((x : ℕ) → p x ≡ true → q x ≡ true) → tally p xs ≤ tally q xs
tally_mono p q [] h = omega arith
tally_mono p q (x ∷ xs) h = ground (arith, h x, tally_mono p q xs h)

pub tally_all : (p : ℕ → Bool) (xs : List ℕ) → ((x : ℕ) → p x ≡ true) → tally p xs ≡ length xs
tally_all p [] h = refl
tally_all p (x ∷ xs) h = ground (arith, h x, tally_all p xs h)

-- A sample that is not above `v` is there, and so is one that is not below `v`.
pub tally_low : (m v : ℕ) (xs : List ℕ) → All (λ x. m ≤ x) xs → 0 < tally (λ x. leb x v) xs → m ≤ v
tally_low m v [] all h = absurd (omega arith)
tally_low m v (x ∷ xs) all h = ground (arith, tally_low m v xs all.1)

pub tally_high :
    (m v : ℕ) (xs : List ℕ) → All (λ x. x ≤ m) xs → tally (λ x. ltb x v) xs < length xs → v ≤ m
tally_high m v [] all h = absurd (omega arith)
tally_high m v (x ∷ xs) all h = ground (arith, tally_high m v xs all.1)

module _ (b : ℕ → ℕ) (xs : List ℕ) where
  abbrev pub below : ℕ → ℕ
  below i = tally (λ x. ltb (b x) i) xs

  -- The counts of `n` buckets from bucket `i` on.
  abbrev pub bank : ℕ → ℕ → List ℕ
  bank i zero = []
  bank i (suc n) = tally (λ x. b x == i) xs ∷ bank (i + 1) n

below-suc :
    (b : ℕ → ℕ) (xs : List ℕ) (i : ℕ) → below b xs (i + 1) ≡ below b xs i + tally (λ x. b x == i) xs
below-suc b [] i = refl
below-suc b (x ∷ xs) i = ground (arith, below-suc b xs i)

below-zero : (b : ℕ → ℕ) (xs : List ℕ) → below b xs 0 ≡ 0
below-zero b [] = refl
below-zero b (x ∷ xs) = ground (arith, below-zero b xs)

total_from :
    (b : ℕ → ℕ) (xs : List ℕ) (i n : ℕ) → below b xs i + total (bank b xs i n) ≡ below b xs (i + n)
total_from b xs i zero = let e : i + 0 ≡ i = omega arith in rw e (omega arith)
total_from b xs i (suc n) =
    let e : i + suc n ≡ i + 1 + n = omega arith in
    rw e (omega (arith, below-suc b xs i, total_from b xs (i + 1) n))

pub total-bank : (b : ℕ → ℕ) (xs : List ℕ) (n : ℕ) → total (bank b xs 0 n) ≡ below b xs n
total-bank b xs n =
    let e : 0 + n ≡ n = omega arith in
    let h : below b xs 0 + total (bank b xs 0 n) ≡ below b xs n = rw e at (total_from b xs 0 n) in
    omega (arith, below-zero b xs)

pub below_none : (b : ℕ → ℕ) (xs : List ℕ) → below b xs 0 ≡ 0
below_none b xs = below-zero b xs

-- The bucket where the cumulated count first reaches the rank.
pub record Reaches (b : ℕ → ℕ) (xs : List ℕ) (rank k : ℕ) : Type 0 where
  pub short : below b xs k < rank
  pub enough : rank ≤ below b xs (k + 1)

pub first_reaching-Reaches :
    (b : ℕ → ℕ) (xs : List ℕ) (rank cum i n : ℕ)
    → cum ≡ below b xs i
    → cum < rank
    → rank ≤ below b xs (i + n)
    → Reaches b xs rank (first_reaching rank cum i (bank b xs i n))
unfolding first_reaching
first_reaching-Reaches b xs rank cum i zero e short enough =
    let e' : i + 0 ≡ i = omega arith in
    let enough' : rank ≤ below b xs i = rw e' at enough in absurd (omega arith)
first_reaching-Reaches b xs rank cum i (suc n) e short enough =
    elim (Bool-cases (leb rank (cum + tally (λ x. b x == i) xs))) [
      | inl now ↦ rw now (record { short = omega arith; enough = ground (arith, below-suc b xs i) })
      | inr later ↦
          let e' : i + suc n ≡ i + 1 + n = omega arith in
          rw later (
            first_reaching-Reaches b xs rank (cum + tally (λ x. b x == i) xs) (i + 1) n
              (omega (arith, below-suc b xs i)) (ground arith) (rw e' at enough))
    ]
