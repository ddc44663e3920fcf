-- ===== src/GoldenBook/Twin/Sums.antt =====
-- Order maps that hold the same have the same sums.
use fpga_algotrading.Prelude.{
  ℕ, ◌<◌, ◌≡◌, refl, sym, ap, ◌∙◌, inl, inr, Option, none, some, [], ◌∷◌, ◌==◌, arith, Bool-cases,
}
use fpga_algotrading.Dict.{
  Dict, lookup, erase, sum_of, IsDistinct, lookup-erase, erase-IsDistinct, sum-erase,
}
use fpga_algotrading.GoldenBook.Twin.{View, viewed}

pub viewed-none : {A : Type 0} (f : A → View) (o : Option A) → viewed f o ≡ none → o ≡ none
viewed-none f none e = refl
viewed-none f (some a) e = cc

pub viewed-some :
    {A : Type 0} (f : A → View) (o : Option A) (v : View)
    → viewed f o ≡ some v
    → (a : A) × (o ≡ some a) × (f a ≡ v)
viewed-some f none v e = cc
viewed-some f (some a) v e = (a, refl, cc)

module _ {A B : Type 0} (f : A → View) (f' : B → View) (W : View → ℕ) where
  -- The dicts hold the same, seen through the views.
  abbrev pub Alike : Dict A → Dict B → Type 0
  Alike d d' = (ref : ℕ) → viewed f (lookup ref d) ≡ viewed f' (lookup ref d')

  Alike-nil : (d' : Dict B) → Alike [] d' → d' ≡ []
  Alike-nil [] h = refl
  Alike-nil (e ∷ d') h = ground (arith, h e.0)

  Alike-tail :
      (e : ℕ × A) (d : Dict A) (d' : Dict B)
      → IsDistinct (e ∷ d)
      → Alike (e ∷ d) d'
      → Alike d (erase e.0 d')
  Alike-tail e d d' distinct h ref = elim (Bool-cases (ref == e.0)) [
    | inl at ↦
        let same : ref ≡ e.0 = ground arith in
        let absent : lookup ref d ≡ none = rw same distinct.0 in
        ground (arith, lookup-erase ref e.0 d')
    | inr away ↦ ground (arith, h ref, lookup-erase ref e.0 d')
  ]

  pub sum_viewed :
      (d : Dict A) (d' : Dict B)
      → IsDistinct d
      → IsDistinct d'
      → Alike d d'
      → sum_of (λ a. W (f a)) d ≡ sum_of (λ b. W (f' b)) d'
  sum_viewed [] d' distinct distinct' h = rw (Alike-nil d' h) refl
  sum_viewed (e ∷ d) d' distinct distinct' h =
      let head : lookup e.0 (e ∷ d) ≡ some e.1 = ground arith in
      let (b, found, same) =
        viewed-some f' (lookup e.0 d') (f e.1) (sym (h e.0) ∙ ap (viewed f) head) in
      let rest =
        sum_viewed d (erase e.0 d') distinct.1 (erase-IsDistinct e.0 d' distinct')
          (Alike-tail e d d' distinct h) in
      omega (arith, sum-erase (λ b. W (f' b)) e.0 b d' distinct' found, ap W same)

lookup_later :
    {A : Type 0} (e : ℕ × A) (d : Dict A) (ref : ℕ) (a : A)
    → IsDistinct (e ∷ d)
    → lookup ref d ≡ some a
    → lookup ref (e ∷ d) ≡ some a
lookup_later e d ref a distinct found = elim (Bool-cases (ref == e.0)) [
  | inl at ↦
      let same : ref ≡ e.0 = ground arith in
      let absent : lookup ref d ≡ none = rw same distinct.0 in absurd (ground arith)
  | inr away ↦ rw away found
]

-- A weight that is positive somewhere has an order that carries it.
pub sum_witness :
    {A : Type 0} (w : A → ℕ) (d : Dict A)
    → IsDistinct d
    → 0 < sum_of w d
    → (ref : ℕ) × (a : A) × (lookup ref d ≡ some a) × (0 < w a)
sum_witness w [] distinct h = absurd (omega arith)
sum_witness w (e ∷ d) distinct h = elim (Bool-cases (w e.1 == 0)) [
  | inl light ↦
      let (ref, a, found, heavy) = sum_witness w d distinct.1 (ground arith) in
      (ref, a, lookup_later e d ref a distinct found, heavy)
  | inr heavy ↦ (e.0, e.1, ground arith, ground arith)
]
