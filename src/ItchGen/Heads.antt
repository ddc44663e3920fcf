-- ===== src/ItchGen/Heads.antt =====
-- The header that every builder puts in front, and what `apply` makes of it.
use mathlib.Core.Path.{subst}
use fpga_algotrading.Prelude.{
  ℕ, ◌%◌, ◌^◌, ◌≡◌, refl, ap, ◌∙◌, ◌∙◌, true, false, some, List, [], ◌∷◌, ◌++◌, ltb, ◌==◌, arith,
  length, take, inl, inr, Bool-cases, or_else, get_elem?, length-append,
}
use fpga_algotrading.Dict.{lookup}
use fpga_algotrading.Feed.Bytes.{bytes_of, from_bytes, length-bytes_of, from_bytes-bytes_of}
use fpga_algotrading.GoldenBook.State.{GoldenBook}
use fpga_algotrading.GoldenBook.Apply.{slice, is_active, apply_typed, apply}
use fpga_algotrading.ItchGen.{prefix, check_len, msg_len}

-- A header: the type, the locate, and eight bytes that the book does not read.
pub record IsHead (t locate : ℕ) (head : List ℕ) : Type 0 where
  pub at : List ℕ
  pub rest : List ℕ
  pub shape : t ∷ at ++ rest ≡ head
  pub at_size : length at ≡ 2
  pub at_value : from_bytes at ≡ locate
  pub rest_size : length rest ≡ 8

pub prefix-IsHead :
    (t locate tracking ts : ℕ) (head : List ℕ)
    → prefix t locate tracking ts ≡ some head
    → IsHead t locate head
unfolding prefix
prefix-IsHead t locate tracking ts head h = elim (Bool-cases (ltb 65535 locate)) [
  | inl over ↦ let h' = rw over at h in cc
  | inr fits ↦ elim (Bool-cases (ltb ts (2 ^ 48))) [
    | inr late ↦ let h' = rw (fits, late) at h in cc
    | inl early ↦
        let h' = rw (fits, early) at h in
        record {
          at = bytes_of 2 locate;
          rest = bytes_of 2 (tracking % 65536) ++ bytes_of 6 ts;
          shape = cc;
          at_size = length-bytes_of 2 locate;
          at_value = from_bytes-bytes_of 2 locate (ground arith);
          rest_size =
              length-append (bytes_of 2 (tracking % 65536)) (bytes_of 6 ts)
              ∙ (rw (length-bytes_of 2 (tracking % 65536), length-bytes_of 6 ts) refl);
        }
  ]
]

pub length-head : {t locate : ℕ} {head : List ℕ} → IsHead t locate head → length head ≡ 11
length-head h =
    let e = length-append h.at h.rest in
    let s = h.at_size in let s' = h.rest_size in rw (← h.shape) (omega (arith, e, s, s'))

pub check_len_lem :
    (t want : ℕ) (m msg : List ℕ)
    → lookup t msg_len ≡ some want
    → check_len (t ∷ m) ≡ some msg
    → (t ∷ m ≡ msg) × (length (t ∷ m) ≡ want)
unfolding check_len
check_len_lem t want m msg known h = elim (Bool-cases (length (t ∷ m) == want)) [
  | inl good ↦ let h' = rw (known, check_len, good) at h in (cc, ground arith)
  | inr bad ↦ let h' = rw (known, check_len, bad) at h in cc
]

-- A message that was checked is its header and its body.
pub checked-head :
    {t locate : ℕ} {head : List ℕ} (h : IsHead t locate head) (want : ℕ) (body msg : List ℕ)
    → lookup t msg_len ≡ some want
    → check_len (head ++ body) ≡ some msg
    → (head ++ body ≡ msg) × (length (head ++ body) ≡ want)
checked-head {t} {locate} {head} h want body msg known e =
    let s : t ∷ (h.at ++ h.rest) ++ body ≡ head ++ body = ap (λ l. l ++ body) h.shape in
    subst (λ m. (m ≡ msg) × (length m ≡ want)) s
      (check_len_lem t want ((h.at ++ h.rest) ++ body) msg known (ap check_len s ∙ e))

take_at : (xs ys zs : List ℕ) → length xs ≡ 2 → take 2 ((xs ++ ys) ++ zs) ≡ xs
take_at [] ys zs h = absurd (omega (arith, h))
take_at (x ∷ []) ys zs h = absurd (omega (arith, h))
take_at (x ∷ y ∷ []) ys zs h = refl
take_at (x ∷ y ∷ z ∷ xs) ys zs h = absurd (omega (arith, h))

-- A message of an active locate goes to the branch of its type.
pub apply-head :
    (g : GoldenBook) {t locate : ℕ} {head : List ℕ} (h : IsHead t locate head) (body : List ℕ)
    → is_active g locate ≡ true
    → apply g (head ++ body) ≡ apply_typed g t locate (head ++ body)
unfolding apply
apply-head g {t} {locate} {head} h body active =
    let long : ltb (length (head ++ body)) 11 ≡ false =
      (let l = length-append head body in let l' = length-head h in ground (arith, l, l')) in
    let kind : or_else (get_elem? (head ++ body) 0) 0 ≡ t = rw (← h.shape) refl in
    let at : slice (head ++ body) 1 3 ≡ h.at =
      rw (← h.shape) (take_at h.at h.rest body h.at_size) in
    rw (long, at, h.at_value, kind, active) refl
