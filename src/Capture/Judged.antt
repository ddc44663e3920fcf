-- ===== src/Capture/Judged.antt =====
-- A packet whose sequence numbers are checked, and what is known of its line after it.
use fpga_algotrading.Prelude.{
  ℕ, ◌+◌, ◌≤◌, ◌<◌, ◌≡◌, ◌⊎◌, refl, sym, ap, ◌∙◌, inl, inr, Bool, true, false, Option, none, some,
  List, [], ◌∷◌, ◌++◌, ◌||◌, max, ltb, ◌==◌, if◌then◌else◌, arith, Bool-cases, Option-cases,
}
use fpga_algotrading.Capture.Link.{Code}
use fpga_algotrading.Capture.Reader.{
  MoldPacket, Line, same_bytes, same_line, Lines, put, ItchReader, key_of, judged, check_sequence,
}

same_bytes_lem : (xs ys : List ℕ) → same_bytes xs ys ≡ true → xs ≡ ys
same_bytes_lem [] [] h = refl
same_bytes_lem [] (y ∷ ys) h = cc
same_bytes_lem (x ∷ xs) [] h = cc
same_bytes_lem (x ∷ xs) (y ∷ ys) h =
    let first : x ≡ y = ground arith in
    let rest : xs ≡ ys = same_bytes_lem xs ys (ground arith) in cc

same_line_lem : (a b : Line) → same_line a b ≡ true → a ≡ b
same_line_lem a b h =
    let d : a.dst ≡ b.dst = same_bytes_lem a.dst b.dst (ground arith) in
    let p : a.dst_port ≡ b.dst_port = ground arith in
    let s : a.session ≡ b.session = same_bytes_lem a.session b.session (ground arith) in cc

abbrev is_gap : Code → Bool
is_gap Code.seq_gap = true
is_gap _ = false

abbrev pub has_gap : List Code → Bool
has_gap [] = false
has_gap (c ∷ cs) = is_gap c || has_gap cs

pub has_gap-append :
    (xs ys : List Code) → has_gap (xs ++ ys) ≡ false → (has_gap xs ≡ false) × (has_gap ys ≡ false)
has_gap-append [] ys h = (refl, h)
has_gap-append (c ∷ cs) ys h = let (a, b) = has_gap-append cs ys (ground arith) in (ground arith, b)

-- The numbers that a packet holds, on its line.
pub record Span : Type 0 where
  pub line : Line
  pub seq : ℕ
  pub count : ℕ

abbrev pub Holds : Span → Line → ℕ → Type 0
Holds p k s = (same_line k p.line ≡ true) × (p.seq ≤ s) × (s < p.seq + p.count)

-- The last packet stands first.
abbrev pub Covers : List Span → Line → ℕ → Type 0
Covers [] k s = ⊥
Covers (p ∷ ps) k s = Holds p k s ⊎ Covers ps k s

-- Where the first packet of a line starts.
abbrev pub first_of : List Span → Line → Option ℕ
first_of [] k = none
first_of (p ∷ ps) k = elim (first_of ps k) [
  | none ↦ if same_line k p.line then some p.seq else none
  | some f ↦ some f
]

-- What is known of a line once its packets were judged.
pub record IsCovered (h : List Span) (r : ItchReader) : Type 0 where
  pub known :
      (k : Line) (e : ℕ)
      → r.seq_state k ≡ some e
      → has_gap r.notes ≡ false
      → (f : ℕ) × (first_of h k ≡ some f) × ((s : ℕ) → f ≤ s → s < e → Covers h k s)
  pub fresh : (k : Line) → r.seq_state k ≡ none → first_of h k ≡ none

judged_lem :
    (expect last_seen seq n : ℕ) → has_gap (judged expect last_seen seq n) ≡ false → seq ≤ expect
unfolding judged
judged_lem expect last_seen seq n h = ground arith

abbrev pub span_of : ItchReader → MoldPacket → ℕ → Span
span_of r mp n = record { line = key_of r mp; seq = mp.seq; count = n }

-- A write to the dict, read at the same line and at another.
put_same :
    (lines : Lines) (key k : Line) (v : ℕ) → same_line k key ≡ true → put lines key v k ≡ some v
put_same lines key k v h = rw h refl

put_other :
    (lines : Lines) (key k : Line) (v : ℕ) → same_line k key ≡ false → put lines key v k ≡ lines k
put_other lines key k v h = rw h refl

-- A line that the packet is not of keeps all that is known of it.
other_line :
    (h : List Span) (k : Line) (p : Span)
    → same_line k p.line ≡ false
    → first_of (p ∷ h) k ≡ first_of h k
other_line h k p ne = elim (Option-cases (first_of h k)) [
  | inl absent ↦ rw (absent, ne) refl
  | inr (f, found) ↦ rw found refl
]

module _ (h : List Span) (r : ItchReader) (i : IsCovered h r) (mp : MoldPacket) (n : ℕ)
    (some_there : (n == 0) ≡ false) where
  -- The first packet of a line.
  check_fresh :
      r.seq_state (key_of r mp) ≡ none → IsCovered (span_of r mp n ∷ h) (check_sequence r mp n)
  unfolding check_sequence
  check_fresh absent =
      rw (some_there, absent, check_sequence)
        (record {
          known = λ k e at quiet. elim (Bool-cases (same_line k (key_of r mp))) [
            | inl own ↦
                let e_is : mp.seq + n ≡ e = (let at' = rw own at at in cc) in
                let k_is : k ≡ key_of r mp = same_line_lem k (key_of r mp) own in
                let none_yet : first_of h k ≡ none = i.fresh k (ap r.seq_state k_is ∙ absent) in
                (mp.seq, rw (none_yet, own) refl, λ s lo hi. inl (own, lo, omega (arith, hi, e_is)))
            | inr other ↦
                let at' : r.seq_state k ≡ some e =
                  sym (put_other r.seq_state (key_of r mp) k (mp.seq + n) other) ∙ at in
                let (f, found, covers) = i.known k e at' quiet in
                (f, other_line h k (span_of r mp n) other ∙ found, λ s lo hi. inr (covers s lo hi))
          ];
          fresh = λ k at. elim (Bool-cases (same_line k (key_of r mp))) [
            | inl own ↦ let at' = rw own at at in cc
            | inr other ↦
                other_line h k (span_of r mp n) other
                ∙ i.fresh k (sym (put_other r.seq_state (key_of r mp) k (mp.seq + n) other) ∙ at)
          ];
        })

  -- A later packet of a line.
  check_known :
      (e₀ : ℕ)
      → r.seq_state (key_of r mp) ≡ some e₀
      → IsCovered (span_of r mp n ∷ h) (check_sequence r mp n)
  unfolding check_sequence
  check_known e₀ there =
      rw (some_there, there, check_sequence)
        (record {
          known = λ k e at quiet.
              let (before, now) = has_gap-append r.notes _ quiet in
              elim (Bool-cases (same_line k (key_of r mp))) [
                | inl own ↦
                    let e_is : max e₀ (mp.seq + n) ≡ e = (let at' = rw own at at in cc) in
                    let k_is : k ≡ key_of r mp = same_line_lem k (key_of r mp) own in
                    let (f, found, covers) = i.known k e₀ (ap r.seq_state k_is ∙ there) before in
                    let joins : mp.seq ≤ e₀ = judged_lem e₀ _ mp.seq n now in
                    (
                      f,
                      rw found refl,
                      λ s lo hi. elim (Bool-cases (ltb s e₀)) [
                        | inl old ↦ inr (covers s lo (ground arith))
                        | inr new ↦ inl (own, ground arith, ground (arith, hi, e_is))
                      ],
                    )
                | inr other ↦
                    let at' : r.seq_state k ≡ some e =
                      sym (put_other r.seq_state (key_of r mp) k (max e₀ (mp.seq + n)) other)
                      ∙ at in
                    let (f, found, covers) = i.known k e at' before in
                    (
                      f,
                      other_line h k (span_of r mp n) other ∙ found,
                      λ s lo hi. inr (covers s lo hi),
                    )
              ];
          fresh = λ k at. elim (Bool-cases (same_line k (key_of r mp))) [
            | inl own ↦ let at' = rw own at at in cc
            | inr other ↦
                other_line h k (span_of r mp n) other
                ∙ i.fresh k
                    (sym (put_other r.seq_state (key_of r mp) k (max e₀ (mp.seq + n)) other) ∙ at)
          ];
        })

  pub check_sequence-IsCovered : IsCovered (span_of r mp n ∷ h) (check_sequence r mp n)
  check_sequence-IsCovered = elim (Option-cases (r.seq_state (key_of r mp))) [
    | inl absent ↦ check_fresh absent
    | inr (e₀, there) ↦ check_known e₀ there
  ]

-- The packet that a record of the capture holds, if its numbers are judged: not a heartbeat, not the
-- end of a session.
