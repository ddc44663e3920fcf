-- ===== src/Itch/Total.antt =====
-- The decoder returns on any bytes, and the layouts have the lengths of the types.
use fpga_algotrading.Prelude.{
  ℕ, ◌+◌, ◌-◌, ◌≡◌, ◌≢◌, refl, sym, ◌∙◌, inl, inr, Bool, true, Option, none, some, List, [], ◌∷◌,
  ◌++◌, ltb, leb, ◌<◌, ◌≤◌, ◌==◌, ◌&&◌, arith, length, take, drop, length-take, length-drop,
  Bool-cases, Option-cases, is_some, or_else,
}
use mathlib.Core.Path.{subst₂}
use fpga_algotrading.Dict.{Dict, lookup, insert, lookup-insert_ne}
use fpga_algotrading.Itch.Layout.{
  FieldKind, FieldSpec, uint, char, alpha, common_prefix, message_bodies,
}
use fpga_algotrading.Itch.Decode.{
  FieldValue, field_value, read_fields, width_of, itch_msg_len, decoded, layout_length, int_of,
  decode_typed, decode_message, decoded, mismatched,
}

module _ {ℓ} {V : Type ℓ} where
  all_entries : (ℕ → V → Bool) → Dict V → Bool
  all_entries p [] = true
  all_entries p (e ∷ d) = p e.0 e.1 && all_entries p d

module _ {ℓ} {V : Type ℓ} where
  lookup-all_entries :
      (p : ℕ → V → Bool) (d : Dict V) (k : ℕ) (v : V)
      → all_entries p d ≡ true
      → lookup k d ≡ some v
      → p k v ≡ true
  unfolding all_entries
  lookup-all_entries p [] k v h found = cc
  lookup-all_entries p (e ∷ d) k v h found = elim (Bool-cases (k == e.0)) [
    | inl same ↦
        let is : k ≡ e.0 = ground arith in
        let at : e.1 ≡ v = ground arith in subst₂ (λ j w. p j w ≡ true) (sym is) at (ground arith)
    | inr other ↦ lookup-all_entries p d k v (ground arith) (ground arith)
  ]

-- A character has a byte, and no field has a name of the common prefix.
abbrev sound_field : FieldSpec → Bool
sound_field spec = leb 4 spec.name && leb 1 spec.width

abbrev sound_fields : List FieldSpec → Bool
sound_fields [] = true
sound_fields (spec ∷ specs) = sound_field spec && sound_fields specs

abbrev sound_entry : ℕ → List FieldSpec → Bool
sound_entry code body = sound_fields body && 11 + width_of body == itch_msg_len code

bodies_sound : all_entries sound_entry message_bodies ≡ true
unfolding all_entries
bodies_sound = refl

-- A type code has a layout exactly when it has a length, and the widths of the fields add up to it.
layout_widths : (code : ℕ) → or_else (layout_length code) 0 ≡ itch_msg_len code
layout_widths code = ground arith

value_some :
    (kind : FieldKind) (chunk : List ℕ)
    → 1 ≤ length chunk
    → (v : FieldValue) × (field_value kind chunk ≡ some v)
value_some uint chunk h = (_, refl)
value_some alpha chunk h = (_, refl)
value_some char [] h = absurd (omega (arith, h))
value_some char (b ∷ bs) h = (_, refl)

read_step :
    (spec : FieldSpec) (specs : List FieldSpec) (left : List ℕ) (values : Dict FieldValue)
    (v : FieldValue)
    → field_value spec.kind (take spec.width left) ≡ some v
    → read_fields (spec ∷ specs) left values
      ≡ read_fields specs (drop spec.width left) (insert spec.name v values)
unfolding read_fields
read_step spec specs left values v is = rw (is, read_fields) refl

read_body_some :
    (specs : List FieldSpec) (left : List ℕ) (values : Dict FieldValue)
    → sound_fields specs ≡ true
    → width_of specs ≤ length left
    → (values' : Dict FieldValue) × (read_fields specs left values ≡ some values')
      × ((k : ℕ) → k < 4 → lookup k values' ≡ lookup k values)
unfolding read_fields
read_body_some [] left values s w = (values, refl, λ k h. refl)
read_body_some (spec ∷ specs) left values s w =
    let wide : 1 ≤ spec.width = ground arith in
    let (v, is) =
      value_some spec.kind (take spec.width left)
        (omega (arith, length-take spec.width left, w, wide)) in
    let (values', reads, keeps) =
      read_body_some specs (drop spec.width left) (insert spec.name v values) (ground arith)
        (omega (arith, length-drop spec.width left, w)) in
    (
      values',
      read_step spec specs left values v is ∙ reads,
      λ k h. keeps k h ∙ lookup-insert_ne k spec.name v values (ground arith),
    )

-- The common prefix is read with its three numbers.
read_prefix :
    (specs : List FieldSpec) (b : ℕ) (bs : List ℕ)
    → (left : List ℕ) × (values : Dict FieldValue) × (read_fields
          (common_prefix ++ specs)
          (b ∷ bs)
          []
        ≡ read_fields specs left values)
      × (length left ≡ length (b ∷ bs) - 11)
      × (is_some (int_of 1 values) ≡ true)
      × (is_some (int_of 2 values) ≡ true)
      × (is_some (int_of 3 values) ≡ true)
unfolding read_fields
read_prefix specs b bs = (
  _,
  _,
  refl,
  omega (arith, length-drop 6 (drop 2 (drop 2 bs)), length-drop 2 (drop 2 bs), length-drop 2 bs),
  refl,
  refl,
  refl,
)

unlaid_zero : (code : ℕ) → lookup code message_bodies ≡ none → itch_msg_len code ≡ 0
unlaid_zero code absent = ground arith

-- A type with a length has a layout that is sound.
known_sound :
    (code : ℕ)
    → itch_msg_len code ≢ 0
    → (body : List FieldSpec) × (lookup code message_bodies ≡ some body)
      × (sound_fields body ≡ true)
      × (11 + width_of body ≡ itch_msg_len code)
known_sound code known = elim (Option-cases (lookup code message_bodies)) [
  | inl absent ↦ absurd (known (unlaid_zero code absent))
  | inr (body, found) ↦
      let sound = lookup-all_entries sound_entry message_bodies code body bodies_sound found in
      (body, found, ground arith, ground arith)
]

decoded_some :
    (code expected : ℕ) (declared : Option ℕ) (body : List ℕ) (values : Dict FieldValue)
    → is_some (int_of 1 values) ≡ true
    → is_some (int_of 2 values) ≡ true
    → is_some (int_of 3 values) ≡ true
    → is_some (decoded code expected declared body values) ≡ true
decoded_some code expected declared body values a b c = ground arith

int_of_same :
    (k : ℕ) (values values' : Dict FieldValue)
    → lookup k values' ≡ lookup k values
    → is_some (int_of k values) ≡ true
    → is_some (int_of k values') ≡ true
int_of_same k values values' same h = ground arith

-- A body of the right size is read, with the three numbers of its prefix.
read_layout :
    (specs : List FieldSpec) (bytes : List ℕ)
    → sound_fields specs ≡ true
    → 11 + width_of specs ≤ length bytes
    → (values : Dict FieldValue) × (read_fields (common_prefix ++ specs) bytes [] ≡ some values)
      × (is_some (int_of 1 values) ≡ true)
      × (is_some (int_of 2 values) ≡ true)
      × (is_some (int_of 3 values) ≡ true)
read_layout specs [] sound fits = absurd (omega (arith, fits))
read_layout specs (b ∷ bs) sound fits =
    let (left, before, starts, size, n₁, n₂, n₃) = read_prefix specs b bs in
    let (values, reads, keeps) =
      read_body_some specs left before sound (omega (arith, fits, size)) in
    (
      values,
      starts ∙ reads,
      int_of_same 1 before values (keeps 1 (omega arith)) n₁,
      int_of_same 2 before values (keeps 2 (omega arith)) n₂,
      int_of_same 3 before values (keeps 3 (omega arith)) n₃,
    )

decode_typed_some :
    (code : ℕ) (raw : List ℕ) (declared : Option ℕ)
    → is_some (decode_typed code raw declared) ≡ true
unfolding decode_typed
decode_typed_some code raw declared =
    let expected = itch_msg_len code in
    elim (Bool-cases (expected == 0)) [
      | inl unknown ↦ rw (unknown) refl
      | inr known ↦ elim (Bool-cases (mismatched declared expected)) [
        | inl wrong ↦ rw (known, wrong) refl
        | inr right ↦ elim (Bool-cases (ltb (length raw) expected)) [
          | inl short ↦ rw (known, right, short) refl
          | inr long ↦
              let (body, found, sound, widths) = known_sound code (ground arith) in
              let (values, reads, n₁, n₂, n₃) =
                read_layout body (take expected raw) sound
                  (ground (arith, length-take expected raw, widths)) in
              rw (known, right, long, found, reads)
                (decoded_some code expected declared (take expected raw) values n₁ n₂ n₃)
        ]
      ]
    ]

-- The decoder returns a result on any bytes and with any declared length, or none: no chunk of a
-- character is empty and no number of the prefix is missing.
pub decode_message-returns :
    (raw : List ℕ) (declared : Option ℕ) → is_some (decode_message raw declared) ≡ true
unfolding decode_message
decode_message-returns [] declared = refl
decode_message-returns (b ∷ bs) declared = decode_typed_some b (b ∷ bs) declared
