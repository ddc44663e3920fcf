-- ===== src/Itch/Decode.antt =====
-- host/pymodel/itch_decode.py, `decode_message`. Characters are code points; the text of `detail` is
-- left out. `none` is an exception: the `IndexError` of an empty chunk, or the `KeyError` or
-- `ValueError` of a prefix field that is missing or no number.
use fpga_algotrading.Prelude.{
  ℕ, ◌+◌, Bool, true, false, Option, none, some, List, [], ◌∷◌, ◌++◌, map, ltb, ◌==◌, not,
  if◌then◌else◌, length, take, drop, or_else, ◌>>=◌,
}
use fpga_algotrading.Dict.{Dict, lookup, insert}
use fpga_algotrading.Feed.Bytes.{from_bytes}
use fpga_algotrading.Feed.Mold.{ascii, rstrip}
use fpga_algotrading.Itch.Layout.{
  FieldKind, FieldSpec, common_prefix, message_bodies, msg_len, stock_locate, tracking_number,
  timestamp,
}

pub data DecodeStatus : Type 0 where
  ok unknown_type length_mismatch truncated empty : DecodeStatus

-- `is_error`
abbrev pub is_error : DecodeStatus → Bool
is_error DecodeStatus.ok = false
is_error DecodeStatus.unknown_type = false
is_error _ = true

pub data FieldValue : Type 0 where
  number : ℕ → FieldValue
  character : ℕ → FieldValue
  alpha_text : List ℕ → FieldValue

pub record ItchMessage : Type 0 where
  pub type_code : ℕ
  pub length : ℕ
  pub locate : ℕ
  pub tracking : ℕ
  pub timestamp : ℕ
  pub values : Dict FieldValue
  pub raw : List ℕ

-- The type code of an empty block is `none`.
pub record DecodeResult : Type 0 where
  pub status : DecodeStatus
  pub message : Option ItchMessage
  pub skip_bytes : ℕ
  pub type_code : Option ℕ
  pub declared_len : Option ℕ
  pub expected_len : Option ℕ

abbrev pub itch_msg_len : ℕ → ℕ
itch_msg_len type_code = or_else (lookup type_code msg_len) 0

-- `MESSAGE_LAYOUT.get(type_code)`
abbrev pub message_layout : ℕ → Option (List FieldSpec)
message_layout type_code = elim (lookup type_code message_bodies) [
  | none ↦ none
  | some body ↦ some (common_prefix ++ body)
]

abbrev pub width_of : List FieldSpec → ℕ
width_of [] = 0
width_of (spec ∷ specs) = spec.width + width_of specs

-- `layout_length`
abbrev pub layout_length : ℕ → Option ℕ
layout_length type_code = elim (message_layout type_code) [
  | none ↦ none
  | some layout ↦ some (width_of layout)
]

abbrev first_char : List ℕ → Option FieldValue
first_char [] = none
first_char (b ∷ bs) = some (character b)

abbrev pub field_value : FieldKind → List ℕ → Option FieldValue
field_value FieldKind.uint chunk = some (number (from_bytes chunk))
field_value FieldKind.char chunk = first_char chunk
field_value FieldKind.alpha chunk = some (alpha_text (rstrip (map ascii chunk)))

abbrev keep : ℕ → Option FieldValue → Dict FieldValue → Option (Dict FieldValue)
keep name none values = none
keep name (some v) values = some (insert name v values)

-- The loop over the fields, with the bytes of the body from the offset on.
unfoldable pub read_fields : List FieldSpec → List ℕ → Dict FieldValue → Option (Dict FieldValue)
read_fields [] left values = some values
read_fields (spec ∷ specs) left values =
    elim (keep spec.name (field_value spec.kind (take spec.width left)) values) [
      | none ↦ none
      | some values' ↦ read_fields specs (drop spec.width left) values'
    ]

-- `int(values[name])`
abbrev pub int_of : ℕ → Dict FieldValue → Option ℕ
int_of name values = elim (lookup name values) [ some (number n) ↦ some n | _ ↦ none ]

abbrev failed : DecodeStatus → ℕ → ℕ → Option ℕ → Option ℕ → DecodeResult
failed status skip type_code declared expected = record {
  status = status;
  message = none;
  skip_bytes = skip;
  type_code = some type_code;
  declared_len = declared;
  expected_len = expected;
}

abbrev pub decoded : ℕ → ℕ → Option ℕ → List ℕ → Dict FieldValue → Option DecodeResult
decoded type_code expected declared body values = do
  locate ← int_of stock_locate values
  tracking ← int_of tracking_number values
  time ← int_of timestamp values
  some (record {
    status = DecodeStatus.ok;
    message = some (record {
      type_code = type_code;
      length = expected;
      locate = locate;
      tracking = tracking;
      timestamp = time;
      values = values;
      raw = body;
    });
    skip_bytes = expected;
    type_code = some type_code;
    declared_len = declared;
    expected_len = some expected;
  })

-- A declared length that is there and is not the one expected.
abbrev pub mismatched : Option ℕ → ℕ → Bool
mismatched none expected = false
mismatched (some n) expected = not (n == expected)

-- `decode_message` from the type code on
unfoldable pub decode_typed : ℕ → List ℕ → Option ℕ → Option DecodeResult
decode_typed type_code raw declared =
    let expected = itch_msg_len type_code in
    if expected == 0
    then some (failed DecodeStatus.unknown_type (or_else declared 0) type_code declared none)
    else if mismatched declared expected
    then some (failed DecodeStatus.length_mismatch 0 type_code declared (some expected))
    else if ltb (length raw) expected
    then some (failed DecodeStatus.truncated 0 type_code declared (some expected))
    else elim (message_layout type_code) [
      | none ↦ none
      | some layout ↦ elim (read_fields layout (take expected raw) []) [
        | none ↦ none
        | some values ↦ decoded type_code expected declared (take expected raw) values
      ]
    ]

unfoldable pub decode_message : List ℕ → Option ℕ → Option DecodeResult
decode_message [] declared = some (record {
  status = DecodeStatus.empty;
  message = none;
  skip_bytes = 0;
  type_code = none;
  declared_len = declared;
  expected_len = none;
})
decode_message (b ∷ bs) declared = decode_typed b (b ∷ bs) declared
