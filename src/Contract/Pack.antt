-- ===== src/Contract/Pack.antt =====
-- host/pymodel/trading_pkg_mirror.py, section 5: packed records. A member is its width in bits and
-- its value; shifts are products and quotients by powers of two.
use fpga_algotrading.Prelude.{
  ℕ, ◌+◌, ◌*◌, ◌/◌, ◌%◌, ◌^◌, Option, none, some, List, [], ◌∷◌, ◌==◌, if◌then◌else◌,
}
use fpga_algotrading.Contract.{OrderToken}

-- `mask(value, width)`
abbrev pub mask : ℕ → ℕ → ℕ
mask value width = value % 2 ^ width

-- The loop of `pack_bits` from the value built so far; `none` is the `ValueError`. The value of a
-- member is below its power of two, so `(out << width) | value` is a sum.
unfoldable pub pack_from : ℕ → List (ℕ × ℕ) → Option ℕ
pack_from out [] = some out
pack_from out ((width, value) ∷ members) =
    let rest = pack_from (out * 2 ^ width + value) members in
    if value == mask value width then rest else none

unfoldable pub pack_bits : List (ℕ × ℕ) → Option ℕ
unfolding pack_from
pack_bits members = pack_from 0 members

abbrev pub total_width : List ℕ → ℕ
total_width [] = 0
total_width (width ∷ widths) = width + total_width widths

-- `unpack_bits`: the position of a member is the width of those after it.
unfoldable pub unpack_bits : List ℕ → ℕ → List ℕ
unpack_bits [] packed = []
unpack_bits (width ∷ widths) packed =
    mask (packed / 2 ^ total_width widths) width ∷ unpack_bits widths packed

-- `ORDER_TOKEN_MEMBERS` with the values of a token
abbrev pub token_members : OrderToken → List (ℕ × ℕ)
token_members t =
    (16, t.magic) ∷ (4, t.strat_id) ∷ (12, t.sym) ∷ (48, t.counter) ∷ (32, t.rsvd) ∷ []

unfoldable pub pack_order_token : OrderToken → Option ℕ
pack_order_token t = pack_bits (token_members t)
