-- ===== src/Itch/Tests.antt =====
-- The decoder on a delete that is cut short.
use fpga_algotrading.Prelude.{◌≡◌, true, some, [], ◌∷◌, is_some}
use fpga_algotrading.Itch.Decode.{decode_message}
use fpga_algotrading.Itch.Total.{decode_message-returns}

decode_message-returns_example : is_some (decode_message (b'D' ∷ 0 ∷ 7 ∷ []) (some 19)) ≡ true
decode_message-returns_example = decode_message-returns (b'D' ∷ 0 ∷ 7 ∷ []) (some 19)
