-- ===== src/Contract/Tests.antt =====
-- host/pymodel/trading_pkg_mirror.py, `pack_bits` and `unpack_bits` on two members.
use fpga_algotrading.Prelude.{ℕ, ◌≡◌, refl, List, [], ◌∷◌}
use fpga_algotrading.Contract.Pack.{pack_from, pack_bits, unpack_bits}
use fpga_algotrading.Contract.Unpack.{unpack-pack_bits}

abbrev two_members : List (ℕ × ℕ)
two_members = (4, 5) ∷ (8, 200) ∷ []

unpack-pack_bits_example : unpack_bits (4 ∷ 8 ∷ []) 1480 ≡ 5 ∷ 200 ∷ []
unfolding pack_bits pack_from
unpack-pack_bits_example = unpack-pack_bits two_members 1480 refl
