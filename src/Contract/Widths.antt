-- ===== src/Contract/Widths.antt =====
-- Packed records: when an order token packs, and to what.
use fpga_algotrading.Prelude.{ℕ, ◌+◌, ◌*◌, ◌<◌, ◌≡◌, ◌≢◌, some, arith}
use fpga_algotrading.Contract.{OrderToken}
use fpga_algotrading.Contract.Pack.{pack_from, pack_bits, pack_order_token}

-- A token whose fields fit.
pub record IsInRange (t : OrderToken) : Type 0 where
  pub magic : t.magic < 65536
  pub strat_id : t.strat_id < 16
  pub sym : t.sym < 4096
  pub counter : t.counter < 281474976710656
  pub rsvd : t.rsvd < 4294967296

abbrev pub packed : OrderToken → ℕ
packed t =
    (((t.magic * 16 + t.strat_id) * 4096 + t.sym) * 281474976710656 + t.counter) * 4294967296
    + t.rsvd

pub pack_order_token_lem : (t : OrderToken) → IsInRange t → pack_order_token t ≡ some (packed t)
unfolding pack_order_token pack_bits pack_from
pack_order_token_lem t h = ground (arith, h.magic, h.strat_id, h.sym, h.counter, h.rsvd)

-- A token that packs is no zero, as its counter is none.
pub pack_order_token_nonzero :
    (t : OrderToken) (p : ℕ) → pack_order_token t ≡ some p → t.counter ≢ 0 → p ≢ 0
unfolding pack_order_token pack_bits pack_from
pack_order_token_nonzero t p packs h = ground arith
