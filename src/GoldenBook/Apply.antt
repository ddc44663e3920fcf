-- ===== src/GoldenBook/Apply.antt =====
-- tb/common/golden_book.py, `apply`: one raw ITCH message.
use fpga_algotrading.Prelude.{
  ℕ, ◌+◌, ◌-◌, Bool, true, false, Option, none, some, List, [], ◌∷◌, ◌||◌, ◌&&◌, not, ltb, ◌==◌,
  if◌then◌else◌, or_else, take, drop, length, get_elem?, ◌>>=◌,
}
use fpga_algotrading.Dict.{lookup, insert}
use fpga_algotrading.Contract.{Side}
use fpga_algotrading.Feed.Bytes.{from_bytes}
use fpga_algotrading.GoldenBook.State.{GoldenBook, add, remove, reduce, execute}

-- `msg[a:b]`
abbrev pub slice : List ℕ → ℕ → ℕ → List ℕ
slice msg a b = take (b - a) (drop a msg)

-- `struct.unpack` of a big-endian number on a slice; `none` is the error on a slice that is short.
abbrev pub unpack : List ℕ → ℕ → ℕ → Option ℕ
unpack msg a b = let bs = slice msg a b in if length bs == b - a then some (from_bytes bs) else none

-- A slice of one byte is that byte: `msg[i:i+1] == c`
abbrev pub is_byte : List ℕ → ℕ → ℕ → Bool
is_byte msg i c = elim (get_elem? msg i) [ none ↦ false | some b ↦ b == c ]

abbrev pub applied : GoldenBook → GoldenBook
applied g = record g { n_applied = g.n_applied + 1 }

abbrev pub mem : ℕ → List ℕ → Bool
mem a [] = false
mem a (x ∷ xs) = a == x || mem a xs

-- `_is_active`
unfoldable pub is_active : GoldenBook → ℕ → Bool
is_active g locate = elim g.cfg.active_locates [ none ↦ true | some locates ↦ mem locate locates ]

unfoldable pub apply_add : GoldenBook → ℕ → List ℕ → Option GoldenBook
apply_add g locate msg = do
  ref ← unpack msg 11 19
  shares ← unpack msg 20 24
  price ← unpack msg 32 36
  some (
      applied (
        add g (record {
          ref = ref;
          locate = locate;
          side = if is_byte msg 19 b'B' then Side.buy else Side.sell;
          price = price;
          shares = shares;
          stock = slice msg 24 32;
        })))

unfoldable pub apply_executed : GoldenBook → ℕ → List ℕ → Option GoldenBook
apply_executed g locate msg = do
  ref ← unpack msg 11 19
  shares ← unpack msg 19 23
  some (applied (execute g locate ref shares true none))

unfoldable pub apply_executed_price : GoldenBook → ℕ → List ℕ → Option GoldenBook
apply_executed_price g locate msg = do
  ref ← unpack msg 11 19
  shares ← unpack msg 19 23
  exec_px ← unpack msg 32 36
  some (applied (execute g locate ref shares (is_byte msg 31 b'Y') (some exec_px)))

unfoldable pub apply_cancel : GoldenBook → ℕ → List ℕ → Option GoldenBook
apply_cancel g locate msg = do
  ref ← unpack msg 11 19
  shares ← unpack msg 19 23
  some (applied (reduce g locate ref shares))

unfoldable pub apply_delete : GoldenBook → List ℕ → Option GoldenBook
apply_delete g msg = do ref ← unpack msg 11 19; some (applied (remove g ref))

-- The branch of 'U' from the lookup of the original order on.
unfoldable pub replace : GoldenBook → ℕ → ℕ → ℕ → ℕ → GoldenBook
replace g orig_ref new_ref shares price = elim (lookup orig_ref g.orders) [
  | none ↦ record g { n_unknown_ref = g.n_unknown_ref + 1 }
  | some orig ↦ add (remove g orig_ref) (record {
    ref = new_ref;
    locate = orig.locate;
    side = orig.side;
    price = price;
    shares = shares;
    stock = orig.stock;
  })
]

unfoldable pub apply_replace : GoldenBook → List ℕ → Option GoldenBook
apply_replace g msg = do
  orig_ref ← unpack msg 11 19
  new_ref ← unpack msg 19 27
  shares ← unpack msg 27 31
  price ← unpack msg 31 35
  some (applied (replace g orig_ref new_ref shares price))

unfoldable pub apply_trade : GoldenBook → ℕ → List ℕ → Option GoldenBook
apply_trade g locate msg = do
  price ← unpack msg 36 40
  some (applied (record g { last_px = insert locate price g.last_px }))

-- The dispatch on the type of a message.
unfoldable pub apply_typed : GoldenBook → ℕ → ℕ → List ℕ → Option GoldenBook
apply_typed g t locate msg =
    if t == b'S'
    then some (applied (record g { session_state = slice msg 11 12 }))
    else if t == b'H'
    then some
        (applied (record g { trading_state = insert locate (slice msg 19 20) g.trading_state }))
    else if t == b'Y'
    then some (applied (record g { ssr = insert locate (slice msg 19 20) g.ssr }))
    else if t == b'A' || t == b'F'
    then apply_add g locate msg
    else if t == b'E'
    then apply_executed g locate msg
    else if t == b'C'
    then apply_executed_price g locate msg
    else if t == b'X'
    then apply_cancel g locate msg
    else if t == b'D'
    then apply_delete g msg
    else if t == b'U'
    then apply_replace g msg
    else if t == b'P'
    then apply_trade g locate msg
    else if t == b'Q' || t == b'B'
    then some (applied g)
    else some (record g { n_ignored_type = g.n_ignored_type + 1 })

-- `apply`; `none` is the `struct.error`.
unfoldable pub apply : GoldenBook → List ℕ → Option GoldenBook
apply g msg =
    let locate = from_bytes (slice msg 1 3) in
    let t = or_else (get_elem? msg 0) 0 in
    if ltb (length msg) 11
    then some (record g { n_bad_length = g.n_bad_length + 1 })
    else if not (is_active g locate) && not (t == b'S')
    then some (record g { n_ignored_locate = g.n_ignored_locate + 1 })
    else apply_typed g t locate msg
