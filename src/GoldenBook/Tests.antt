-- ===== src/GoldenBook/Tests.antt =====
-- The reference book at an added and a cancelled order, alone and beside the golden model's book.
use fpga_algotrading.Prelude.{ℕ, ◌≡◌, refl, true, none, some, List, [], ◌∷◌, ◌++◌, arith, replicate}
use fpga_algotrading.Dict.{sum_of}
use fpga_algotrading.Contract.{Side, BookOp, BookEvt}
use fpga_algotrading.Feed.Bytes.{from_bytes_on}
use fpga_algotrading.Book.State.{init, book_for}
use fpga_algotrading.Book.Apply
use fpga_algotrading.Book.Levels
use fpga_algotrading.Book.Top
use fpga_algotrading.GoldenBook.State.{
  BookConfig, Order, GoldenBook, new_book, add, level_sub, reduce_live, reduce,
}
use fpga_algotrading.GoldenBook.Apply.{is_active, apply_add, apply_cancel, apply_typed, apply}
use fpga_algotrading.GoldenBook.Query.{verify_consistency, top_of_book}
use fpga_algotrading.GoldenBook.Laws.{held, share}
use fpga_algotrading.GoldenBook.Messages.{IsRegular, Reach}
use fpga_algotrading.GoldenBook.Audit.{verify_consistency-passes}
use fpga_algotrading.GoldenBook.Twin.{golden_step, SameOrders, IsProperEvt}
use fpga_algotrading.GoldenBook.Twin.Agree.{SameTop, Run, books_agree}

abbrev all_locates : BookConfig
all_locates = record { book_levels = 2048; active_locates = none }

-- A type, the locate 7, a tracking number, a timestamp and the reference 1.
abbrev named_one : ℕ → List ℕ
named_one t = t ∷ 0 ∷ 7 ∷ replicate 15 0 ++ 1 ∷ []

-- 100 shares to buy at 1000.
abbrev add_message : List ℕ
add_message = named_one b'A' ++ (b'B' ∷ 0 ∷ 0 ∷ 0 ∷ 100 ∷ replicate 8 32 ++ (0 ∷ 0 ∷ 3 ∷ 232 ∷ []))

-- 40 shares less.
abbrev cancel_message : List ℕ
cancel_message = named_one b'X' ++ (0 ∷ 0 ∷ 0 ∷ 40 ∷ [])

abbrev order_with : ℕ → Order
order_with shares = record {
  ref = 1;
  locate = 7;
  side = Side.buy;
  price = 1000;
  shares = shares;
  stock = replicate 8 32;
}

-- The book with so many shares of the one order, after so many messages.
abbrev one_order : ℕ → ℕ → GoldenBook
one_order shares messages = record (new_book all_locates) {
  orders = (1, order_with shares) ∷ [];
  levels = (7, record { bids = (1000, shares) ∷ []; asks = [] }) ∷ [];
  n_applied = messages;
}

added : apply (new_book all_locates) add_message ≡ some (one_order 100 1)
unfolding apply is_active apply_typed apply_add add from_bytes_on
added = refl

cancelled : apply (one_order 100 1) cancel_message ≡ some (one_order 60 2)
unfolding apply is_active apply_typed apply_cancel reduce reduce_live level_sub from_bytes_on
cancelled = refl

add-IsRegular : IsRegular (new_book all_locates) add_message
add-IsRegular = record {
  new_add = λ t ref got. refl;
  new_replace = λ t orig ref got got'. refl;
  own_execute = λ t ref got o found. cc;
  own_cancel = λ t ref got o found. cc;
}

cancel-IsRegular : IsRegular (one_order 100 1) cancel_message
unfolding from_bytes_on
cancel-IsRegular = record {
  new_add = λ t ref got. ground arith;
  new_replace = λ t orig ref got got'. ground arith;
  own_execute = λ t ref got o found. ground arith;
  own_cancel = λ t ref got o found. ground arith;
}

two_messages : Reach all_locates (one_order 60 2)
two_messages =
    Reach.message (Reach.message Reach.start add_message add-IsRegular added) cancel_message
      cancel-IsRegular cancelled

verify_consistency-passes_example :
    (verify_consistency (one_order 60 2) ≡ true)
    × ((l : ℕ) (s : Side) (p : ℕ)
        → held (one_order 60 2).levels l s p ≡ sum_of (share l s p) (one_order 60 2).orders)
verify_consistency-passes_example = verify_consistency-passes two_messages

abbrev event : BookOp → ℕ → BookEvt
event op qty = record {
  op = op;
  sym = 7;
  locate = 7;
  side = Side.buy;
  price = 1000;
  qty = qty;
  order_ref = 1;
  new_order_ref = 2;
  exch_ts = 0;
  rx_cycle = 5;
  printable = true;
}

abbrev locate_itself : ℕ → ℕ
locate_itself l = l

add-IsProperEvt : IsProperEvt locate_itself init (event BookOp.add 100)
add-IsProperEvt = record {
  own = λ names o found. cc;
  place = refl;
  new_add = λ e. refl;
  new_replace = λ e. cc;
  held = λ e. cc;
}

delete-IsProperEvt :
    IsProperEvt locate_itself (Top.apply init (event BookOp.add 100)).0 (event BookOp.delete 0)
unfolding book_for Top.apply Top.observe Top.publish Top.apply_op Apply.apply_add Levels.level_add
delete-IsProperEvt = record {
  own = λ names o found. ground arith;
  place = refl;
  new_add = λ e. cc;
  new_replace = λ e. cc;
  held = λ e. cc;
}

books_agree_example :
    let m = (Top.apply init (event BookOp.add 100)).0 in
    let g = golden_step BookOp.add (new_book all_locates) (event BookOp.add 100) in
    SameTop
      (Top.apply m (event BookOp.delete 0)).1
      (top_of_book (golden_step BookOp.delete g (event BookOp.delete 0)) 7)
    × SameOrders locate_itself
        (Top.apply m (event BookOp.delete 0)).0.orders
        (golden_step BookOp.delete g (event BookOp.delete 0)).orders
books_agree_example =
    books_agree locate_itself all_locates _ _ (event BookOp.delete 0) (λ a b e. e)
      (Run.next Run.start (event BookOp.add 100) add-IsProperEvt) delete-IsProperEvt
