-- ===== src/ItchGen/Adds.antt =====
-- The reference book at a built message that adds an order.
use mathlib.Core.Path.{subst}
use mathlib.Core.List.{append-nil, append_assoc}
use fpga_algotrading.Prelude.{
  ℕ, ◌≡◌, suc, refl, sym, ap, ◌∙◌, true, some, List, [], ◌∷◌, ◌++◌, ◌||◌, ltb, ◌==◌, arith, length,
  replicate, take, length-append, length-replicate, bind-some, if◌then◌else◌, or_else, inl, inr,
  Bool-cases, ◌-◌,
}
use fpga_algotrading.Contract.{Side}
use fpga_algotrading.Feed.Bytes.{to_bytes}
use fpga_algotrading.Feed.Mold.{encode_ascii}
use fpga_algotrading.GoldenBook.State.{GoldenBook, Order, add}
use fpga_algotrading.GoldenBook.Apply.{
  slice, unpack, is_byte, applied, is_active, apply_typed, apply_add, apply,
}
use fpga_algotrading.ItchGen.{
  ljust, stock, prefix, check_len, add_fields, add_order, replace_first, add_order_mpid,
}
use fpga_algotrading.ItchGen.Slots.{
  to_bytes-Packed, behind, front, is_byte_behind, slice_behind, slice_front,
}
use fpga_algotrading.ItchGen.Heads.{IsHead, prefix-IsHead, length-head, checked-head, apply-head}

-- The order that a call of `add_order` names.
abbrev pub built_order : ℕ → ℕ → ℕ → ℕ → List ℕ → ℕ → Order
built_order locate ref side shares symbol price = record {
  ref = ref;
  locate = locate;
  side = if side == b'B' then Side.buy else Side.sell;
  price = price;
  shares = shares;
  stock = or_else (stock symbol) [];
}

pub length-stock : (symbol name : List ℕ) → stock symbol ≡ some name → length name ≡ 8
unfolding stock
length-stock symbol name e =
    let (b, got, e₁) = bind-some (encode_ascii symbol) _ e in
    elim (Bool-cases (ltb 8 (length b))) [
      | inl over ↦ let e₂ = rw over at e₁ in cc
      | inr fits ↦
          let e₂ : ljust 8 b ≡ name = (let e' = rw fits at e₁ in cc) in
          let l = length-append b (replicate (8 - length b) 32) in
          let l' = length-replicate {A = ℕ} (8 - length b) 32 in
          ap length (sym e₂) ∙ ground (arith, l, l')
    ]

-- The fields of an added order are where the book reads them.
record HasFields (o : Order) (side : ℕ) (msg : List ℕ) : Type 0 where
  at_ref : unpack msg 11 19 ≡ some o.ref
  at_shares : unpack msg 20 24 ≡ some o.shares
  at_price : unpack msg 32 36 ≡ some o.price
  at_side : is_byte msg 19 b'B' ≡ (side == b'B')
  at_stock : slice msg 24 32 ≡ o.stock

add_fields-HasFields :
    (locate ref side shares : ℕ) (symbol : List ℕ) (price : ℕ) (head body tail : List ℕ)
    → length head ≡ 11
    → add_fields ref side shares symbol price ≡ some body
    → HasFields (built_order locate ref side shares symbol price) side (head ++ (body ++ tail))
unfolding add_fields
add_fields-HasFields locate ref side shares symbol price head body tail long e =
    let (rs, got_ref, e₁) = bind-some (to_bytes 8 ref) _ e in
    let (qs, got_qty, e₂) = bind-some (to_bytes 4 shares) _ e₁ in
    let (ns, got_name, e₃) = bind-some (stock symbol) _ e₂ in
    let (ps, got_px, e₄) = bind-some (to_bytes 4 price) _ e₃ in
    let pr = to_bytes-Packed 8 ref rs got_ref in
    let pq = to_bytes-Packed 4 shares qs got_qty in
    let pn = length-stock symbol ns got_name in
    let pp = to_bytes-Packed 4 price ps got_px in
    let flat : rs ++ (side ∷ qs ++ (ns ++ (ps ++ tail))) ≡ body ++ tail =
      sym (
        append_assoc rs (side ∷ qs ++ (ns ++ ps)) tail
        ∙ ap (λ l. rs ++ (side ∷ l))
            (append_assoc qs (ns ++ ps) tail ∙ ap (λ l. qs ++ l) (append_assoc ns ps tail)))
      ∙ ap (λ l. l ++ tail) (let b : rs ++ (side ∷ qs ++ (ns ++ ps)) ≡ body = cc in b) in
    rw (← flat) (record {
      at_ref = behind head _ 0 8 long (front _ pr);
      at_shares =
          behind head _ 9 13 long
            (behind rs _ 1 5 pr.size (behind (side ∷ []) _ 0 4 refl (front _ pq)));
      at_price = behind head _ 21 25 long (
          behind rs _ 13 17 pr.size
            (behind (side ∷ qs) _ 8 12 (ap suc pq.size) (behind ns _ 0 4 pn (front _ pp))));
      at_side = is_byte_behind head _ 8 _ long ∙ is_byte_behind rs _ 0 _ pr.size;
      at_stock =
          slice_behind head _ 11 13 21 long
          ∙ slice_behind rs _ 8 5 13 pr.size
          ∙ slice_behind (side ∷ qs) _ 5 0 8 (ap suc pq.size)
          ∙ slice_front ns _ 8 pn
          ∙ (rw got_name refl);
    })

apply_add_lem :
    (g : GoldenBook) (locate ref side shares : ℕ) (symbol : List ℕ) (price : ℕ) (msg : List ℕ)
    → HasFields (built_order locate ref side shares symbol price) side msg
    → apply_add g locate msg
      ≡ some (applied (add g (built_order locate ref side shares symbol price)))
unfolding apply_add
apply_add_lem g locate ref side shares symbol price msg h =
    rw (h.at_ref, h.at_shares, h.at_price, h.at_side, h.at_stock) refl

module _ (g : GoldenBook) (locate ts tracking : ℕ) (msg : List ℕ)
    (active : is_active g locate ≡ true) (ref side shares : ℕ) (symbol : List ℕ) (price : ℕ) where
  add_order-parts :
      add_order locate ref side shares symbol price ts tracking ≡ some msg
      → (head : List ℕ) × IsHead b'A' locate head
        × (body : List ℕ) × (head ++ body ≡ msg)
        × (add_fields ref side shares symbol price ≡ some body)
  unfolding add_order
  add_order-parts e = elim (Bool-cases (side == b'B' || side == b'S')) [
    | inr other ↦ let e' = rw other at e in cc
    | inl proper ↦
        let e' = rw proper at e in
        let (head, got, e₁) = bind-some (prefix b'A' locate tracking ts) _ e' in
        let (body, got_body, e₂) = bind-some (add_fields ref side shares symbol price) _ e₁ in
        let h = prefix-IsHead b'A' locate tracking ts head got in
        (head, h, body, (checked-head h 36 body msg refl e₂).0, got_body)
  ]

  pub add_order_lem :
      add_order locate ref side shares symbol price ts tracking ≡ some msg
      → apply g msg ≡ some (applied (add g (built_order locate ref side shares symbol price)))
  unfolding apply_typed
  add_order_lem e =
      let (head, h, body, whole, got) = add_order-parts e in
      let fields =
        add_fields-HasFields locate ref side shares symbol price head body [] (length-head h) got in
      rw (← whole) (
        apply-head g h body active
        ∙ apply_add_lem g locate ref side shares symbol price (head ++ body) (
            subst
              (λ l. HasFields (built_order locate ref side shares symbol price) side (head ++ l))
              (append-nil body) fields))

replace_first-head :
    {locate : ℕ} {head : List ℕ} (h : IsHead b'A' locate head) (body : List ℕ)
    → replace_first b'A' b'F' (head ++ body) ≡ (b'F' ∷ (h.at ++ h.rest)) ++ body
replace_first-head h body = rw (← h.shape) refl

pub add_order_mpid_lem :
    (g : GoldenBook) (locate ref side shares : ℕ) (symbol : List ℕ) (price : ℕ) (mpid : List ℕ)
    (ts tracking : ℕ) (msg : List ℕ)
    → is_active g locate ≡ true
    → add_order_mpid locate ref side shares symbol price mpid ts tracking ≡ some msg
    → apply g msg ≡ some (applied (add g (built_order locate ref side shares symbol price)))
unfolding add_order_mpid apply_typed
add_order_mpid_lem g locate ref side shares symbol price mpid ts tracking msg active e =
    let (plain, got, e₁) =
      bind-some (add_order locate ref side shares symbol price ts tracking) _ e in
    let (head, h, body, whole, got_body) =
      add_order-parts g locate ts tracking plain active ref side shares symbol price got in
    let h' : IsHead b'F' locate (b'F' ∷ (h.at ++ h.rest)) = record {
      at = h.at;
      rest = h.rest;
      shape = refl;
      at_size = h.at_size;
      at_value = h.at_value;
      rest_size = h.rest_size;
    } in
    let tail = take 4 (ljust 4 mpid) in
    let flat : replace_first b'A' b'F' plain ++ tail ≡ (b'F' ∷ (h.at ++ h.rest)) ++ (body ++ tail) =
      ap (λ l. replace_first b'A' b'F' l ++ tail) (sym whole)
      ∙ ap (λ l. l ++ tail) (replace_first-head h body)
      ∙ append_assoc (b'F' ∷ (h.at ++ h.rest)) body tail in
    let (all, _) = checked-head h' 40 (body ++ tail) msg refl (ap check_len (sym flat) ∙ e₁) in
    rw (← all) (
      apply-head g h' (body ++ tail) active
      ∙ apply_add_lem g locate ref side shares symbol price _ (
          add_fields-HasFields locate ref side shares symbol price (b'F' ∷ (h.at ++ h.rest)) body
            tail (length-head h') got_body))
