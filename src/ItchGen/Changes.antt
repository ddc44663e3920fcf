-- ===== src/ItchGen/Changes.antt =====
-- The reference book at a built message that executes, cancels, deletes or replaces an order.
use fpga_algotrading.Prelude.{
  ℕ, ◌≡◌, refl, true, none, some, List, ◌++◌, arith, length, length-append, bind-some, ◌∙◌,
}
use fpga_algotrading.Feed.Bytes.{to_bytes}
use fpga_algotrading.GoldenBook.State.{GoldenBook, execute, reduce, remove}
use fpga_algotrading.GoldenBook.Apply.{
  unpack, is_byte, applied, is_active, apply_typed, apply_executed, apply_executed_price,
  apply_cancel, apply_delete, replace, apply_replace, apply,
}
use fpga_algotrading.ItchGen.{
  prefix, order_executed, order_executed_with_price, order_cancel, order_delete, order_replace,
}
use fpga_algotrading.ItchGen.Slots.{
  to_bytes-Packed, behind, front, alone, is_byte_behind, is_byte_front,
}
use fpga_algotrading.ItchGen.Heads.{prefix-IsHead, length-head, checked-head, apply-head}

module _ (g : GoldenBook) (locate ts tracking : ℕ) (msg : List ℕ)
    (active : is_active g locate ≡ true) where
  pub order_delete_lem :
      (ref : ℕ)
      → order_delete locate ref ts tracking ≡ some msg
      → apply g msg ≡ some (applied (remove g ref))
  unfolding order_delete apply_typed apply_delete
  order_delete_lem ref e =
      let (head, got, e₁) = bind-some (prefix b'D' locate tracking ts) _ e in
      let (bs, got_ref, e₂) = bind-some (to_bytes 8 ref) _ e₁ in
      let h = prefix-IsHead b'D' locate tracking ts head got in
      let p = to_bytes-Packed 8 ref bs got_ref in
      let (whole, _) = checked-head h 19 bs msg refl e₂ in
      let at_ref : unpack (head ++ bs) 11 19 ≡ some ref =
        behind head bs 0 8 (length-head h) (alone p) in
      rw (← whole) (apply-head g h bs active ∙ (rw (at_ref) refl))

  pub order_cancel_lem :
      (ref shares : ℕ)
      → order_cancel locate ref shares ts tracking ≡ some msg
      → apply g msg ≡ some (applied (reduce g locate ref shares))
  unfolding order_cancel apply_typed apply_cancel
  order_cancel_lem ref shares e =
      let (head, got, e₁) = bind-some (prefix b'X' locate tracking ts) _ e in
      let (rs, got_ref, e₂) = bind-some (to_bytes 8 ref) _ e₁ in
      let (qs, got_qty, e₃) = bind-some (to_bytes 4 shares) _ e₂ in
      let h = prefix-IsHead b'X' locate tracking ts head got in
      let pr = to_bytes-Packed 8 ref rs got_ref in
      let pq = to_bytes-Packed 4 shares qs got_qty in
      let (whole, _) = checked-head h 23 (rs ++ qs) msg refl e₃ in
      let at_ref : unpack (head ++ (rs ++ qs)) 11 19 ≡ some ref =
        behind head _ 0 8 (length-head h) (front qs pr) in
      let at_qty : unpack (head ++ (rs ++ qs)) 19 23 ≡ some shares =
        behind head _ 8 12 (length-head h) (behind rs qs 0 4 pr.size (alone pq)) in
      rw (← whole) (apply-head g h _ active ∙ (rw (at_ref, at_qty) refl))

  pub order_executed_lem :
      (ref shares match_no : ℕ)
      → order_executed locate ref shares match_no ts tracking ≡ some msg
      → apply g msg ≡ some (applied (execute g locate ref shares true none))
  unfolding order_executed apply_typed apply_executed
  order_executed_lem ref shares match_no e =
      let (head, got, e₁) = bind-some (prefix b'E' locate tracking ts) _ e in
      let (rs, got_ref, e₂) = bind-some (to_bytes 8 ref) _ e₁ in
      let (qs, got_qty, e₃) = bind-some (to_bytes 4 shares) _ e₂ in
      let (ms, got_match, e₄) = bind-some (to_bytes 8 match_no) _ e₃ in
      let h = prefix-IsHead b'E' locate tracking ts head got in
      let pr = to_bytes-Packed 8 ref rs got_ref in
      let pq = to_bytes-Packed 4 shares qs got_qty in
      let (whole, _) = checked-head h 31 (rs ++ (qs ++ ms)) msg refl e₄ in
      let at_ref : unpack (head ++ (rs ++ (qs ++ ms))) 11 19 ≡ some ref =
        behind head _ 0 8 (length-head h) (front _ pr) in
      let at_qty : unpack (head ++ (rs ++ (qs ++ ms))) 19 23 ≡ some shares =
        behind head _ 8 12 (length-head h) (behind rs _ 0 4 pr.size (front ms pq)) in
      rw (← whole) (apply-head g h _ active ∙ (rw (at_ref, at_qty) refl))

  pub order_executed_with_price_lem :
      (ref shares match_no : ℕ) (printable : List ℕ) (price : ℕ)
      → order_executed_with_price locate ref shares match_no printable price ts tracking ≡ some msg
      → apply g msg
        ≡ some (applied (execute g locate ref shares (is_byte printable 0 b'Y') (some price)))
  unfolding order_executed_with_price apply_typed apply_executed_price
  order_executed_with_price_lem ref shares match_no printable price e =
      let (head, got, e₁) = bind-some (prefix b'C' locate tracking ts) _ e in
      let (rs, got_ref, e₂) = bind-some (to_bytes 8 ref) _ e₁ in
      let (qs, got_qty, e₃) = bind-some (to_bytes 4 shares) _ e₂ in
      let (ms, got_match, e₄) = bind-some (to_bytes 8 match_no) _ e₃ in
      let (ps, got_px, e₅) = bind-some (to_bytes 4 price) _ e₄ in
      let h = prefix-IsHead b'C' locate tracking ts head got in
      let pr = to_bytes-Packed 8 ref rs got_ref in
      let pq = to_bytes-Packed 4 shares qs got_qty in
      let pm = to_bytes-Packed 8 match_no ms got_match in
      let pp = to_bytes-Packed 4 price ps got_px in
      let (whole, long) = checked-head h 36 (rs ++ (qs ++ (ms ++ (printable ++ ps)))) msg refl e₅ in
      let l = length-append head (rs ++ (qs ++ (ms ++ (printable ++ ps)))) in
      let l₁ = length-append rs (qs ++ (ms ++ (printable ++ ps))) in
      let l₂ = length-append qs (ms ++ (printable ++ ps)) in
      let l₃ = length-append ms (printable ++ ps) in
      let l₄ = length-append printable ps in
      let one : length printable ≡ 1 =
        omega (arith, long, l, l₁, l₂, l₃, l₄, length-head h, pr.size, pq.size, pm.size, pp.size) in
      let at_ref : unpack (head ++ (rs ++ (qs ++ (ms ++ (printable ++ ps))))) 11 19 ≡ some ref =
        behind head _ 0 8 (length-head h) (front _ pr) in
      let at_qty : unpack (head ++ (rs ++ (qs ++ (ms ++ (printable ++ ps))))) 19 23 ≡ some shares =
        behind head _ 8 12 (length-head h) (behind rs _ 0 4 pr.size (front _ pq)) in
      let at_px : unpack (head ++ (rs ++ (qs ++ (ms ++ (printable ++ ps))))) 32 36 ≡ some price =
        behind head _ 21 25 (length-head h) (
          behind rs _ 13 17 pr.size (
            behind qs _ 9 13 pq.size
              (behind ms _ 1 5 pm.size (behind printable _ 0 4 one (alone pp))))) in
      let at_flag : is_byte (head ++ (rs ++ (qs ++ (ms ++ (printable ++ ps))))) 31 b'Y'
          ≡ is_byte printable 0 b'Y' =
        is_byte_behind head _ 20 _ (length-head h)
        ∙ is_byte_behind rs _ 12 _ pr.size
        ∙ is_byte_behind qs _ 8 _ pq.size
        ∙ is_byte_behind ms _ 0 _ pm.size
        ∙ is_byte_front printable ps _ one in
      rw (← whole) (apply-head g h _ active ∙ (rw (at_ref, at_qty, at_px, at_flag) refl))

  pub order_replace_lem :
      (orig ref shares price : ℕ)
      → order_replace locate orig ref shares price ts tracking ≡ some msg
      → apply g msg ≡ some (applied (replace g orig ref shares price))
  unfolding order_replace apply_typed apply_replace
  order_replace_lem orig ref shares price e =
      let (head, got, e₁) = bind-some (prefix b'U' locate tracking ts) _ e in
      let (os, got_orig, e₂) = bind-some (to_bytes 8 orig) _ e₁ in
      let (rs, got_ref, e₃) = bind-some (to_bytes 8 ref) _ e₂ in
      let (qs, got_qty, e₄) = bind-some (to_bytes 4 shares) _ e₃ in
      let (ps, got_px, e₅) = bind-some (to_bytes 4 price) _ e₄ in
      let h = prefix-IsHead b'U' locate tracking ts head got in
      let po = to_bytes-Packed 8 orig os got_orig in
      let pr = to_bytes-Packed 8 ref rs got_ref in
      let pq = to_bytes-Packed 4 shares qs got_qty in
      let pp = to_bytes-Packed 4 price ps got_px in
      let (whole, _) = checked-head h 35 (os ++ (rs ++ (qs ++ ps))) msg refl e₅ in
      let at_orig : unpack (head ++ (os ++ (rs ++ (qs ++ ps)))) 11 19 ≡ some orig =
        behind head _ 0 8 (length-head h) (front _ po) in
      let at_ref : unpack (head ++ (os ++ (rs ++ (qs ++ ps)))) 19 27 ≡ some ref =
        behind head _ 8 16 (length-head h) (behind os _ 0 8 po.size (front _ pr)) in
      let at_qty : unpack (head ++ (os ++ (rs ++ (qs ++ ps)))) 27 31 ≡ some shares =
        behind head _ 16 20 (length-head h)
          (behind os _ 8 12 po.size (behind rs _ 0 4 pr.size (front _ pq))) in
      let at_px : unpack (head ++ (os ++ (rs ++ (qs ++ ps)))) 31 35 ≡ some price =
        behind head _ 20 24 (length-head h) (
          behind os _ 12 16 po.size
            (behind rs _ 4 8 pr.size (behind qs _ 0 4 pq.size (alone pp)))) in
      rw (← whole) (apply-head g h _ active ∙ (rw (at_orig, at_ref, at_qty, at_px) refl))
