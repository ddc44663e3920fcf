-- ===== src/ItchGen/Status.antt =====
-- The reference book at a built message that changes a state or the last price.
use fpga_algotrading.Prelude.{
  ℕ, ◌+◌, ◌-◌, ◌/◌, ◌≡◌, refl, ◌∙◌, true, some, List, ◌∷◌, ◌++◌, arith, length, take, length-append,
  bind-some, length-take, length-replicate, replicate,
}
use fpga_algotrading.Dict.{insert}
use fpga_algotrading.Feed.Bytes.{to_bytes}
use fpga_algotrading.GoldenBook.State.{GoldenBook}
use fpga_algotrading.GoldenBook.Apply.{
  slice, unpack, applied, is_active, apply_typed, apply_trade, apply,
}
use fpga_algotrading.ItchGen.{
  stock, prefix, system_event, trading_action, reg_sho, trade_non_cross, ljust, luld_collar,
  operational_halt,
}
use fpga_algotrading.ItchGen.Slots.{
  to_bytes-Packed, behind, slice_behind, slice_front, slice_all, to_bytes-high,
}
use fpga_algotrading.ItchGen.Heads.{prefix-IsHead, length-head, checked-head, apply-head}
use fpga_algotrading.ItchGen.Adds.{length-stock}

-- What a message of a type that the book does not use does to it.
abbrev pub ignored : GoldenBook → GoldenBook
ignored g = record g { n_ignored_type = g.n_ignored_type + 1 }

length-reason : (n : ℕ) (reason : List ℕ) → length (take n (ljust n reason)) ≡ n
length-reason n reason = omega (
  arith,
  length-take n (ljust n reason),
  length-append reason (replicate (n - length reason) 32),
  length-replicate {A = ℕ} (n - length reason) 32,
)

module _ (g : GoldenBook) (locate ts tracking : ℕ) (msg : List ℕ)
    (active : is_active g locate ≡ true) where
  pub system_event_lem :
      (code : List ℕ)
      → system_event code ts locate tracking ≡ some msg
      → apply g msg ≡ some (applied (record g { session_state = code }))
  unfolding system_event apply_typed
  system_event_lem code e =
      let (head, got, e₁) = bind-some (prefix b'S' locate tracking ts) _ e in
      let h = prefix-IsHead b'S' locate tracking ts head got in
      let (whole, long) = checked-head h 12 code msg refl e₁ in
      let one : length code ≡ 1 = omega (arith, long, length-append head code, length-head h) in
      let at_code : slice (head ++ code) 11 12 ≡ code =
        slice_behind head code 11 0 1 (length-head h) ∙ slice_all code one in
      rw (← whole) (apply-head g h code active ∙ (rw (at_code) refl))

  pub trading_action_lem :
      (symbol state reason : List ℕ)
      → trading_action locate symbol state reason ts tracking ≡ some msg
      → apply g msg
        ≡ some (applied (record g { trading_state = insert locate state g.trading_state }))
  unfolding trading_action apply_typed
  trading_action_lem symbol state reason e =
      let (head, got, e₁) = bind-some (prefix b'H' locate tracking ts) _ e in
      let (ns, got_name, e₂) = bind-some (stock symbol) _ e₁ in
      let h = prefix-IsHead b'H' locate tracking ts head got in
      let rest = 32 ∷ take 4 (ljust 4 reason) in
      let (whole, long) = checked-head h 25 (ns ++ (state ++ rest)) msg refl e₂ in
      let eight = length-stock symbol ns got_name in
      let one : length state ≡ 1 = omega (
        arith,
        long,
        length-append head (ns ++ (state ++ rest)),
        length-append ns (state ++ rest),
        length-append state rest,
        length-reason 4 reason,
        length-head h,
        eight,
      ) in
      let at_state : slice (head ++ (ns ++ (state ++ rest))) 19 20 ≡ state =
        slice_behind head _ 11 8 9 (length-head h)
        ∙ slice_behind ns _ 8 0 1 eight
        ∙ slice_front state rest 1 one in
      rw (← whole) (apply-head g h _ active ∙ (rw (at_state) refl))

  pub reg_sho_lem :
      (symbol action : List ℕ)
      → reg_sho locate symbol action ts tracking ≡ some msg
      → apply g msg ≡ some (applied (record g { ssr = insert locate action g.ssr }))
  unfolding reg_sho apply_typed
  reg_sho_lem symbol action e =
      let (head, got, e₁) = bind-some (prefix b'Y' locate tracking ts) _ e in
      let (ns, got_name, e₂) = bind-some (stock symbol) _ e₁ in
      let h = prefix-IsHead b'Y' locate tracking ts head got in
      let (whole, long) = checked-head h 20 (ns ++ action) msg refl e₂ in
      let eight = length-stock symbol ns got_name in
      let one : length action ≡ 1 = omega (
        arith,
        long,
        length-append head (ns ++ action),
        length-append ns action,
        length-head h,
        eight,
      ) in
      let at_action : slice (head ++ (ns ++ action)) 19 20 ≡ action =
        slice_behind head _ 11 8 9 (length-head h)
        ∙ slice_behind ns action 8 0 1 eight
        ∙ slice_all action one in
      rw (← whole) (apply-head g h _ active ∙ (rw (at_action) refl))

  -- What the book takes for the price are the four high bytes of the match number.
  pub trade_non_cross_lem :
      (ref : ℕ) (side : List ℕ) (shares : ℕ) (symbol : List ℕ) (price match_no : ℕ)
      → trade_non_cross locate ref side shares symbol price match_no ts tracking ≡ some msg
      → apply g msg
        ≡ some (applied (record g { last_px = insert locate (match_no / 4294967296) g.last_px }))
  unfolding trade_non_cross apply_typed apply_trade
  trade_non_cross_lem ref side shares symbol price match_no e =
      let (head, got, e₁) = bind-some (prefix b'P' locate tracking ts) _ e in
      let (rs, got_ref, e₂) = bind-some (to_bytes 8 ref) _ e₁ in
      let (qs, got_qty, e₃) = bind-some (to_bytes 4 shares) _ e₂ in
      let (ns, got_name, e₄) = bind-some (stock symbol) _ e₃ in
      let (ps, got_px, e₅) = bind-some (to_bytes 4 price) _ e₄ in
      let (ms, got_match, e₆) = bind-some (to_bytes 8 match_no) _ e₅ in
      let h = prefix-IsHead b'P' locate tracking ts head got in
      let pr = to_bytes-Packed 8 ref rs got_ref in
      let pq = to_bytes-Packed 4 shares qs got_qty in
      let pn = length-stock symbol ns got_name in
      let pp = to_bytes-Packed 4 price ps got_px in
      let pm = to_bytes-Packed 8 match_no ms got_match in
      let (whole, long) =
        checked-head h 44 (rs ++ (side ++ (qs ++ (ns ++ (ps ++ ms))))) msg refl e₆ in
      let one : length side ≡ 1 = omega (
        arith,
        long,
        length-append head (rs ++ (side ++ (qs ++ (ns ++ (ps ++ ms))))),
        length-append rs (side ++ (qs ++ (ns ++ (ps ++ ms)))),
        length-append side (qs ++ (ns ++ (ps ++ ms))),
        length-append qs (ns ++ (ps ++ ms)),
        length-append ns (ps ++ ms),
        length-append ps ms,
        length-head h,
        pr.size,
        pq.size,
        pn,
        pp.size,
        pm.size,
      ) in
      let at_px : unpack (head ++ (rs ++ (side ++ (qs ++ (ns ++ (ps ++ ms)))))) 36 40
          ≡ some (match_no / 4294967296) =
        behind head _ 25 29 (length-head h) (
          behind rs _ 17 21 pr.size (
            behind side _ 16 20 one (
              behind qs _ 12 16 pq.size (
                behind ns _ 4 8 pn
                  (behind ps ms 0 4 pp.size (to_bytes-high match_no ms got_match)))))) in
      rw (← whole) (apply-head g h _ active ∙ (rw (at_px) refl))

  pub luld_collar_lem :
      (symbol : List ℕ) (ref_price upper lower extension : ℕ)
      → luld_collar locate symbol ref_price upper lower extension ts tracking ≡ some msg
      → apply g msg ≡ some (ignored g)
  unfolding luld_collar apply_typed
  luld_collar_lem symbol ref_price upper lower extension e =
      let (head, got, e₁) = bind-some (prefix b'J' locate tracking ts) _ e in
      let (ns, got_name, e₂) = bind-some (stock symbol) _ e₁ in
      let (rs, got_ref, e₃) = bind-some (to_bytes 4 ref_price) _ e₂ in
      let (us, got_upper, e₄) = bind-some (to_bytes 4 upper) _ e₃ in
      let (ls, got_lower, e₅) = bind-some (to_bytes 4 lower) _ e₄ in
      let (es, got_ext, e₆) = bind-some (to_bytes 4 extension) _ e₅ in
      let h = prefix-IsHead b'J' locate tracking ts head got in
      let (whole, _) = checked-head h 35 (ns ++ (rs ++ (us ++ (ls ++ es)))) msg refl e₆ in
      rw (← whole) (apply-head g h _ active)

  pub operational_halt_lem :
      (symbol market_code action : List ℕ)
      → operational_halt locate symbol market_code action ts tracking ≡ some msg
      → apply g msg ≡ some (ignored g)
  unfolding operational_halt apply_typed
  operational_halt_lem symbol market_code action e =
      let (head, got, e₁) = bind-some (prefix b'h' locate tracking ts) _ e in
      let (ns, got_name, e₂) = bind-some (stock symbol) _ e₁ in
      let h = prefix-IsHead b'h' locate tracking ts head got in
      let (whole, _) = checked-head h 21 (ns ++ (market_code ++ action)) msg refl e₂ in
      rw (← whole) (apply-head g h _ active)
