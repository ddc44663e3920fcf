-- ===== src/GoldenBook/Twin/Orders.antt =====
-- The order maps of the two books stay alike over every proper event.
use fpga_algotrading.Prelude.{
  ℕ, ◌-◌, ◌≡◌, refl, sym, ap, ◌∙◌, inl, inr, Bool, false, Option, none, some, ◌==◌, arith,
  if◌then◌else◌, Bool-cases, Option-cases, min, is_some,
}
use fpga_algotrading.Dict.{
  Dict, lookup, insert, erase, drop_where, IsDistinct, lookup-insert, lookup-erase,
  lookup-drop_where, erase-insert, erase_absent,
}
use fpga_algotrading.Contract.{BookOp, BookEvt}
use fpga_algotrading.Book.State.{LiveOrder, OrderBookModel}
use fpga_algotrading.Book.Orders.{reduced, replaced, orders_after}
use fpga_algotrading.GoldenBook.State.{
  Order, GoldenBook, add, level_sub, remove_live, remove, reduce_live, reduce, execute, clear,
}
use fpga_algotrading.GoldenBook.Apply.{replace}
use fpga_algotrading.GoldenBook.Twin.{
  order_of, golden_step, view_live, view_order, viewed, SameOrders, IsProperEvt, IsOneToOne,
}
use fpga_algotrading.GoldenBook.Twin.Sums.{viewed-none, viewed-some}

orders-add :
    (g : GoldenBook) (o : Order)
    → (add g o).orders ≡ (if o.shares == 0 then g.orders else insert o.ref o g.orders)
unfolding add
orders-add g o = ground arith

orders-remove : (g : GoldenBook) (ref : ℕ) → (remove g ref).orders ≡ erase ref g.orders
unfolding remove remove_live level_sub
orders-remove g ref = elim (Option-cases (lookup ref g.orders)) [
  | inl absent ↦ rw (absent, remove) (sym (erase_absent ref g.orders absent))
  | inr (o, found) ↦ rw (found, remove) refl
]

abbrev renewed : ℕ → ℕ → ℕ → Order → Order
renewed ref shares price o = record o { ref = ref; price = price; shares = shares }

orders-replace :
    (g : GoldenBook) (orig ref shares price : ℕ) (o : Order)
    → lookup orig g.orders ≡ some o
    → (replace g orig ref shares price).orders ≡ (
        if shares == 0
        then erase orig g.orders
        else insert ref (renewed ref shares price o) (erase orig g.orders))
unfolding replace
orders-replace g orig ref shares price o found =
    rw (found, replace)
      (orders-add (remove g orig) (renewed ref shares price o)
        ∙ ap (λ d. if shares == 0 then d else insert ref (renewed ref shares price o) d)
            (orders-remove g orig))

-- The order map after shares are taken from an order.
abbrev golden_reduced : Dict Order → ℕ → ℕ → Dict Order
golden_reduced orders ref shares = elim (lookup ref orders) [
  | none ↦ orders
  | some o ↦
      if o.shares - shares == 0
      then erase ref orders
      else insert ref (record o { shares = o.shares - shares }) orders
]

orders-reduce_live :
    (g : GoldenBook) (locate ref shares : ℕ) (o : Order)
    → (reduce_live g locate ref shares o).orders ≡ (
        if o.shares - shares == 0
        then erase ref g.orders
        else insert ref (record o { shares = o.shares - shares }) g.orders)
unfolding reduce_live level_sub
orders-reduce_live g locate ref shares o =
    let e : o.shares - min shares o.shares ≡ o.shares - shares = omega arith in
    rw e (elim (Bool-cases (o.shares - shares == 0)) [
      | inl gone ↦ rw gone (erase-insert ref _ g.orders)
      | inr kept ↦ rw kept refl
    ])

orders-reduce :
    (g : GoldenBook) (locate ref shares : ℕ)
    → (reduce g locate ref shares).orders ≡ golden_reduced g.orders ref shares
unfolding reduce
orders-reduce g locate ref shares = elim (Option-cases (lookup ref g.orders)) [
  | inl absent ↦ rw (absent, reduce, golden_reduced) refl
  | inr (o, found) ↦ rw (found, reduce, golden_reduced) (orders-reduce_live g locate ref shares o)
]

orders-execute :
    (g : GoldenBook) (locate ref shares : ℕ) (printable : Bool) (px : Option ℕ)
    → (execute g locate ref shares printable px).orders ≡ golden_reduced g.orders ref shares
unfolding execute
orders-execute g locate ref shares printable px = elim (Option-cases (lookup ref g.orders)) [
  | inl absent ↦ rw (absent, execute, golden_reduced) refl
  | inr (o, found) ↦
      rw (found, execute)
        (elim (Bool-cases printable) [
          | inl shown ↦ rw shown (orders-reduce _ locate ref shares)
          | inr hidden ↦ rw hidden (orders-reduce g locate ref shares)
        ])
]

module _ (sym_of : ℕ → ℕ) (one_to_one : IsOneToOne sym_of) where
  SameOrders-insert :
      (k : ℕ) (o : LiveOrder) (o' : Order) (d : Dict LiveOrder) (d' : Dict Order)
      → view_live o ≡ view_order sym_of o'
      → SameOrders sym_of d d'
      → SameOrders sym_of (insert k o d) (insert k o' d')
  SameOrders-insert k o o' d d' e h ref =
      ground (arith, h ref, lookup-insert ref k o d, lookup-insert ref k o' d')

  pub SameOrders-erase :
      (k : ℕ) (d : Dict LiveOrder) (d' : Dict Order)
      → SameOrders sym_of d d'
      → SameOrders sym_of (erase k d) (erase k d')
  SameOrders-erase k d d' h ref = ground (arith, h ref, lookup-erase ref k d, lookup-erase ref k d')

  SameOrders-clear :
      (place locate : ℕ) (d : Dict LiveOrder) (d' : Dict Order)
      → place ≡ sym_of locate
      → IsDistinct d
      → IsDistinct d'
      → SameOrders sym_of d d'
      → SameOrders sym_of
          (drop_where (λ o. o.sym == place) d)
          (drop_where (λ o. o.locate == locate) d')
  SameOrders-clear place locate d d' at distinct distinct' h ref =
      let kept = lookup-drop_where ref (λ (o : LiveOrder). o.sym == place) d distinct in
      let kept' = lookup-drop_where ref (λ (o : Order). o.locate == locate) d' distinct' in
      elim (Option-cases (lookup ref d)) [
        | inl absent ↦ ground (arith, h ref)
        | inr (o, found) ↦
            let (o', found', same) =
              viewed-some (view_order sym_of) (lookup ref d') (view_live o)
                (sym (h ref) ∙ ap (viewed view_live) found) in
            elim (Bool-cases (o'.locate == locate)) [
              | inl there ↦
                  let e : o'.locate ≡ locate = ground arith in
                  let e' : sym_of o'.locate ≡ sym_of locate = ap sym_of e in ground arith
              | inr elsewhere ↦ ground (arith, one_to_one o'.locate locate)
            ]
      ]

  SameOrders-taken :
      (evt : BookEvt) (o : LiveOrder) (o' : Order) (d : Dict LiveOrder) (d' : Dict Order)
      → view_order sym_of o' ≡ view_live o
      → SameOrders sym_of d d'
      → SameOrders sym_of
          (if o.qty - evt.qty == 0
            then erase evt.order_ref d
            else insert evt.order_ref (record o { qty = o.qty - evt.qty }) d)
          (if o'.shares - evt.qty == 0
            then erase evt.order_ref d'
            else insert evt.order_ref (record o' { shares = o'.shares - evt.qty }) d')
  SameOrders-taken evt o o' d d' same h =
      let e : o'.shares ≡ o.qty = ap (λ v. v.3) same in
      rw e (elim (Bool-cases (o.qty - evt.qty == 0)) [
        | inl gone ↦ rw gone (SameOrders-erase evt.order_ref d d' h)
        | inr kept ↦ rw kept (SameOrders-insert evt.order_ref _ _ d d' (ground arith) h)
      ])

  SameOrders-reduced :
      (evt : BookEvt) (d : Dict LiveOrder) (d' : Dict Order)
      → SameOrders sym_of d d'
      → SameOrders sym_of (reduced d evt) (golden_reduced d' evt.order_ref evt.qty)
  SameOrders-reduced evt d d' h = elim (Option-cases (lookup evt.order_ref d)) [
    | inl absent ↦
        let absent' : lookup evt.order_ref d' ≡ none =
          viewed-none (view_order sym_of) _
            (sym (h evt.order_ref) ∙ ap (viewed view_live) absent) in
        rw (absent, reduced) (rw (absent', golden_reduced) h)
    | inr (o, found) ↦
        let (o', found', same) =
          viewed-some (view_order sym_of) (lookup evt.order_ref d') (view_live o)
            (sym (h evt.order_ref) ∙ ap (viewed view_live) found) in
        rw (found, reduced) (rw (found', golden_reduced) (SameOrders-taken evt o o' d d' same h))
  ]

  module _ (m : OrderBookModel) (g : GoldenBook) (evt : BookEvt) (proper : IsProperEvt sym_of m evt)
      (distinct : IsDistinct m.orders) (distinct' : IsDistinct g.orders)
      (h : SameOrders sym_of m.orders g.orders) where
    SameOrders-add :
        evt.op ≡ BookOp.add
        → SameOrders sym_of (orders_after BookOp.add m.orders evt) (add g (order_of evt)).orders
    unfolding orders_after
    SameOrders-add e =
        let absent = proper.new_add e in
        rw (orders-add g (order_of evt), absent, is_some)
          (elim (Bool-cases (evt.qty == 0)) [
            | inl empty ↦ rw empty h
            | inr full ↦ rw full (
                SameOrders-insert evt.order_ref _ _ m.orders g.orders
                  (let p = proper.place in ground arith) h)
          ])

    SameOrders-replaced :
        (o : LiveOrder) (o' : Order)
        → evt.op ≡ BookOp.replace
        → lookup evt.order_ref m.orders ≡ some o
        → lookup evt.order_ref g.orders ≡ some o'
        → view_order sym_of o' ≡ view_live o
        → SameOrders sym_of
            (replaced (erase evt.order_ref m.orders) evt o)
            (replace g evt.order_ref evt.new_order_ref evt.qty evt.price).orders
    SameOrders-replaced o o' e found found' same =
        let new = proper.new_replace e in
        let full : (evt.qty == 0) ≡ false = let q = proper.held e in ground arith in
        let own : o.sym ≡ evt.sym = proper.own (rw e refl) o found in
        let place : sym_of o'.locate ≡ o.sym = ap (λ v. v.0) same in
        let side : o'.side ≡ o.side = ap (λ v. v.1) same in
        rw
          (
            orders-replace g evt.order_ref evt.new_order_ref evt.qty evt.price o' found',
            new,
            is_some,
            full,
          )
          (SameOrders-insert evt.new_order_ref _ _ _ _ (cc)
            (SameOrders-erase evt.order_ref m.orders g.orders h))

    SameOrders-replace :
        evt.op ≡ BookOp.replace
        → SameOrders sym_of
            (orders_after BookOp.replace m.orders evt)
            (replace g evt.order_ref evt.new_order_ref evt.qty evt.price).orders
    unfolding orders_after replace
    SameOrders-replace e = elim (Option-cases (lookup evt.order_ref m.orders)) [
      | inl absent ↦
          let absent' : lookup evt.order_ref g.orders ≡ none =
            viewed-none (view_order sym_of) _
              (sym (h evt.order_ref) ∙ ap (viewed view_live) absent) in
          rw (absent, orders_after) (rw (absent', replace) h)
      | inr (o, found) ↦
          let (o', found', same) =
            viewed-some (view_order sym_of) (lookup evt.order_ref g.orders) (view_live o)
              (sym (h evt.order_ref) ∙ ap (viewed view_live) found) in
          rw (found, orders_after) (SameOrders-replaced o o' e found found' same)
    ]

    pub step-SameOrders :
        (op : BookOp)
        → evt.op ≡ op
        → SameOrders sym_of (orders_after op m.orders evt) (golden_step op g evt).orders
    unfolding orders_after golden_step clear
    step-SameOrders BookOp.clear e =
        SameOrders-clear evt.sym evt.locate m.orders g.orders proper.place distinct distinct' h
    step-SameOrders BookOp.add e = SameOrders-add e
    step-SameOrders BookOp.execute e =
        rw (orders-execute g evt.locate evt.order_ref evt.qty evt.printable (some evt.price))
          (SameOrders-reduced evt m.orders g.orders h)
    step-SameOrders BookOp.cancel e =
        rw (orders-reduce g evt.locate evt.order_ref evt.qty)
          (SameOrders-reduced evt m.orders g.orders h)
    step-SameOrders BookOp.delete e =
        rw (orders-remove g evt.order_ref) (SameOrders-erase evt.order_ref m.orders g.orders h)
    step-SameOrders BookOp.replace e = SameOrders-replace e
    step-SameOrders BookOp.nop e = h
