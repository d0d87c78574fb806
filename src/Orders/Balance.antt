-- ===== src/Orders/Balance.antt =====
-- What a partial payment does to the balance of an order.
use integrado_web_xd.Prelude.{
  ℕ, ◌+◌, ◌-◌, ◌≡◌, ◌∙◌, refl, sym, ap, subst, String, true, false, ◌&&◌, Option, none, some, List,
  [], ◌∷◌, ◌++◌, arith, ◌==◌, eq_iff, first_where, or_else, Option-cases, inl, inr,
}
use integrado_web_xd.Orders.{
  Order, PartialPayment, Store, Result, ok, failed, StoredOrder, StoredOrderSession, is_of, given,
  get_by_uuid, is_allowed,
}
use integrado_web_xd.Orders.Accounts.{
  LocalOrderPartialPaymentRequest, Summary, latest_where, get_by_command_number, resolve_order,
  partial_payments_of, summary_of, order_financial_summary, record_partial_payment, log_operation,
}

partial_payments_of-append :
    (u : String) (xs ys : List PartialPayment)
    → partial_payments_of u (xs ++ ys) ≡ partial_payments_of u xs + partial_payments_of u ys
partial_payments_of-append u [] ys = omega arith
partial_payments_of-append u (x ∷ xs) ys = ground (arith, partial_payments_of-append u xs ys)

uuid-first_where :
    (e u : String) (os : List Order) (o : Order)
    → first_where (is_of e u) os ≡ some o
    → (o.uuid == u) ≡ true
uuid-first_where e u [] o h = cc
uuid-first_where e u (x ∷ os) o h = ground (arith, uuid-first_where e u os o)

-- An order that is found is found by its uuid.
get_by_uuid-order :
    (e u : String) (s : Store) (o : StoredOrder)
    → get_by_uuid e u s ≡ ok o
    → first_where (is_of e u) s.orders ≡ some o.order
unfolding get_by_uuid
get_by_uuid-order e u s o h = elim (Option-cases (first_where (is_of e u) s.orders)) [
  | inl missing ↦ ground arith
  | inr (x, found) ↦ ground arith
]

get_by_uuid-stored :
    (e u : String) (s : Store) (o : StoredOrder)
    → get_by_uuid e u s ≡ ok o
    → get_by_uuid e o.order.uuid s ≡ ok o
get_by_uuid-stored e u s o h =
    let same =
      (eq_iff o.order.uuid u).0
        (uuid-first_where e u s.orders o.order (get_by_uuid-order e u s o h)) in
    subst (λ v. get_by_uuid e v s ≡ ok o) (sym same) h

get_by_uuid-same :
    (e u : String) (s s' : Store) (o : StoredOrder)
    → s'.orders ≡ s.orders
    → s'.items ≡ s.items
    → s'.payments ≡ s.payments
    → get_by_uuid e u s ≡ ok o
    → get_by_uuid e u s' ≡ ok o
get_by_uuid-same e u s s' o orders items payments h =
    rw (orders, items, payments) (unfold get_by_uuid in h)

resolve_order-stored :
    (e : String) (u c : Option String) (s : Store) (o : StoredOrder)
    → resolve_order e u c s ≡ ok o
    → get_by_uuid e o.order.uuid s ≡ ok o
unfolding resolve_order get_by_command_number
resolve_order-stored e u c s o h = elim (Option-cases (given u)) [
  | inr (v, some_u) ↦ get_by_uuid-stored e v s o (ground arith)
  | inl no_u ↦ elim (Option-cases (given c)) [
    | inl no_c ↦ ground arith
    | inr (d, some_c) ↦
        elim (Option-cases
          (latest_where (λ x. x.empresa_id == e && x.command_number == d) s.orders)) [
            | inl missing ↦ ground arith
            | inr (x, found) ↦ get_by_uuid-stored e x.uuid s o (ground arith)
          ]
  ]
]

summary_of-paid :
    (o : StoredOrder) (s : Store) (row : PartialPayment)
    → row.order_uuid ≡ o.order.uuid
    → summary_of o (record s { partial_payments = s.partial_payments ++ row ∷ [] })
      ≡ record (summary_of o s) {
        partial_payments = (summary_of o s).partial_payments + row.amount;
        remaining = (summary_of o s).remaining - row.amount;
      }
unfolding summary_of
summary_of-paid o s row same = ground (
  arith,
  partial_payments_of-append o.order.uuid s.partial_payments (row ∷ []),
  eq_iff row.order_uuid o.order.uuid,
)

order_financial_summary-resolved :
    (e : String) (u c : Option String) (s : Store) (sm : Summary)
    → order_financial_summary e u c s ≡ ok sm
    → (o : StoredOrder) × ((resolve_order e u c s ≡ ok o) × (summary_of o s ≡ sm))
unfolding order_financial_summary
order_financial_summary-resolved e u c s sm h = resolved (resolve_order e u c s) refl h
  where
    resolved :
        (r : Result StoredOrder)
        → resolve_order e u c s ≡ r
        → (elim r [ failed error ↦ failed error | ok o ↦ ok (summary_of o s) ]) ≡ ok sm
        → (o : StoredOrder) × ((resolve_order e u c s ≡ ok o) × (summary_of o s ≡ sm))
    resolved (failed error) k h = cc
    resolved (ok o) k h = (o, (k, cc))

order_financial_summary-stored :
    (e : String) (s : Store) (o : StoredOrder)
    → get_by_uuid e o.order.uuid s ≡ ok o
    → (o.order.uuid == "") ≡ false
    → order_financial_summary e (some o.order.uuid) none s ≡ ok (summary_of o s)
unfolding order_financial_summary resolve_order
order_financial_summary-stored e s o h named = ground arith

-- For an operator with the permission and an order that is found, with a uuid that is not empty, a
-- partial payment returns the summary from before with its amount added to the partial payments and
-- taken off what remains, never below zero; the subtotal, the discounts and the total stay.
pub record_partial_payment-remaining :
    (now : ℕ) (e : String) (session : StoredOrderSession) (p : LocalOrderPartialPaymentRequest)
    (s : Store) (before : Summary)
    → is_allowed session.operator_code "order.partial_payment" s.permissions ≡ true
    → order_financial_summary e p.order_uuid p.command_number s ≡ ok before
    → (before.order.order.uuid == "") ≡ false
    → (record_partial_payment now e session p s).1
      ≡ ok (record before {
        partial_payments = before.partial_payments + p.amount;
        remaining = before.remaining - p.amount;
      })
unfolding record_partial_payment log_operation order_financial_summary
record_partial_payment-remaining now e session p s before allowed known named =
    let (o, (resolved, same)) =
      order_financial_summary-resolved e p.order_uuid p.command_number s before known in
    let row : PartialPayment = record {
      order_uuid = o.order.uuid;
      operator_code = session.operator_code;
      payment_method = p.payment_method;
      amount = p.amount;
      selected_item_ids = or_else p.selected_item_ids [];
      created_at = now;
    } in
    let s' =
      log_operation now e session "partial_payment" o.order none none
        (record s { partial_payments = s.partial_payments ++ row ∷ [] }) in
    rw (allowed, resolved)
      (order_financial_summary-stored e s' o
          (get_by_uuid-same e o.order.uuid s s' o refl refl refl
            (resolve_order-stored e p.order_uuid p.command_number s o resolved))
          (subst (λ x. (x.order.order.uuid == "") ≡ false) (sym same) named)
        ∙ ap ok (
            summary_of-paid o s row refl
            ∙ ap {A = Summary}
                (λ x. record x {
                  partial_payments = x.partial_payments + p.amount;
                  remaining = x.remaining - p.amount;
                })
                same))
