-- ===== src/Orders/Closing/Write.antt =====
-- What the transaction of close_order of agent_local/orders/repository.py leaves.
use integrado_web_xd.Prelude.{
  ℕ, ◌≡◌, refl, String, not, some, List, [], ◌∷◌, ◌++◌, map, arith, ◌==◌, eq_iff, keep, first_where,
  update_where,
}
use integrado_web_xd.Orders.{
  Order, Payment, Store, closed, ok, StoredOrder, is_of, in_order, get_by_uuid,
}
use integrado_web_xd.Orders.Editing.{
  LocalOrderPaymentCreate, paid, join_methods, payment_row, write_close,
}

-- The order once it is closed with some payments.
abbrev pub closed_order : ℕ → String → List LocalOrderPaymentCreate → Order → Store → StoredOrder
closed_order now u payments o s = record {
  order = record o {
    status = closed;
    payment_method = some (join_methods [] payments);
    amount_paid = some (paid payments);
    closed_at = some now;
    updated_at = now;
  };
  items = keep (in_order u) s.items;
  payments = map (payment_row now u) payments;
}

first_where-write :
    (e u : String) (f : Order → Order) (os : List Order) (o : Order)
    → ((o : Order) → ((f o).empresa_id ≡ o.empresa_id) × ((f o).uuid ≡ o.uuid))
    → first_where (is_of e u) os ≡ some o
    → first_where (is_of e u) (update_where (is_of e u) f os) ≡ some (f o)
first_where-write e u f [] o same h = cc
first_where-write e u f (x ∷ os) o same h =
    ground (arith, first_where-write e u f os o same, (same x).0, (same x).1)

payments-closed :
    (now : ℕ) (u : String) (old : List Payment) (payments : List LocalOrderPaymentCreate)
    → keep
        (λ p. p.order_uuid == u)
        (keep (λ p. not (p.order_uuid == u)) old ++ map (payment_row now u) payments)
      ≡ map (payment_row now u) payments
payments-closed now u [] [] = refl
payments-closed now u [] (p ∷ payments) =
    ground (arith, payments-closed now u [] payments, eq_iff u u)
payments-closed now u (p ∷ old) payments = ground (arith, payments-closed now u old payments)

pub write_close-result :
    (now : ℕ) (e u : String) (payments : List LocalOrderPaymentCreate) (s : Store) (o : Order)
    → first_where (is_of e u) s.orders ≡ some o
    → (write_close now e u payments s).1 ≡ ok (closed_order now u payments o s)
unfolding write_close get_by_uuid
write_close-result now e u payments s o found =
    let f : Order → Order = λ o. record o {
      status = closed;
      payment_method = some (join_methods [] payments);
      amount_paid = some (paid payments);
      closed_at = some now;
      updated_at = now;
    } in
    rw
      (
        get_by_uuid,
        first_where-write e u f s.orders o (λ o. (refl, refl)) found,
        payments-closed now u s.payments payments,
      )
      refl

pub others-closed :
    (now : ℕ) (u : String) (old : List Payment) (payments : List LocalOrderPaymentCreate)
    → keep
        (λ p. not (p.order_uuid == u))
        (keep (λ p. not (p.order_uuid == u)) old ++ map (payment_row now u) payments)
      ≡ keep (λ p. not (p.order_uuid == u)) old
others-closed now u [] [] = refl
others-closed now u [] (p ∷ payments) = ground (arith, others-closed now u [] payments, eq_iff u u)
others-closed now u (p ∷ old) payments = ground (arith, others-closed now u old payments)
