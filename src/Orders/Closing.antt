-- ===== src/Orders/Closing.antt =====
-- Closing an order, on every branch.
mod Request
mod Write
use Request.{row_pair, requested, sum_amounts, IsRequested}
use integrado_web_xd.Prelude.{
  ℕ, ◌+◌, ◌≡◌, ◌⊎◌, Option-cases, Bool-cases, leb, length, or_else, String, Bool, true, not, Option,
  none, some, List, [], ◌∷◌, ◌++◌, map, ltb, if◌then◌else◌, ◌==◌, eq_iff, keep, update_where,
}
use integrado_web_xd.Orders.{
  Order, Payment, Store, closed, Error, key_error, permission_error, value_error, runtime_error,
  Result, ok, failed, StoredOrder, in_order, is_final, get_by_uuid,
}
use integrado_web_xd.Orders.Editing.{
  LocalOrderCloseRequest, LocalOrderPaymentCreate, paid, join_methods, join_methods, payment_row,
  write_close,
}

-- `close_order` after its checks of the permission and of the order.
abbrev pay_and_close :
    ℕ
    → String
    → String
    → Order
    → Store
    → Result (List LocalOrderPaymentCreate)
    → Store × Result StoredOrder
pay_and_close now e u o s n = elim n [
  | failed error ↦ (s, failed error)
  | ok payments ↦
      if ltb (paid payments) o.total_amount
      then (s, failed (value_error "Valor pago menor que o total da comanda."))
      else write_close now e u payments s
]

-- What must not hold for an order to be closed, with the exception that it raises, in the order in
-- which it counts.
abbrev pub payment_obstacles : LocalOrderCloseRequest → Order → List (Bool × Error)
payment_obstacles p o =
    (leb (length (requested p)) 0, value_error "Informe pagamento unico ou lista de pagamentos.")
    ∷ (
      ltb (sum_amounts (requested p)) o.total_amount,
      value_error "Valor pago menor que o total da comanda.",
    )
    ∷ []

abbrev pub obstacles : Bool → String → LocalOrderCloseRequest → Option Order → List (Bool × Error)
obstacles allowed u p none =
    (not allowed, permission_error "Permissao negada: order.close") ∷ (true, key_error u) ∷ []
obstacles allowed u p (some o) =
    (not allowed, permission_error "Permissao negada: order.close")
    ∷ (is_final o.status, runtime_error "Comanda fechada ou cancelada nao pode ser alterada.")
    ∷ payment_obstacles p o

abbrev pub first_obstacle : List (Bool × Error) → Option Error
first_obstacle [] = none
first_obstacle (x ∷ xs) = let later = first_obstacle xs in if x.0 then some x.1 else later

-- The answer `r` to a request in the store `s`: the exception, with the store as it was, or the order
-- closed.
abbrev pub Answer :
    ℕ
    → String
    → String
    → LocalOrderCloseRequest
    → Store
    → Store × Result StoredOrder
    → Option Error
    → Option Order
    → Type 0
Answer now e u p s r (some error) o = r ≡ (s, failed error)
Answer now e u p s r none none = ⊥
Answer now e u p s r none (some o) =
    (c : StoredOrder) × (r.1 ≡ ok c)
    × (get_by_uuid e u r.0 ≡ ok c)
    × (c.order ≡ record o {
      status = closed;
      payment_method = c.order.payment_method;
      amount_paid = some (sum_amounts (requested p));
      closed_at = some now;
      updated_at = now;
    })
    × (c.items ≡ keep (in_order u) s.items)
    × (map row_pair c.payments ≡ requested p)
    × (keep (λ q. not (q.order_uuid == u)) r.0.payments
        ≡ keep (λ q. not (q.order_uuid == u)) s.payments)
