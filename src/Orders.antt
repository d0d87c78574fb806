-- ===== src/Orders.antt =====
-- agent_local/orders/repository.py: the tables of the local orders as lists of rows in the order of
-- their ids, and the checks and reads that its methods share. The requests have passed the
-- validators of agent_local/orders/schemas.py.
-- An amount is in cents, see Orders/Money. Every method is one step and reads the clock once, where
-- the source reads it anew for each statement. The fields of a StoredOrder are the row of the order
-- with the rows of its items and payments.
mod Tables
pub mod Money
pub mod Editing
pub mod Accounts
pub mod Operators
pub mod Requests
pub mod Invariant
pub mod Frozen
pub mod Tenants
pub mod Closing
pub mod Balance
pub mod Sessions
pub mod Outbox
mod Tests
pub use Tables.*
use integrado_web_xd.Prelude.{
  ℕ, zero, suc, ◌+◌, ◌≡◌, refl, String, Bool, true, false, ◌&&◌, ◌||◌, not, Option, none, some,
  List, [], ◌∷◌, ◌++◌, nat_eq, if◌then◌else◌, ◌==◌, keep, first_where, update_where,
}

abbrev pub has_uuid : String → Order → Bool
has_uuid u o = o.uuid == u

abbrev pub is_of : String → String → Order → Bool
is_of empresa_id order_uuid o = o.empresa_id == empresa_id && o.uuid == order_uuid

abbrev pub in_order : String → Item → Bool
in_order u i = i.order_uuid == u

abbrev pub is_final : Status → Bool
is_final draft = false
is_final closed = true
is_final cancelled = true

-- Python's truth of an optional text.
abbrev pub given : Option String → Option String
given none = none
given (some s) = if s == "" then none else some s

abbrev pub given_id : Option ℕ → Option ℕ
given_id none = none
given_id (some n) = if nat_eq n 0 then none else some n

unfoldable pub get_by_uuid : String → String → Store → Result StoredOrder
get_by_uuid empresa_id order_uuid s = elim (first_where (is_of empresa_id order_uuid) s.orders) [
  | none ↦ failed (key_error order_uuid)
  | some o ↦ ok (record {
    order = o;
    items = keep (in_order order_uuid) s.items;
    payments = keep (λ p. p.order_uuid == order_uuid) s.payments;
  })
]

-- `_ensure_order_editable`: the exception it raises.
unfoldable pub ensure_order_editable : String → String → Store → Option Error
ensure_order_editable empresa_id order_uuid s =
    elim (first_where (is_of empresa_id order_uuid) s.orders) [
      | none ↦ some (key_error order_uuid)
      | some o ↦
          if is_final o.status
          then some (runtime_error "Comanda fechada ou cancelada nao pode ser alterada.")
          else none
    ]

-- `SUM(line_total)` of an order, rounded to cents. SQLite adds floating-point numbers; the sum here is
-- exact, which is the same as long as their error stays below half a cent.
abbrev pub total_of : String → List Item → ℕ
total_of u [] = 0
total_of u (i ∷ items) =
    let rest = total_of u items in if i.order_uuid == u then i.line_total + rest else rest

-- `_recalculate_total`
unfoldable pub recalculate_total : ℕ → String → Store → Store
recalculate_total now order_uuid s = record s {
  orders =
      update_where (has_uuid order_uuid)
        (λ o. record o { total_amount = total_of order_uuid s.items; updated_at = now }) s.orders;
}

abbrev pub outbox_event : ℕ → String → String → OutboxEvent
outbox_event now order_uuid event_type = record {
  order_uuid = order_uuid;
  event_type = event_type;
  sync_status = unsent;
  created_at = now;
  synced_at = none;
}

-- `list_permissions(operator_code).get(permission, False)`: what the row of the operator says, and
-- the defaults where there is none.
unfoldable pub is_allowed : String → String → List Permission → Bool
is_allowed operator_code permission [] =
    permission == "order.create"
    || permission == "order.close"
    || permission == "order.void"
    || permission == "order.transfer"
    || permission == "order.partial_payment"
    || permission == "order.discount"
    || permission == "order.print"
    || permission == "order.messages"
    || permission == "technical.admin"
is_allowed operator_code permission (row ∷ rows) =
    let rest = is_allowed operator_code permission rows in
    if row.operator_code == operator_code && row.permission == permission then row.allowed else rest
