-- ===== src/Orders/Tests.antt =====
-- A table with two orders, and the theorems applied to it.
use integrado_web_xd.Prelude.{
  ℕ, ◌+◌, ◌≡◌, refl, String, Bool, true, false, ◌⊎◌, Option, none, some, List, [], ◌∷◌, ◌++◌, map,
  keep, ◌==◌,
}
use integrado_web_xd.Orders.{
  Order, Item, Store, Status, draft, closed, unsent, Result, ok, failed, StoredOrder,
  StoredOrderSession, Operator, outbox_event, get_by_uuid, runtime_error, value_error, is_of,
  is_allowed, is_final,
}
use integrado_web_xd.Orders.Money.{line_money, percent_money, padded}
use integrado_web_xd.Orders.Editing.{LocalOrderItemCreate, LocalOrderCreate, LocalOrderCloseRequest}
use integrado_web_xd.Orders.Accounts.{
  LocalOrderPartialPaymentRequest, Summary, order_financial_summary, record_partial_payment,
  mark_order_synced,
}
use integrado_web_xd.Orders.Operators.{authenticate_operator, get_session, hours}
use integrado_web_xd.Orders.Requests.{
  Request, start, edit, add, cancel, remove, sync, run_all, run_edit,
}
use integrado_web_xd.Orders.Invariant.{IsSound}
use integrado_web_xd.Orders.Invariant.Calls.{run_all-IsSound}
use integrado_web_xd.Orders.Frozen.{IsSameOrder}
use integrado_web_xd.Orders.Frozen.Calls.{run_all-IsSameOrder}
use integrado_web_xd.Orders.Tenants.{of_tenant}
use integrado_web_xd.Orders.Tenants.Calls.{run_all-tenants}
use integrado_web_xd.Orders.Balance.{record_partial_payment-remaining}
use integrado_web_xd.Orders.Sessions.{get_session-authenticate_operator}
use integrado_web_xd.Orders.Outbox.{run_edit-atomic}

line_money_runs : map (line_money 1500) (33333 ∷ 30 ∷ 100 ∷ []) ≡ 500 ∷ 0 ∷ 2 ∷ []
unfolding line_money
line_money_runs = refl

percent_money_runs : percent_money 1999 1000 ≡ 200
unfolding percent_money
percent_money_runs = refl

padded_runs : map padded (7 ∷ 42 ∷ 1234 ∷ []) ≡ "007" ∷ "042" ∷ "1234" ∷ []
padded_runs = refl

abbrev operator : Operator
operator = record { code = "1"; name = "Ana"; password_hash = some "h"; active = true }

abbrev no_orders : Store
no_orders = record {
  orders = [];
  items = [];
  next_item_id = 1;
  outbox = [];
  payments = [];
  partial_payments = [];
  discounts = [];
  voids = [];
  transfers = [];
  operation_logs = [];
  operators = operator ∷ [];
  sessions = [];
  permissions = [];
}

abbrev line : String → ℕ → ℕ → LocalOrderItemCreate
line code quantity unit_price = record {
  product_code = code;
  description = code;
  quantity = quantity;
  unit_price = unit_price;
  notes = none;
}

abbrev order : List LocalOrderItemCreate → LocalOrderCreate
order items = record {
  command_number = none;
  people_count = none;
  table_reference = none;
  operator_code = none;
  operator_name = none;
  customer_name = none;
  notes = none;
  items = items;
}

abbrev session : StoredOrderSession
session = record { token = "t"; operator_code = "1"; operator_name = "Ana"; expires_at = 99 }

abbrev cash : ℕ → LocalOrderCloseRequest
cash amount = record { payment_method = some "cash"; amount_paid = some amount; payments = none }

abbrev calls : List (ℕ × Request)
calls =
    (1, start "111" "u1" (order (line "a" 2000 15000 ∷ line "b" 1000 5000 ∷ [])))
    ∷ (2, start "222" "u2" (order (line "a" 1000 10000 ∷ [])))
    ∷ (3, edit "111" "u1" (add (line "a" 1000 20000)))
    ∷ []

empty-IsSound : IsSound no_orders
empty-IsSound = record { priced = refl; totalled = refl; owned = refl; distinct = refl }

run_all-IsSound_example : IsSound (run_all calls no_orders)
run_all-IsSound_example = run_all-IsSound calls no_orders empty-IsSound

-- A row as `create` and `close_order` write them.
abbrev row : String → Status → Option ℕ → Order
row u status amount_paid = record {
  uuid = u;
  empresa_id = "111";
  command_number = "001";
  people_count = none;
  table_reference = none;
  operator_code = none;
  operator_name = none;
  customer_name = none;
  status = status;
  sync_status = unsent;
  total_amount = 300;
  payment_method = none;
  amount_paid = amount_paid;
  closed_at = none;
  cancel_reason = none;
  notes = none;
  created_at = 1;
  updated_at = 1;
}

abbrev line_of : String → ℕ → Item
line_of u id = record {
  id = id;
  order_uuid = u;
  product_code = "a";
  description = "a";
  quantity = 2000;
  unit_price = 15000;
  line_total = 300;
  notes = none;
}

abbrev store : Status → Store
store status = record no_orders {
  orders = row "u1" status none ∷ row "u2" draft none ∷ [];
  items = line_of "u1" 1 ∷ line_of "u2" 2 ∷ [];
  next_item_id = 3;
}

store-IsSound : IsSound (store closed)
unfolding line_money
store-IsSound = record { priced = refl; totalled = refl; owned = refl; distinct = refl }

run_all-IsSameOrder_example : IsSameOrder "u1" (store closed) (
    run_all
      ((5, edit "111" "u1" (cancel none)) ∷ (6, edit "111" "u2" (remove 2)) ∷ (7, sync "u1") ∷ [])
      (store closed))
run_all-IsSameOrder_example =
    run_all-IsSameOrder
      ((5, edit "111" "u1" (cancel none)) ∷ (6, edit "111" "u2" (remove 2)) ∷ (7, sync "u1") ∷ [])
      "u1" (store closed) store-IsSound refl

abbrev payment : ℕ → LocalOrderPartialPaymentRequest
payment amount = record {
  order_uuid = some "u1";
  command_number = none;
  payment_method = "cash";
  amount = amount;
  selected_item_ids = none;
}

abbrev summary : Summary
summary = record {
  order = record { order = row "u1" draft none; items = line_of "u1" 1 ∷ []; payments = [] };
  subtotal = 300;
  discounts = 0;
  partial_payments = 0;
  total = 300;
  remaining = 300;
}

summary_runs : order_financial_summary "111" (some "u1") none (store draft) ≡ ok summary
unfolding order_financial_summary integrado_web_xd.Orders.Accounts.resolve_order
summary_runs = refl

record_partial_payment-remaining_example :
    (record_partial_payment 9 "111" session (payment 120) (store draft)).1
    ≡ ok (record summary { partial_payments = 120; remaining = 180 })
record_partial_payment-remaining_example =
    record_partial_payment-remaining 9 "111" session (payment 120) (store draft) summary
      (unfold is_allowed in refl) summary_runs refl

abbrev verify : String → Option String → Bool
verify password none = false
verify password (some h) = password == h

abbrev logged_in : StoredOrderSession
logged_in = record {
  token = "t";
  operator_code = "1";
  operator_name = "Ana";
  expires_at = 5 + hours 12;
}

login_runs : (authenticate_operator verify 5 "t" "1" "h" 12 no_orders).1 ≡ ok logged_in
unfolding authenticate_operator
login_runs = refl

get_session-authenticate_operator_example :
    get_session 6 "t" (authenticate_operator verify 5 "t" "1" "h" 12 no_orders).0 ≡ some logged_in
get_session-authenticate_operator_example =
    get_session-authenticate_operator verify 5 "t" "1" "h" 12 no_orders logged_in login_runs 6

abbrev sent : Store
sent = record (store draft) {
  outbox = outbox_event 1 "u1" "order.created" ∷ outbox_event 1 "u2" "order.created" ∷ [];
}

run_edit-atomic_example :
    (run_edit 9 "111" "u1" (remove 1) (store draft) ≡ store draft)
    ⊎ ((event_type : String) × ((run_edit 9 "111" "u1" (remove 1) (store draft)).outbox
          ≡ [] ++ outbox_event 9 "u1" event_type ∷ []))
run_edit-atomic_example = run_edit-atomic 9 "111" "u1" (store draft) (remove 1)

abbrev foreign_calls : List (ℕ × Request)
foreign_calls =
    (5, start "222" "u9" (order (line "a" 1000 10000 ∷ [])))
    ∷ (6, edit "222" "u1" (cancel none))
    ∷ (7, edit "222" "u9" (cancel none))
    ∷ []

run_all-tenants_example :
    keep (of_tenant "111") (run_all foreign_calls (store closed)).orders
    ≡ keep (of_tenant "111") (store closed).orders
run_all-tenants_example = run_all-tenants foreign_calls "111" (store closed) store-IsSound refl
