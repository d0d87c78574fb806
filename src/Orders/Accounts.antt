-- ===== src/Orders/Accounts.antt =====
-- The methods of LocalOrderRepository on the account of an order and on its way to the ERP:
-- resolve_order, order_financial_summary, record_partial_payment, apply_discount,
-- void_order_or_item, transfer_order and mark_order_synced.
-- A method that raises keeps what it committed before, so its result stands beside the store.
mod Payloads
pub use Payloads.*
use integrado_web_xd.Prelude.{
  ℕ, ◌+◌, ◌-◌, String, Bool, true, false, ◌&&◌, ◌||◌, Option, none, some, List, [], ◌∷◌, ◌++◌, ltb,
  if◌then◌else◌, ◌==◌, update_where, or_else, is_some,
}
use integrado_web_xd.Orders.{
  Order, PartialPayment, Discount, DiscountType, fixed, percent, TransferType, item, LogEntry,
  Store, unsent, synced, Error, key_error, value_error, permission_error, Result, ok, failed,
  StoredOrder, StoredOrderSession, has_uuid, is_of, given, given_id, get_by_uuid, is_allowed,
}
use integrado_web_xd.Orders.Money.{percent_money}
use integrado_web_xd.Orders.Editing.{remove_item, cancel_order}

-- `ORDER BY created_at DESC, id DESC LIMIT 1` among the rows that pass, where a later row has the
-- higher id: a later row wins if it is not older.
unfoldable pub latest_where : (Order → Bool) → List Order → Option Order
latest_where p [] = none
latest_where p (o ∷ orders) =
    let rest = latest_where p orders in
    if p o
    then elim rest [
      | none ↦ some o
      | some r ↦ if ltb r.created_at o.created_at then some o else some r
    ]
    else rest

unfoldable pub get_by_command_number : String → String → Store → Result StoredOrder
unfolding latest_where get_by_uuid
get_by_command_number empresa_id command_number s =
    elim (latest_where (λ o. o.empresa_id == empresa_id && o.command_number == command_number)
      s.orders) [
        | none ↦ failed (key_error command_number)
        | some o ↦ get_by_uuid empresa_id o.uuid s
      ]

unfoldable pub resolve_order : String → Option String → Option String → Store → Result StoredOrder
unfolding get_by_command_number
resolve_order empresa_id order_uuid command_number s = elim (given order_uuid) [
  | some u ↦ get_by_uuid empresa_id u s
  | none ↦ elim (given command_number) [
    | some c ↦ get_by_command_number empresa_id c s
    | none ↦ failed (value_error "Informe comanda.")
  ]
]

abbrev pub discounts_of : String → List Discount → ℕ
discounts_of u [] = 0
discounts_of u (d ∷ discounts) =
    let rest = discounts_of u discounts in if d.order_uuid == u then d.amount + rest else rest

abbrev pub partial_payments_of : String → List PartialPayment → ℕ
partial_payments_of u [] = 0
partial_payments_of u (p ∷ payments) =
    let rest = partial_payments_of u payments in if p.order_uuid == u then p.amount + rest else rest

-- The figures of the summary; `max(_, 0)` is the subtraction that stops at 0.
unfoldable pub summary_of : StoredOrder → Store → Summary
summary_of o s =
    let discounts = discounts_of o.order.uuid s.discounts in
    let partial_payments = partial_payments_of o.order.uuid s.partial_payments in
    let total = o.order.total_amount - discounts in
    record {
      order = o;
      subtotal = o.order.total_amount;
      discounts = discounts;
      partial_payments = partial_payments;
      total = total;
      remaining = total - partial_payments;
    }

unfoldable pub order_financial_summary :
    String → Option String → Option String → Store → Result Summary
unfolding summary_of
order_financial_summary empresa_id order_uuid command_number s =
    elim (resolve_order empresa_id order_uuid command_number s) [
      | failed error ↦ failed error
      | ok o ↦ ok (summary_of o s)
    ]

abbrev log_entry :
    ℕ → String → StoredOrderSession → String → Order → Option ℕ → Option String → LogEntry
log_entry now empresa_id session operation_type o item_id reason = record {
  empresa_id = empresa_id;
  operator_code = session.operator_code;
  operator_name = session.operator_name;
  operation_type = operation_type;
  order_uuid = o.uuid;
  command_number = o.command_number;
  item_id = item_id;
  reason = reason;
  created_at = now;
}

-- `log_operation`
unfoldable pub log_operation :
    ℕ → String → StoredOrderSession → String → Order → Option ℕ → Option String → Store → Store
log_operation now empresa_id session operation_type o item_id reason s = record s {
  operation_logs =
      s.operation_logs ++ log_entry now empresa_id session operation_type o item_id reason ∷ [];
}

unfoldable pub record_partial_payment :
    ℕ
    → String
    → StoredOrderSession
    → LocalOrderPartialPaymentRequest
    → Store
    → Store × Result Summary
unfolding log_operation order_financial_summary
record_partial_payment now empresa_id session payload s =
    if is_allowed session.operator_code "order.partial_payment" s.permissions
    then elim (resolve_order empresa_id payload.order_uuid payload.command_number s) [
      | failed error ↦ (s, failed error)
      | ok stored ↦
          let s' =
            log_operation now empresa_id session "partial_payment" stored.order none none
              (record s {
                partial_payments =
                    s.partial_payments
                    ++ record {
                      order_uuid = stored.order.uuid;
                      operator_code = session.operator_code;
                      payment_method = payload.payment_method;
                      amount = payload.amount;
                      selected_item_ids = or_else payload.selected_item_ids [];
                      created_at = now;
                    }
                      ∷ [];
              }) in
          (s', order_financial_summary empresa_id (some stored.order.uuid) none s')
    ]
    else (s, failed (permission_error "Permissao negada: order.partial_payment"))

unfoldable pub discount_amount : DiscountType → ℕ → ℕ → ℕ
discount_amount percent total_amount value = percent_money total_amount value
discount_amount fixed total_amount value = value

unfoldable pub apply_discount :
    ℕ → String → StoredOrderSession → LocalOrderDiscountRequest → Store → Store × Result Summary
unfolding log_operation order_financial_summary discount_amount
apply_discount now empresa_id session payload s =
    if is_allowed session.operator_code "order.discount" s.permissions
    then elim (resolve_order empresa_id payload.order_uuid payload.command_number s) [
      | failed error ↦ (s, failed error)
      | ok stored ↦
          let amount =
            discount_amount payload.discount_type stored.order.total_amount payload.value in
          let s' =
            log_operation now empresa_id session "discount" stored.order none (some payload.reason)
              (record s {
                discounts =
                    s.discounts
                    ++ record {
                      order_uuid = stored.order.uuid;
                      operator_code = session.operator_code;
                      discount_type = payload.discount_type;
                      value = payload.value;
                      amount = amount;
                      reason = payload.reason;
                      created_at = now;
                    }
                      ∷ [];
              }) in
          if ltb stored.order.total_amount amount
          then (s, failed (value_error "Desconto maior que o subtotal da comanda."))
          else (s', order_financial_summary empresa_id (some stored.order.uuid) none s')
    ]
    else (s, failed (permission_error "Permissao negada: order.discount"))

-- The void itself: an item is removed, or the order is cancelled.
unfoldable pub void_target :
    ℕ → String → Order → Option ℕ → String → Store → Store × Result StoredOrder
void_target now empresa_id o item_id reason s = elim (given_id item_id) [
  | some id ↦ remove_item now empresa_id o.uuid id s
  | none ↦ cancel_order now empresa_id o.uuid (some reason) s
]

-- The void is committed to its table before the order is changed, and stays if that raises.
unfoldable pub void_order_or_item :
    ℕ
    → String
    → StoredOrderSession
    → LocalOrderOperationRequest
    → Store
    → Store × Result StoredOrder
unfolding log_operation void_target
void_order_or_item now empresa_id session payload s =
    if is_allowed session.operator_code "order.void" s.permissions
    then elim (given payload.reason) [
      | none ↦ (s, failed (value_error "Motivo da anulacao obrigatorio."))
      | some reason ↦ elim (resolve_order empresa_id payload.order_uuid payload.command_number s) [
        | failed error ↦ (s, failed error)
        | ok stored ↦
            let noted = record s {
              voids =
                  s.voids
                  ++ record {
                    order_uuid = stored.order.uuid;
                    item_id = payload.item_id;
                    operator_code = session.operator_code;
                    reason = reason;
                    created_at = now;
                  }
                    ∷ [];
            } in
            let (s', result) =
              void_target now empresa_id stored.order payload.item_id reason noted in
            elim result [
              | failed error ↦ (s', failed error)
              | ok o ↦ (
                log_operation now empresa_id session "void" stored.order payload.item_id
                    (some reason) s',
                ok o,
              )
            ]
      ]
    ]
    else (s, failed (permission_error "Permissao negada: order.void"))

-- The two checks of `transfer_order`.
unfoldable pub transfer_error : LocalOrderTransferRequest → Option Error
transfer_error payload = elim payload.transfer_type [
  | item ↦
      if is_some (given_id payload.item_id) && is_some (given payload.destination_command_number)
      then none
      else some (value_error "Transferencia de item exige item e comanda destino.")
  | _ ↦
      if is_some (given payload.destination_command_number)
        || is_some (given payload.destination_table_reference)
      then none
      else some (value_error "Informe destino da transferencia.")
]

-- The UPDATE of `transfer_order`, which a transfer of an item skips.
unfoldable pub move_order :
    ℕ → String → String → LocalOrderTransferRequest → List Order → List Order
move_order now empresa_id order_uuid payload orders = elim payload.transfer_type [
  | item ↦ orders
  | _ ↦
      update_where (is_of empresa_id order_uuid)
        (λ o. record o {
          command_number = or_else payload.destination_command_number o.command_number;
          table_reference = elim payload.destination_table_reference [
            | none ↦ o.table_reference
            | some t ↦ some t
          ];
          updated_at = now;
        })
        orders
]

unfoldable pub transfer_order :
    ℕ → String → StoredOrderSession → LocalOrderTransferRequest → Store → Store × Result StoredOrder
unfolding log_operation get_by_uuid
transfer_order now empresa_id session payload s =
    if is_allowed session.operator_code "order.transfer" s.permissions
    then elim (resolve_order empresa_id payload.source_order_uuid payload.source_command_number s) [
      | failed error ↦ (s, failed error)
      | ok stored ↦ elim (transfer_error payload) [
        | some error ↦ (s, failed error)
        | none ↦
            let s' =
              log_operation now empresa_id session "transfer" stored.order payload.item_id
                (some payload.reason)
                (record s {
                  transfers =
                      s.transfers
                      ++ record {
                        source_order_uuid = stored.order.uuid;
                        source_command_number = stored.order.command_number;
                        item_id = payload.item_id;
                        destination_command_number = payload.destination_command_number;
                        destination_table_reference = payload.destination_table_reference;
                        transfer_type = payload.transfer_type;
                        operator_code = session.operator_code;
                        reason = payload.reason;
                        created_at = now;
                      }
                        ∷ [];
                  orders = move_order now empresa_id stored.order.uuid payload s.orders;
                }) in
            (s', get_by_uuid empresa_id stored.order.uuid s')
      ]
    ]
    else (s, failed (permission_error "Permissao negada: order.transfer"))

unfoldable pub mark_order_synced : ℕ → String → Store → Store
mark_order_synced now order_uuid s = record s {
  orders =
      update_where (has_uuid order_uuid) (λ o. record o { sync_status = synced; updated_at = now })
        s.orders;
  outbox =
      update_where
        (λ e. e.order_uuid == order_uuid && (elim e.sync_status [ unsent ↦ true | synced ↦ false ]))
        (λ e. record e { sync_status = synced; synced_at = some now }) s.outbox;
}
