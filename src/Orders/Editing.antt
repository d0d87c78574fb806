-- ===== src/Orders/Editing.antt =====
-- The methods of LocalOrderRepository that write orders and items: create, add_item, clear_items,
-- update_item, remove_item, close_order and cancel_order. An exception leaves the tables as they
-- are: what precedes it only reads, or the connection is dropped without a commit.
mod Payments
unfoldable pub use Payments.*
use integrado_web_xd.Prelude.{
  ℕ, suc, ◌+◌, String, Bool, ◌&&◌, not, Option, none, some, List, [], ◌∷◌, ◌++◌, map, nat_eq, leb,
  ltb, if◌then◌else◌, ◌==◌, keep, first_where, update_where, length, any, or_else, count,
}
use Prim.Native.String
use integrado_web_xd.Orders.{
  Order, Item, Payment, Operator, Store, draft, closed, cancelled, unsent, value_error,
  permission_error, integrity_error, missing_item, Result, ok, failed, StoredOrder,
  StoredOrderSession, has_uuid, in_order, given, is_of, get_by_uuid, ensure_order_editable,
  recalculate_total, outbox_event, is_allowed,
}
use integrado_web_xd.Orders.Money.{line_money, padded}

pub record LocalOrderItemCreate : Type 0 where
  pub product_code : String
  pub description : String
  pub quantity : ℕ
  pub unit_price : ℕ
  pub notes : Option String

pub record LocalOrderItemUpdate : Type 0 where
  pub quantity : Option ℕ
  pub unit_price : Option ℕ
  pub notes : Option String

pub record LocalOrderCreate : Type 0 where
  pub command_number : Option String
  pub people_count : Option ℕ
  pub table_reference : Option String
  pub operator_code : Option String
  pub operator_name : Option String
  pub customer_name : Option String
  pub notes : Option String
  pub items : List LocalOrderItemCreate

-- `_next_command_number`
unfoldable pub next_command_number : String → List Order → String
next_command_number empresa_id orders = padded (count (λ o. o.empresa_id == empresa_id) orders + 1)

-- `get_operator`, and the name that `create` takes of it.
unfoldable pub operator_name : LocalOrderCreate → List Operator → Option String
operator_name payload operators = elim (given payload.operator_code) [
  | none ↦ payload.operator_name
  | some code ↦ elim (first_where (λ o. o.code == code && o.active) operators) [
    | none ↦ payload.operator_name
    | some o ↦ some o.name
  ]
]

-- The row of an item, with the id that the table gives it.
unfoldable pub new_item : String → ℕ → LocalOrderItemCreate → Item
new_item order_uuid id i = record {
  id = id;
  order_uuid = order_uuid;
  product_code = i.product_code;
  description = i.description;
  quantity = i.quantity;
  unit_price = i.unit_price;
  line_total = line_money i.quantity i.unit_price;
  notes = i.notes;
}

unfoldable pub new_items : String → ℕ → List LocalOrderItemCreate → List Item
unfolding new_item
new_items order_uuid id [] = []
new_items order_uuid id (i ∷ items) = new_item order_uuid id i ∷ new_items order_uuid (suc id) items

-- The loop of `create` over the lines.
unfoldable pub order_total : List LocalOrderItemCreate → ℕ
order_total [] = 0
order_total (i ∷ items) = line_money i.quantity i.unit_price + order_total items

-- `uuid4()` gives the uuid; a uuid that is there breaks the UNIQUE constraint.
unfoldable pub create : ℕ → String → String → LocalOrderCreate → Store → Store × Result StoredOrder
unfolding get_by_uuid
create now order_uuid empresa_id payload s =
    if any (has_uuid order_uuid) s.orders
    then (s, failed (integrity_error "UNIQUE constraint failed: local_orders.uuid"))
    else (let s' = record s {
      orders =
          s.orders
          ++ record {
            uuid = order_uuid;
            empresa_id = empresa_id;
            command_number =
                or_else (given payload.command_number) (next_command_number empresa_id s.orders);
            people_count = payload.people_count;
            table_reference = payload.table_reference;
            operator_code = payload.operator_code;
            operator_name = operator_name payload s.operators;
            customer_name = payload.customer_name;
            status = draft;
            sync_status = unsent;
            total_amount = order_total payload.items;
            payment_method = none;
            amount_paid = none;
            closed_at = none;
            cancel_reason = none;
            notes = payload.notes;
            created_at = now;
            updated_at = now;
          }
            ∷ [];
      items = s.items ++ new_items order_uuid s.next_item_id payload.items;
      next_item_id = s.next_item_id + length payload.items;
      outbox = s.outbox ++ outbox_event now order_uuid "order.created" ∷ [];
    } in
        (s', get_by_uuid empresa_id order_uuid s'))

-- The end that the edits of items share: the event, `_recalculate_total`, and the order read back.
unfoldable pub settle :
    ℕ → String → String → String → List Item → Store → Store × Result StoredOrder
unfolding recalculate_total get_by_uuid
settle now empresa_id order_uuid event_type items s =
    let s' = recalculate_total now order_uuid (record s {
      items = items;
      outbox = s.outbox ++ outbox_event now order_uuid event_type ∷ [];
    }) in
    (s', get_by_uuid empresa_id order_uuid s')

-- `product_code = ? AND COALESCE(notes, '') = COALESCE(?, '')`, in the order.
abbrev pub same_line : String → LocalOrderItemCreate → Item → Bool
same_line order_uuid i row =
    row.order_uuid == order_uuid
    && row.product_code == i.product_code
    && or_else row.notes "" == or_else i.notes ""

abbrev pub is_item : ℕ → String → Item → Bool
is_item item_id order_uuid row = nat_eq row.id item_id && row.order_uuid == order_uuid

unfoldable pub add_item :
    ℕ → String → String → LocalOrderItemCreate → Store → Store × Result StoredOrder
unfolding settle
add_item now empresa_id order_uuid payload s =
    elim (ensure_order_editable empresa_id order_uuid s) [
      | some error ↦ (s, failed error)
      | none ↦ elim (first_where (same_line order_uuid payload) s.items) [
        | some existing ↦
            let quantity = existing.quantity + payload.quantity in
            settle now empresa_id order_uuid "order.item.added"
              (update_where (is_item existing.id order_uuid)
                (λ row. record row {
                  quantity = quantity;
                  unit_price = payload.unit_price;
                  line_total = line_money quantity payload.unit_price;
                })
                s.items)
              s
        | none ↦
            settle now empresa_id order_uuid "order.item.added"
              (s.items ++ new_item order_uuid s.next_item_id payload ∷ [])
              (record s { next_item_id = s.next_item_id + 1 })
      ]
    ]

unfoldable pub clear_items : ℕ → String → String → Store → Store × Result StoredOrder
unfolding settle
clear_items now empresa_id order_uuid s = elim (ensure_order_editable empresa_id order_uuid s) [
  | some error ↦ (s, failed error)
  | none ↦
      settle now empresa_id order_uuid "order.items.cleared"
        (keep (λ row. not (row.order_uuid == order_uuid)) s.items) s
]

unfoldable pub update_item :
    ℕ → String → String → ℕ → LocalOrderItemUpdate → Store → Store × Result StoredOrder
unfolding settle
update_item now empresa_id order_uuid item_id payload s =
    elim (ensure_order_editable empresa_id order_uuid s) [
      | some error ↦ (s, failed error)
      | none ↦ elim (first_where (is_item item_id order_uuid) s.items) [
        | none ↦ (s, failed (missing_item item_id))
        | some row ↦
            let quantity = or_else payload.quantity row.quantity in
            let unit_price = or_else payload.unit_price row.unit_price in
            let notes : Option String = elim payload.notes [ none ↦ row.notes | some n ↦ some n ] in
            settle now empresa_id order_uuid "order.item.updated"
              (update_where (is_item item_id order_uuid)
                (λ r. record r {
                  quantity = quantity;
                  unit_price = unit_price;
                  line_total = line_money quantity unit_price;
                  notes = notes;
                })
                s.items)
              s
      ]
    ]

unfoldable pub remove_item : ℕ → String → String → ℕ → Store → Store × Result StoredOrder
unfolding settle
remove_item now empresa_id order_uuid item_id s =
    elim (ensure_order_editable empresa_id order_uuid s) [
      | some error ↦ (s, failed error)
      | none ↦
          let removed =
            settle now empresa_id order_uuid "order.item.removed"
              (keep (λ row. not (is_item item_id order_uuid row)) s.items) s in
          if leb (count (in_order order_uuid) s.items) 1
          then (s, failed (value_error "Comanda deve manter pelo menos um item."))
          else if any (is_item item_id order_uuid) s.items
          then removed
          else (s, failed (missing_item item_id))
    ]

-- The transaction of `close_order`.
unfoldable pub write_close :
    ℕ → String → String → List LocalOrderPaymentCreate → Store → Store × Result StoredOrder
unfolding get_by_uuid
write_close now empresa_id order_uuid payments s =
    let s' = record s {
      payments =
          keep (λ p. not (p.order_uuid == order_uuid)) s.payments
          ++ map (payment_row now order_uuid) payments;
      orders =
          update_where (is_of empresa_id order_uuid)
            (λ o. record o {
              status = closed;
              payment_method = some (join_methods [] payments);
              amount_paid = some (paid payments);
              closed_at = some now;
              updated_at = now;
            })
            s.orders;
      outbox = s.outbox ++ outbox_event now order_uuid "order.closed" ∷ [];
    } in
    (s', get_by_uuid empresa_id order_uuid s')

unfoldable pub close_order :
    ℕ
    → String
    → String
    → LocalOrderCloseRequest
    → StoredOrderSession
    → Store
    → Store × Result StoredOrder
unfolding write_close
close_order now empresa_id order_uuid payload session s =
    if is_allowed session.operator_code "order.close" s.permissions
    then elim (ensure_order_editable empresa_id order_uuid s) [
      | some error ↦ (s, failed error)
      | none ↦ elim (get_by_uuid empresa_id order_uuid s) [
        | failed error ↦ (s, failed error)
        | ok stored ↦ elim (normalize_close_payments payload) [
          | failed error ↦ (s, failed error)
          | ok payments ↦
              if ltb (paid payments) stored.order.total_amount
              then (s, failed (value_error "Valor pago menor que o total da comanda."))
              else write_close now empresa_id order_uuid payments s
        ]
      ]
    ]
    else (s, failed (permission_error "Permissao negada: order.close"))

unfoldable pub cancel_order :
    ℕ → String → String → Option String → Store → Store × Result StoredOrder
unfolding get_by_uuid
cancel_order now empresa_id order_uuid reason s =
    elim (ensure_order_editable empresa_id order_uuid s) [
      | some error ↦ (s, failed error)
      | none ↦
          let s' = record s {
            orders =
                update_where (is_of empresa_id order_uuid)
                  (λ o. record o { status = cancelled; cancel_reason = reason; updated_at = now })
                  s.orders;
            outbox = s.outbox ++ outbox_event now order_uuid "order.cancelled" ∷ [];
          } in
          (s', get_by_uuid empresa_id order_uuid s')
    ]
