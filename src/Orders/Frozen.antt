-- ===== src/Orders/Frozen.antt =====
-- What is settled of a closed or cancelled order, and the writes that leave it.
pub mod Edits
pub mod Calls
use integrado_web_xd.Prelude.{
  ℕ, zero, suc, ◌+◌, ◌≡◌, ◌∙◌, refl, sym, ap, String, Bool, true, false, ◌&&◌, ◌||◌, not, Option,
  none, some, List, [], ◌∷◌, ◌++◌, map, arith, nat_eq, leb, ltb, if◌then◌else◌, ◌==◌, eq_iff, keep,
  first_where, update_where, all, any, length, count, or_else, keep-update_where, keep-append,
  append-nil, Option-cases, Bool-cases, inl, inr, on_if, on_option,
}
use integrado_web_xd.Orders.{
  Order, Item, Payment, Store, Status, Error, Result, ok, failed, has_uuid, is_of, in_order,
  is_final, given, given_id, total_of, closed, cancelled, recalculate_total, get_by_uuid,
  ensure_order_editable, StoredOrder, StoredOrderSession, is_allowed, on_result, VoidEntry,
  TransferType, item, command, table,
}
use integrado_web_xd.Orders.Editing.{
  LocalOrderItemCreate, LocalOrderItemUpdate, LocalOrderCreate, LocalOrderCloseRequest,
  LocalOrderPaymentCreate, new_item, new_items, order_total, create, settle, add_item, clear_items,
  update_item, remove_item, close_order, write_close, cancel_order, is_item, same_line, paid,
  join_methods, normalize_close_payments,
}
use integrado_web_xd.Orders.Accounts.{
  Summary, record_partial_payment, apply_discount, void_order_or_item, void_target, transfer_order,
  move_order, mark_order_synced, log_operation, resolve_order, transfer_error, discount_amount,
  LocalOrderPartialPaymentRequest, LocalOrderDiscountRequest, LocalOrderOperationRequest,
  LocalOrderTransferRequest,
}
use integrado_web_xd.Orders.Requests.{
  Edit, add, clear, update, remove, close, cancel, Request, start, edit, pay, discount, void,
  transfer, sync, run_edit, run, run_all,
}
use integrado_web_xd.Orders.Invariant.{IsSound, distinct_uuids}

-- What is settled of an order's row.
pub record Seal : Type 0 where
  pub empresa_id : String
  pub status : Status
  pub total_amount : ℕ
  pub payment_method : Option String
  pub amount_paid : Option ℕ
  pub closed_at : Option ℕ
  pub cancel_reason : Option String

abbrev pub seal : Order → Seal
seal o = record {
  empresa_id = o.empresa_id;
  status = o.status;
  total_amount = o.total_amount;
  payment_method = o.payment_method;
  amount_paid = o.amount_paid;
  closed_at = o.closed_at;
  cancel_reason = o.cancel_reason;
}

abbrev pub seal_of : String → List Order → Option Seal
seal_of u [] = none
seal_of u (o ∷ orders) = let rest = seal_of u orders in if o.uuid == u then some (seal o) else rest

abbrev pub is_sealed : Option Seal → Bool
is_sealed none = false
is_sealed (some x) = is_final x.status

abbrev pub pays : String → Payment → Bool
pays u p = p.order_uuid == u

-- Two stores agree on the seal, the items and the payments of an order.
abbrev pub IsSameOrder : String → Store → Store → Type 0
IsSameOrder u s s' =
    (seal_of u s'.orders ≡ seal_of u s.orders)
    × (keep (in_order u) s'.items ≡ keep (in_order u) s.items)
    × (keep (pays u) s'.payments ≡ keep (pays u) s.payments)

any-found :
    (e u : String) (os : List Order) (o : Order)
    → first_where (is_of e u) os ≡ some o
    → any (has_uuid u) os ≡ true
any-found e u [] o k = cc
any-found e u (x ∷ os) o k = ground (arith, any-found e u os o)

found-final :
    (e u : String) (os : List Order) (o : Order)
    → distinct_uuids os ≡ true
    → is_sealed (seal_of u os) ≡ true
    → first_where (is_of e u) os ≡ some o
    → is_final o.status ≡ true
found-final e u [] o d h k = cc
found-final e u (x ∷ os) o d h k =
    ground (arith, found-final e u os o, any-found e u os o, eq_iff x.uuid u)

-- A sealed order is not editable.
pub editable-open :
    (e u : String) (s : Store)
    → distinct_uuids s.orders ≡ true
    → is_sealed (seal_of u s.orders) ≡ true
    → ensure_order_editable e u s ≡ none
    → ⊥
unfolding ensure_order_editable
editable-open e u s d h k = elim (Option-cases (first_where (is_of e u) s.orders)) [
  | inl missing ↦ ground arith
  | inr (o, found) ↦ ground (arith, found-final e u s.orders o d h found)
]

-- Writes to other orders, and writes that keep the seal.
pub seal_of-apart :
    (u : String) (p : Order → Bool) (f : Order → Order) (os : List Order)
    → ((o : Order) → p o ≡ true → (o.uuid == u) ≡ false)
    → ((o : Order) → (f o).uuid ≡ o.uuid)
    → seal_of u (update_where p f os) ≡ seal_of u os
seal_of-apart u p f [] h same = refl
seal_of-apart u p f (o ∷ os) h same = ground (arith, seal_of-apart u p f os h same, h o, same o)

pub seal_of-keeps :
    (u : String) (p : Order → Bool) (f : Order → Order) (os : List Order)
    → ((o : Order) → seal (f o) ≡ seal o)
    → ((o : Order) → (f o).uuid ≡ o.uuid)
    → seal_of u (update_where p f os) ≡ seal_of u os
seal_of-keeps u p f [] h same = refl
seal_of-keeps u p f (o ∷ os) h same = ground (arith, seal_of-keeps u p f os h same, h o, same o)

pub keep-keep :
    {A : Type 0} (q p : A → Bool) (xs : List A)
    → ((x : A) → q x ≡ true → p x ≡ true)
    → keep q (keep p xs) ≡ keep q xs
keep-keep q p [] h = refl
keep-keep q p (x ∷ xs) h = ground (arith, keep-keep q p xs h, h x)

module _ (now : ℕ) (e u u' : String) (s : Store) (apart : (u' == u) ≡ false) where
  pub settle-apart :
      (event : String) (items : List Item) (n : ℕ)
      → keep (in_order u) items ≡ keep (in_order u) s.items
      → IsSameOrder u s (settle now e u' event items (record s { next_item_id = n })).0
  unfolding settle recalculate_total
  settle-apart event items n h = (
    seal_of-apart u (has_uuid u') _ s.orders
        (λ o k. ground (arith, eq_iff o.uuid u', eq_iff o.uuid u, eq_iff u' u)) (λ o. refl),
    h,
    refl,
  )

  pub items-write :
      (k : ℕ) (f : Item → Item)
      → ((i : Item) → (f i).order_uuid ≡ i.order_uuid)
      → keep (in_order u) (update_where (is_item k u') f s.items) ≡ keep (in_order u) s.items
  items-write k f same =
      keep-update_where (in_order u) (is_item k u') f s.items
        (λ i t. ground (arith, same i, eq_iff i.order_uuid u', eq_iff i.order_uuid u, eq_iff u' u))
