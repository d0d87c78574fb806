-- ===== src/Orders/Invariant/Calls.antt =====
-- Every call keeps the invariant.
use integrado_web_xd.Prelude.{
  ℕ, suc, ◌≡◌, refl, String, true, false, ◌||◌, Option, some, List, [], ◌∷◌, ◌++◌, arith, ltb,
  if◌then◌else◌, ◌==◌, eq_iff, all, any, all-append, all_weaken, on_option, on_if,
}
use integrado_web_xd.Orders.{
  Order, Item, Store, Result, has_uuid, is_of, total_of, StoredOrder, StoredOrderSession,
  is_allowed, on_result, VoidEntry, given, given_id, TransferType, item, command, table,
}
use integrado_web_xd.Orders.Editing.{
  LocalOrderItemCreate, LocalOrderCreate, new_item, new_items, order_total, create,
}
use integrado_web_xd.Orders.Accounts.{
  record_partial_payment, apply_discount, void_order_or_item, void_target, transfer_order,
  move_order, mark_order_synced, log_operation, resolve_order, transfer_error, Summary,
  discount_amount, LocalOrderPartialPaymentRequest, LocalOrderDiscountRequest,
  LocalOrderOperationRequest, LocalOrderTransferRequest,
}
use integrado_web_xd.Orders.Requests.{
  Edit, add, clear, update, remove, close, cancel, Request, start, edit, pay, discount, void,
  transfer, sync, run_edit, run, run_all,
}
use integrado_web_xd.Orders.Invariant.{
  is_priced, is_owned, is_totalled, distinct_uuids, IsSound, IsWellFormed, write-IsWellFormed,
  total_of-append,
}
use integrado_web_xd.Orders.Invariant.Edits.{
  add_item-IsSound, clear_items-IsSound, update_item-IsSound, remove_item-IsSound,
  cancel_order-IsSound, close_order-IsSound,
}

abbrev Kept : Store × Result StoredOrder → Type 0
Kept r = IsSound r.0

abbrev KeptSummary : Store × Result Summary → Type 0
KeptSummary r = IsSound r.0

-- The lines of a new order.
priced-new_items :
    (u : String) (n : ℕ) (is : List LocalOrderItemCreate) → all is_priced (new_items u n is) ≡ true
unfolding new_items new_item
priced-new_items u n [] = refl
priced-new_items u n (i ∷ is) = ground (arith, priced-new_items u (suc n) is)

owned-new_items :
    (u : String) (n : ℕ) (is : List LocalOrderItemCreate) (os : List Order)
    → any (has_uuid u) os ≡ true
    → all (is_owned os) (new_items u n is) ≡ true
unfolding new_items new_item
owned-new_items u n [] os h = refl
owned-new_items u n (i ∷ is) os h = ground (arith, owned-new_items u (suc n) is os h)

total_of-new_items :
    (v u : String) (n : ℕ) (is : List LocalOrderItemCreate)
    → total_of v (new_items u n is) ≡ (if u == v then order_total is else 0)
unfolding new_items new_item order_total
total_of-new_items v u n [] = ground arith
total_of-new_items v u n (i ∷ is) = ground (arith, total_of-new_items v u (suc n) is)

-- No item belongs to a uuid that no order has.
total_of-unowned :
    (u : String) (os : List Order) (items : List Item)
    → any (has_uuid u) os ≡ false
    → all (is_owned os) items ≡ true
    → total_of u items ≡ 0
total_of-unowned u os [] h k = refl
total_of-unowned u os (i ∷ items) h k =
    ground (arith, total_of-unowned u os items h, eq_iff i.order_uuid u)

any-append :
    (u : String) (os : List Order) (o : Order)
    → any (has_uuid u) (os ++ o ∷ []) ≡ (any (has_uuid u) os || o.uuid == u)
any-append u [] o = ground arith
any-append u (x ∷ os) o = ground (arith, any-append u os o)

distinct-append :
    (os : List Order) (o : Order)
    → any (has_uuid o.uuid) os ≡ false
    → distinct_uuids os ≡ true
    → distinct_uuids (os ++ o ∷ []) ≡ true
distinct-append [] o h k = refl
distinct-append (x ∷ os) o h k = ground (
  arith,
  distinct-append os o,
  any-append x.uuid os o,
  eq_iff x.uuid o.uuid,
  eq_iff o.uuid x.uuid,
)

-- The totals of the others, when a new order's items come in.
totalled-append :
    (os : List Order) (items more : List Item) (u : String)
    → any (has_uuid u) os ≡ false
    → ((v : String) → (u == v) ≡ false → total_of v more ≡ 0)
    → all (is_totalled items) os ≡ true
    → all (is_totalled (items ++ more)) os ≡ true
totalled-append [] items more u h other k = refl
totalled-append (o ∷ os) items more u h other k = ground (
  arith,
  totalled-append os items more u,
  other o.uuid,
  total_of-append o.uuid items more,
  eq_iff o.uuid u,
  eq_iff u o.uuid,
)

start-IsWellFormed :
    (os : List Order) (items : List Item) (o : Order) (n : ℕ) (is : List LocalOrderItemCreate)
    → any (has_uuid o.uuid) os ≡ false
    → o.total_amount ≡ order_total is
    → IsWellFormed os items
    → IsWellFormed (os ++ o ∷ []) (items ++ new_items o.uuid n is)
start-IsWellFormed os items o n is fresh total h =
    let more = new_items o.uuid n is in
    let known = any-append o.uuid os o in
    record {
      priced =
          ground (arith, h.priced, all-append is_priced items more, priced-new_items o.uuid n is);
      totalled = ground (
        arith,
        all-append (is_totalled (items ++ more)) os (o ∷ []),
        totalled-append os items more o.uuid fresh
            (λ v apart. ground (arith, total_of-new_items v o.uuid n is)) h.totalled,
        total_of-append o.uuid items more,
        total_of-unowned o.uuid os items fresh h.owned,
        total_of-new_items o.uuid o.uuid n is,
        eq_iff o.uuid o.uuid,
      );
      owned = ground (
        arith,
        all-append (is_owned (os ++ o ∷ [])) items more,
        all_weaken (is_owned os) (is_owned (os ++ o ∷ [])) items
            (λ i k. ground (arith, any-append i.order_uuid os o)) h.owned,
        owned-new_items o.uuid n is (os ++ o ∷ []) (ground (arith, known, eq_iff o.uuid o.uuid)),
      );
      distinct = distinct-append os o fresh h.distinct;
    }

module _ (now : ℕ) (e : String) (s : Store) (h : IsSound s) where
  create-IsSound : (u : String) (p : LocalOrderCreate) → IsSound (create now u e p s).0
  unfolding create
  create-IsSound u p =
      on_if Kept (any (has_uuid u) s.orders) _ _ (λ taken. h)
        (λ fresh. start-IsWellFormed s.orders s.items _ s.next_item_id p.items fresh refl h)

  record_partial_payment-IsSound :
      (session : StoredOrderSession) (p : LocalOrderPartialPaymentRequest)
      → IsSound (record_partial_payment now e session p s).0
  unfolding record_partial_payment log_operation
  record_partial_payment-IsSound session p =
      on_if KeptSummary (is_allowed session.operator_code "order.partial_payment" s.permissions) _ _
        (λ allowed.
          on_result KeptSummary (resolve_order e p.order_uuid p.command_number s) _ _ (λ error k. h)
            (λ o k. h))
        (λ denied. h)

  apply_discount-IsSound :
      (session : StoredOrderSession) (p : LocalOrderDiscountRequest)
      → IsSound (apply_discount now e session p s).0
  unfolding apply_discount log_operation
  apply_discount-IsSound session p =
      on_if KeptSummary (is_allowed session.operator_code "order.discount" s.permissions) _ _
        (λ allowed.
          on_result KeptSummary (resolve_order e p.order_uuid p.command_number s) _ _ (λ error k. h)
            (λ o k.
              on_if KeptSummary
                (ltb o.order.total_amount
                  (discount_amount p.discount_type o.order.total_amount p.value))
                _ _ (λ more. h) (λ fits. h)))
        (λ denied. h)

  void_target-IsSound :
      (o : Order) (item_id : Option ℕ) (reason : String)
      → IsSound (void_target now e o item_id reason s).0
  unfolding void_target
  void_target-IsSound o item_id reason =
      on_option Kept (given_id item_id) _ _
        (λ none_given. cancel_order-IsSound now e o.uuid s h (some reason))
        (λ id k. remove_item-IsSound now e o.uuid s h id)

  move_order-IsWellFormed :
      (u : String) (p : LocalOrderTransferRequest) (kind : TransferType)
      → IsWellFormed (move_order now e u (record p { transfer_type = kind }) s.orders) s.items
  unfolding move_order
  move_order-IsWellFormed u p item = h
  move_order-IsWellFormed u p command =
      write-IsWellFormed (is_of e u) _ (λ o. refl) s.orders s.items (λ o. refl) h
  move_order-IsWellFormed u p table =
      write-IsWellFormed (is_of e u) _ (λ o. refl) s.orders s.items (λ o. refl) h

  transfer_order-IsSound :
      (session : StoredOrderSession) (p : LocalOrderTransferRequest)
      → IsSound (transfer_order now e session p s).0
  unfolding transfer_order log_operation
  transfer_order-IsSound session p =
      on_if Kept (is_allowed session.operator_code "order.transfer" s.permissions) _ _
        (λ allowed.
          on_result Kept (resolve_order e p.source_order_uuid p.source_command_number s) _ _
            (λ error k. h)
            (λ o k.
              on_option Kept (transfer_error p) _ _
                (λ fine. move_order-IsWellFormed o.order.uuid p p.transfer_type) (λ error k. h)))
        (λ denied. h)

  mark_order_synced-IsSound : (u : String) → IsSound (mark_order_synced now u s)
  unfolding mark_order_synced
  mark_order_synced-IsSound u =
      write-IsWellFormed (has_uuid u) _ (λ o. refl) s.orders s.items (λ o. refl) h

  run_edit-IsSound : (u : String) (op : Edit) → IsSound (run_edit now e u op s)
  unfolding run_edit
  run_edit-IsSound u (add i) = add_item-IsSound now e u s h i
  run_edit-IsSound u clear = clear_items-IsSound now e u s h
  run_edit-IsSound u (update id i) = update_item-IsSound now e u s h id i
  run_edit-IsSound u (remove id) = remove_item-IsSound now e u s h id
  run_edit-IsSound u (close p session) = close_order-IsSound now e u s h p session
  run_edit-IsSound u (cancel reason) = cancel_order-IsSound now e u s h reason

void_order_or_item-IsSound :
    (now : ℕ) (e : String) (s : Store)
    → IsSound s
    → (session : StoredOrderSession) (p : LocalOrderOperationRequest)
    → IsSound (void_order_or_item now e session p s).0
unfolding void_order_or_item log_operation
void_order_or_item-IsSound now e s h session p =
    on_if Kept (is_allowed session.operator_code "order.void" s.permissions) _ _
      (λ allowed.
        on_option Kept (given p.reason) _ _ (λ silent. h)
          (λ reason k.
            on_result Kept (resolve_order e p.order_uuid p.command_number s) _ _ (λ error k. h)
              (λ o k.
                let entry : VoidEntry = record {
                  order_uuid = o.order.uuid;
                  item_id = p.item_id;
                  operator_code = session.operator_code;
                  reason = reason;
                  created_at = now;
                } in
                let noted : Store = record s { voids = s.voids ++ entry ∷ [] } in
                let kept = void_target-IsSound now e noted h o.order p.item_id reason in
                on_result Kept (void_target now e o.order p.item_id reason noted).1 _ _
                  (λ error k. kept) (λ done k. kept))))
      (λ denied. h)

pub run-IsSound : (now : ℕ) (r : Request) (s : Store) → IsSound s → IsSound (run now r s)
unfolding run
run-IsSound now (start e u p) s h = create-IsSound now e s h u p
run-IsSound now (edit e u op) s h = run_edit-IsSound now e s h u op
run-IsSound now (pay e session p) s h = record_partial_payment-IsSound now e s h session p
run-IsSound now (discount e session p) s h = apply_discount-IsSound now e s h session p
run-IsSound now (void e session p) s h = void_order_or_item-IsSound now e s h session p
run-IsSound now (transfer e session p) s h = transfer_order-IsSound now e s h session p
run-IsSound now (sync u) s h = mark_order_synced-IsSound now "" s h u

-- From a sound store, whatever calls are made, and whether they return or raise, every order's total
-- is the sum of its line totals and every line total the price of its quantity in cents; no item is
-- without an order, and no two orders share a uuid.
pub run_all-IsSound :
    (calls : List (ℕ × Request)) (s : Store) → IsSound s → IsSound (run_all calls s)
unfolding run_all
run_all-IsSound [] s h = h
run_all-IsSound ((now, r) ∷ calls) s h = run_all-IsSound calls (run now r s) (run-IsSound now r s h)
