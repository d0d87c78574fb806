-- ===== src/Orders/Tenants/Calls.antt =====
-- The orders of one tenant under the calls of others.
use integrado_web_xd.Prelude.{
  ℕ, ◌≡◌, ◌∙◌, refl, String, Bool, true, false, not, Option, some, List, [], ◌∷◌, ◌++◌, arith, ltb,
  ◌==◌, keep, all, any, keep-append, append-nil, on_if, on_option,
}
use integrado_web_xd.Orders.{
  Order, Store, Result, has_uuid, given, given_id, StoredOrder, StoredOrderSession, is_allowed,
  on_result, VoidEntry, TransferType, item, command, table,
}
use integrado_web_xd.Orders.Editing.{LocalOrderCreate, create}
use integrado_web_xd.Orders.Accounts.{
  Summary, void_target, transfer_order, move_order, void_order_or_item, log_operation,
  resolve_order, transfer_error, LocalOrderOperationRequest, LocalOrderTransferRequest,
}
use integrado_web_xd.Orders.Invariant.{distinct_uuids}
use integrado_web_xd.Orders.Accounts.{
  LocalOrderPartialPaymentRequest, LocalOrderDiscountRequest, record_partial_payment,
  apply_discount, discount_amount,
}
use integrado_web_xd.Orders.Requests.{
  Request, start, edit, pay, discount, void, transfer, sync, run, run_all,
}
use integrado_web_xd.Orders.Invariant.{IsSound}
use integrado_web_xd.Orders.Invariant.Calls.{run-IsSound}
use integrado_web_xd.Orders.Tenants.{
  of_tenant, key-write, remove_item-IsApart, cancel_order-IsApart, run_edit-tenants,
}

-- A call that names a tenant other than `t`; `mark_order_synced` names none.
abbrev pub is_other : String → Request → Bool
is_other t (start e u p) = not (e == t)
is_other t (edit e u op) = not (e == t)
is_other t (pay e session p) = not (e == t)
is_other t (discount e session p) = not (e == t)
is_other t (void e session p) = not (e == t)
is_other t (transfer e session p) = not (e == t)
is_other t (sync u) = false

abbrev orders_of : String → Store → List Order
orders_of t s = keep (of_tenant t) s.orders

module _ (now : ℕ) (t e : String) (s : Store) (apart : (e == t) ≡ false)
    (distinct : distinct_uuids s.orders ≡ true) where
  abbrev IsApart : Store × Result StoredOrder → Type 0
  IsApart r = orders_of t r.0 ≡ orders_of t s

  abbrev IsApartSummary : Store × Result Summary → Type 0
  IsApartSummary r = orders_of t r.0 ≡ orders_of t s

  create-IsApart : (u : String) (p : LocalOrderCreate) → IsApart (create now u e p s)
  unfolding create
  create-IsApart u p =
      on_if IsApart (any (has_uuid u) s.orders) _ _ (λ taken. refl) (λ fresh. new s.orders _ apart)
    where
      new :
          (os : List Order) (o : Order)
          → (o.empresa_id == t) ≡ false
          → keep (of_tenant t) (os ++ o ∷ []) ≡ keep (of_tenant t) os
      new os o k =
          ground
            (arith, k, keep-append (of_tenant t) os (o ∷ []), append-nil (keep (of_tenant t) os))

  record_partial_payment-IsApart :
      (session : StoredOrderSession) (p : LocalOrderPartialPaymentRequest)
      → IsApartSummary (record_partial_payment now e session p s)
  unfolding record_partial_payment log_operation
  record_partial_payment-IsApart session p =
      on_if IsApartSummary (is_allowed session.operator_code "order.partial_payment" s.permissions)
        _ _
        (λ allowed.
          on_result IsApartSummary (resolve_order e p.order_uuid p.command_number s) _ _
            (λ error k. refl) (λ o k. refl))
        (λ denied. refl)

  apply_discount-IsApart :
      (session : StoredOrderSession) (p : LocalOrderDiscountRequest)
      → IsApartSummary (apply_discount now e session p s)
  unfolding apply_discount log_operation
  apply_discount-IsApart session p =
      on_if IsApartSummary (is_allowed session.operator_code "order.discount" s.permissions) _ _
        (λ allowed.
          on_result IsApartSummary (resolve_order e p.order_uuid p.command_number s) _ _
            (λ error k. refl)
            (λ o k.
              on_if IsApartSummary
                (ltb o.order.total_amount
                  (discount_amount p.discount_type o.order.total_amount p.value))
                _ _ (λ more. refl) (λ fits. refl)))
        (λ denied. refl)

  void_target-IsApart :
      (o : Order) (item_id : Option ℕ) (reason : String)
      → IsApart (void_target now e o item_id reason s)
  unfolding void_target
  void_target-IsApart o item_id reason =
      on_option IsApart (given_id item_id) _ _
        (λ none_given. cancel_order-IsApart now t e o.uuid s apart distinct (some reason))
        (λ id k. remove_item-IsApart now t e o.uuid s apart distinct id)

  move_order-apart :
      (u : String) (p : LocalOrderTransferRequest) (kind : TransferType)
      → keep (of_tenant t) (move_order now e u (record p { transfer_type = kind }) s.orders)
        ≡ orders_of t s
  unfolding move_order
  move_order-apart u p item = refl
  move_order-apart u p command = key-write t e u _ s.orders apart (λ x. refl)
  move_order-apart u p table = key-write t e u _ s.orders apart (λ x. refl)

  transfer_order-IsApart :
      (session : StoredOrderSession) (p : LocalOrderTransferRequest)
      → IsApart (transfer_order now e session p s)
  unfolding transfer_order log_operation
  transfer_order-IsApart session p =
      on_if IsApart (is_allowed session.operator_code "order.transfer" s.permissions) _ _
        (λ allowed.
          on_result IsApart (resolve_order e p.source_order_uuid p.source_command_number s) _ _
            (λ error k. refl)
            (λ o k.
              on_option IsApart (transfer_error p) _ _
                (λ fine. move_order-apart o.order.uuid p p.transfer_type) (λ error k. refl)))
        (λ denied. refl)

void_order_or_item-apart :
    (now : ℕ) (t e : String) (s : Store)
    → (e == t) ≡ false
    → distinct_uuids s.orders ≡ true
    → (session : StoredOrderSession) (p : LocalOrderOperationRequest)
    → orders_of t (void_order_or_item now e session p s).0 ≡ orders_of t s
unfolding void_order_or_item log_operation
void_order_or_item-apart now t e s apart distinct session p =
    let P : Store × Result StoredOrder → Type 0 = λ r. orders_of t r.0 ≡ orders_of t s in
    on_if P (is_allowed session.operator_code "order.void" s.permissions) _ _
      (λ allowed.
        on_option P (given p.reason) _ _ (λ silent. refl)
          (λ reason k.
            on_result P (resolve_order e p.order_uuid p.command_number s) _ _ (λ error k. refl)
              (λ o k.
                let entry : VoidEntry = record {
                  order_uuid = o.order.uuid;
                  item_id = p.item_id;
                  operator_code = session.operator_code;
                  reason = reason;
                  created_at = now;
                } in
                let noted : Store = record s { voids = s.voids ++ entry ∷ [] } in
                let left =
                  void_target-IsApart now t e noted apart distinct o.order p.item_id reason in
                on_result P (void_target now e o.order p.item_id reason noted).1 _ _
                  (λ error k. left) (λ done k. left))))
      (λ denied. refl)

other : (b : Bool) → not b ≡ true → b ≡ false
other true h = cc
other false h = refl

run-tenants :
    (now : ℕ) (t : String) (r : Request) (s : Store)
    → distinct_uuids s.orders ≡ true
    → is_other t r ≡ true
    → orders_of t (run now r s) ≡ orders_of t s
unfolding run
run-tenants now t (start e u p) s d h = create-IsApart now t e s (other (e == t) h) d u p
run-tenants now t (edit e u op) s d h = run_edit-tenants now t e u s (other (e == t) h) d op
run-tenants now t (pay e session p) s d h =
    record_partial_payment-IsApart now t e s (other (e == t) h) d session p
run-tenants now t (discount e session p) s d h =
    apply_discount-IsApart now t e s (other (e == t) h) d session p
run-tenants now t (void e session p) s d h =
    void_order_or_item-apart now t e s (other (e == t) h) d session p
run-tenants now t (transfer e session p) s d h =
    transfer_order-IsApart now t e s (other (e == t) h) d session p
run-tenants now t (sync u) s d h = cc

-- In a sound store, no sequence of calls of other tenants, mark_order_synced aside, which names no
-- tenant, adds, changes or removes a row of a tenant's orders.
pub run_all-tenants :
    (calls : List (ℕ × Request)) (t : String) (s : Store)
    → IsSound s
    → all (λ c. is_other t c.1) calls ≡ true
    → orders_of t (run_all calls s) ≡ orders_of t s
unfolding run_all
run_all-tenants [] t s h k = refl
run_all-tenants ((now, r) ∷ calls) t s h k =
    run_all-tenants calls t (run now r s) (run-IsSound now r s h) (ground arith)
    ∙ run-tenants now t r s h.distinct (ground arith)
