-- ===== src/Orders/Frozen/Calls.antt =====
-- A closed or cancelled order stays as it is, whatever calls are made.
use integrado_web_xd.Prelude.{
  ℕ, ◌≡◌, ◌∙◌, refl, String, true, Option, some, List, [], ◌∷◌, ◌++◌, ltb, on_if, on_option,
}
use integrado_web_xd.Orders.{
  Order, Store, Result, has_uuid, is_of, given, given_id, StoredOrder, StoredOrderSession,
  is_allowed, on_result, VoidEntry, TransferType, item, command, table,
}
use integrado_web_xd.Orders.Accounts.{
  Summary, record_partial_payment, apply_discount, void_order_or_item, void_target, transfer_order,
  move_order, mark_order_synced, log_operation, resolve_order, transfer_error, discount_amount,
  LocalOrderPartialPaymentRequest, LocalOrderDiscountRequest, LocalOrderOperationRequest,
  LocalOrderTransferRequest,
}
use integrado_web_xd.Orders.Requests.{
  Request, start, edit, pay, discount, void, transfer, sync, run, run_all,
}
use integrado_web_xd.Orders.Invariant.{IsSound, distinct_uuids}
use integrado_web_xd.Orders.Invariant.Calls.{run-IsSound}
use integrado_web_xd.Orders.Frozen.{IsSameOrder, seal_of, is_sealed, seal_of-keeps}
use integrado_web_xd.Orders.Frozen.Edits.{
  remove_item-IsSameAfter, cancel_order-IsSameAfter, start-IsSameAfter, run_edit-IsSameOrder,
}

module _ (now : ℕ) (e u : String) (s : Store) (distinct : distinct_uuids s.orders ≡ true)
    (sealed : is_sealed (seal_of u s.orders) ≡ true) where
  abbrev Kept : Store × Result StoredOrder → Type 0
  Kept r = IsSameOrder u s r.0

  abbrev KeptSummary : Store × Result Summary → Type 0
  KeptSummary r = IsSameOrder u s r.0

  kept : IsSameOrder u s s
  kept = (refl, refl, refl)

  record_partial_payment-IsSameOrder :
      (session : StoredOrderSession) (p : LocalOrderPartialPaymentRequest)
      → KeptSummary (record_partial_payment now e session p s)
  unfolding record_partial_payment log_operation
  record_partial_payment-IsSameOrder session p =
      on_if KeptSummary (is_allowed session.operator_code "order.partial_payment" s.permissions) _ _
        (λ allowed.
          on_result KeptSummary (resolve_order e p.order_uuid p.command_number s) _ _
            (λ error k. kept) (λ o k. kept))
        (λ denied. kept)

  apply_discount-IsSameOrder :
      (session : StoredOrderSession) (p : LocalOrderDiscountRequest)
      → KeptSummary (apply_discount now e session p s)
  unfolding apply_discount log_operation
  apply_discount-IsSameOrder session p =
      on_if KeptSummary (is_allowed session.operator_code "order.discount" s.permissions) _ _
        (λ allowed.
          on_result KeptSummary (resolve_order e p.order_uuid p.command_number s) _ _
            (λ error k. kept)
            (λ o k.
              on_if KeptSummary
                (ltb o.order.total_amount
                  (discount_amount p.discount_type o.order.total_amount p.value))
                _ _ (λ more. kept) (λ fits. kept)))
        (λ denied. kept)

  void_target-IsSameOrder :
      (o : Order) (item_id : Option ℕ) (reason : String)
      → Kept (void_target now e o item_id reason s)
  unfolding void_target
  void_target-IsSameOrder o item_id reason =
      on_option Kept (given_id item_id) _ _
        (λ none_given. cancel_order-IsSameAfter now e u o.uuid s distinct sealed (some reason))
        (λ id k. remove_item-IsSameAfter now e u o.uuid s distinct sealed id)

  move_order-IsSameOrder :
      (u' : String) (p : LocalOrderTransferRequest) (kind : TransferType)
      → seal_of u (move_order now e u' (record p { transfer_type = kind }) s.orders)
        ≡ seal_of u s.orders
  unfolding move_order
  move_order-IsSameOrder u' p item = refl
  move_order-IsSameOrder u' p command =
      seal_of-keeps u (is_of e u') _ s.orders (λ o. refl) (λ o. refl)
  move_order-IsSameOrder u' p table =
      seal_of-keeps u (is_of e u') _ s.orders (λ o. refl) (λ o. refl)

  transfer_order-IsSameOrder :
      (session : StoredOrderSession) (p : LocalOrderTransferRequest)
      → Kept (transfer_order now e session p s)
  unfolding transfer_order log_operation
  transfer_order-IsSameOrder session p =
      on_if Kept (is_allowed session.operator_code "order.transfer" s.permissions) _ _
        (λ allowed.
          on_result Kept (resolve_order e p.source_order_uuid p.source_command_number s) _ _
            (λ error k. kept)
            (λ o k.
              on_option Kept (transfer_error p) _ _
                (λ fine. (move_order-IsSameOrder o.order.uuid p p.transfer_type, refl, refl))
                (λ error k. kept)))
        (λ denied. kept)

  mark_order_synced-IsSameOrder : (u' : String) → IsSameOrder u s (mark_order_synced now u' s)
  unfolding mark_order_synced
  mark_order_synced-IsSameOrder u' =
      (seal_of-keeps u (has_uuid u') _ s.orders (λ o. refl) (λ o. refl), refl, refl)

void_order_or_item-IsSameOrder :
    (now : ℕ) (e u : String) (s : Store)
    → distinct_uuids s.orders ≡ true
    → is_sealed (seal_of u s.orders) ≡ true
    → (session : StoredOrderSession) (p : LocalOrderOperationRequest)
    → IsSameOrder u s (void_order_or_item now e session p s).0
unfolding void_order_or_item log_operation
void_order_or_item-IsSameOrder now e u s distinct sealed session p =
    let P : Store × Result StoredOrder → Type 0 = λ r. IsSameOrder u s r.0 in
    on_if P (is_allowed session.operator_code "order.void" s.permissions) _ _
      (λ allowed.
        on_option P (given p.reason) _ _ (λ silent. (refl, refl, refl))
          (λ reason k.
            on_result P (resolve_order e p.order_uuid p.command_number s) _ _
              (λ error k. (refl, refl, refl))
              (λ o k.
                let entry : VoidEntry = record {
                  order_uuid = o.order.uuid;
                  item_id = p.item_id;
                  operator_code = session.operator_code;
                  reason = reason;
                  created_at = now;
                } in
                let noted : Store = record s { voids = s.voids ++ entry ∷ [] } in
                let kept =
                  void_target-IsSameOrder now e u noted distinct sealed o.order p.item_id reason in
                on_result P (void_target now e o.order p.item_id reason noted).1 _ _
                  (λ error k. kept) (λ done k. kept))))
      (λ denied. (refl, refl, refl))

run-IsSameOrder :
    (now : ℕ) (u : String) (r : Request) (s : Store)
    → distinct_uuids s.orders ≡ true
    → is_sealed (seal_of u s.orders) ≡ true
    → IsSameOrder u s (run now r s)
unfolding run
run-IsSameOrder now u (start e u' p) s d h = start-IsSameAfter now e u u' s d h p
run-IsSameOrder now u (edit e u' op) s d h = run_edit-IsSameOrder now e u u' s d h op
run-IsSameOrder now u (pay e session p) s d h =
    record_partial_payment-IsSameOrder now e u s d h session p
run-IsSameOrder now u (discount e session p) s d h =
    apply_discount-IsSameOrder now e u s d h session p
run-IsSameOrder now u (void e session p) s d h =
    void_order_or_item-IsSameOrder now e u s d h session p
run-IsSameOrder now u (transfer e session p) s d h =
    transfer_order-IsSameOrder now e u s d h session p
run-IsSameOrder now u (sync u') s d h = mark_order_synced-IsSameOrder now "" u s d h u'

-- Once an order of a sound store is closed or cancelled, no sequence of calls, of any tenant, changes
-- its status, its total, its items, its payments or how it was closed or cancelled.
pub run_all-IsSameOrder :
    (calls : List (ℕ × Request)) (u : String) (s : Store)
    → IsSound s
    → is_sealed (seal_of u s.orders) ≡ true
    → IsSameOrder u s (run_all calls s)
unfolding run_all
run_all-IsSameOrder [] u s h sealed = (refl, refl, refl)
run_all-IsSameOrder ((now, r) ∷ calls) u s h sealed =
    let first = run-IsSameOrder now u r s h.distinct sealed in
    let after =
      run_all-IsSameOrder calls u (run now r s) (run-IsSound now r s h) (rw first.0 sealed) in
    (after.0 ∙ first.0, after.1 ∙ first.1, after.2 ∙ first.2)
