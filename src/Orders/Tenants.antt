-- ===== src/Orders/Tenants.antt =====
-- The orders of one tenant under the edits of another.
pub mod Calls
use integrado_web_xd.Prelude.{
  ℕ, zero, suc, ◌+◌, ◌≡◌, ◌∙◌, refl, sym, ap, String, Bool, true, false, ◌&&◌, ◌||◌, not, Option,
  none, some, List, [], ◌∷◌, ◌++◌, map, arith, nat_eq, leb, ltb, if◌then◌else◌, ◌==◌, eq_iff, keep,
  first_where, update_where, all, any, length, count, or_else, keep-update_where, keep-append,
  append-nil, Option-cases, Bool-cases, inl, inr, on_if, on_option,
}
use integrado_web_xd.Orders.{
  Order, Item, Payment, Store, Error, Result, ok, failed, has_uuid, is_of, in_order, given,
  given_id, recalculate_total, get_by_uuid, ensure_order_editable, StoredOrder, StoredOrderSession,
  is_allowed, on_result, VoidEntry, TransferType, item, command, table,
}
use integrado_web_xd.Orders.Editing.{
  LocalOrderItemCreate, LocalOrderItemUpdate, LocalOrderCreate, LocalOrderCloseRequest,
  LocalOrderPaymentCreate, create, settle, add_item, clear_items, update_item, remove_item,
  close_order, write_close, cancel_order, is_item, same_line, paid, normalize_close_payments,
}
use integrado_web_xd.Orders.Accounts.{
  Summary, void_target, transfer_order, move_order, void_order_or_item, log_operation,
  resolve_order, transfer_error, LocalOrderOperationRequest, LocalOrderTransferRequest,
}
use integrado_web_xd.Orders.Requests.{Edit, add, clear, update, remove, close, cancel, run_edit}
use integrado_web_xd.Orders.Invariant.{distinct_uuids}

abbrev pub of_tenant : String → Order → Bool
of_tenant t o = o.empresa_id == t

absent-write :
    (t u : String) (f : Order → Order) (os : List Order)
    → any (has_uuid u) os ≡ false
    → keep (of_tenant t) (update_where (has_uuid u) f os) ≡ keep (of_tenant t) os
absent-write t u f [] h = refl
absent-write t u f (o ∷ os) h = ground (arith, absent-write t u f os)

found-any :
    (e u : String) (os : List Order) (o : Order)
    → first_where (is_of e u) os ≡ some o
    → any (has_uuid u) os ≡ true
found-any e u [] o k = cc
found-any e u (x ∷ os) o k = ground (arith, found-any e u os o)

-- A write by uuid to an order of one tenant does not touch the orders of another.
uuid-write :
    (t e u : String) (f : Order → Order) (os : List Order) (o : Order)
    → (e == t) ≡ false
    → ((x : Order) → (f x).empresa_id ≡ x.empresa_id)
    → distinct_uuids os ≡ true
    → first_where (is_of e u) os ≡ some o
    → keep (of_tenant t) (update_where (has_uuid u) f os) ≡ keep (of_tenant t) os
uuid-write t e u f [] o apart same d h = cc
uuid-write t e u f (x ∷ os) o apart same d h = ground (
  arith,
  uuid-write t e u f os o apart same,
  absent-write t u f os,
  found-any e u os o,
  same x,
  eq_iff x.uuid u,
  eq_iff x.empresa_id e,
  eq_iff x.empresa_id t,
  eq_iff e t,
)

pub key-write :
    (t e u : String) (f : Order → Order) (os : List Order)
    → (e == t) ≡ false
    → ((x : Order) → (f x).empresa_id ≡ x.empresa_id)
    → keep (of_tenant t) (update_where (is_of e u) f os) ≡ keep (of_tenant t) os
key-write t e u f os apart same =
    keep-update_where (of_tenant t) (is_of e u) f os
      (λ x h. ground (arith, same x, eq_iff x.empresa_id e, eq_iff x.empresa_id t, eq_iff e t))

module _ (now : ℕ) (t e u : String) (s : Store) (apart : (e == t) ≡ false)
    (distinct : distinct_uuids s.orders ≡ true) where
  abbrev IsApart : Store × Result StoredOrder → Type 0
  IsApart r = keep (of_tenant t) r.0.orders ≡ keep (of_tenant t) s.orders

  settle-IsApart :
      (event : String) (items : List Item) (n : ℕ)
      → ensure_order_editable e u s ≡ none
      → IsApart (settle now e u event items (record s { next_item_id = n }))
  unfolding settle recalculate_total ensure_order_editable
  settle-IsApart event items n free = elim (Option-cases (first_where (is_of e u) s.orders)) [
    | inl missing ↦ ground arith
    | inr (o, found) ↦ uuid-write t e u _ s.orders o apart (λ x. refl) distinct found
  ]

  add_item-IsApart : (i : LocalOrderItemCreate) → IsApart (add_item now e u i s)
  unfolding add_item
  add_item-IsApart i =
      on_option IsApart (ensure_order_editable e u s) _ _
        (λ free.
          on_option IsApart (first_where (same_line u i) s.items) _ _
            (λ new. settle-IsApart "order.item.added" _ (s.next_item_id + 1) free)
            (λ row found. settle-IsApart "order.item.added" _ s.next_item_id free))
        (λ error k. refl)

  clear_items-IsApart : IsApart (clear_items now e u s)
  unfolding clear_items
  clear_items-IsApart =
      on_option IsApart (ensure_order_editable e u s) _ _
        (λ free. settle-IsApart "order.items.cleared" _ s.next_item_id free) (λ error k. refl)

  update_item-IsApart : (id : ℕ) (i : LocalOrderItemUpdate) → IsApart (update_item now e u id i s)
  unfolding update_item
  update_item-IsApart id i =
      on_option IsApart (ensure_order_editable e u s) _ _
        (λ free.
          on_option IsApart (first_where (is_item id u) s.items) _ _ (λ missing. refl)
            (λ row found. settle-IsApart "order.item.updated" _ s.next_item_id free))
        (λ error k. refl)

  pub remove_item-IsApart : (id : ℕ) → IsApart (remove_item now e u id s)
  unfolding remove_item
  remove_item-IsApart id =
      on_option IsApart (ensure_order_editable e u s) _ _
        (λ free.
          on_if IsApart (leb (count (in_order u) s.items) 1) _ _ (λ last. refl)
            (λ more.
              on_if IsApart (any (is_item id u) s.items) _ _
                (λ there. settle-IsApart "order.item.removed" _ s.next_item_id free)
                (λ missing. refl)))
        (λ error k. refl)

  pub cancel_order-IsApart : (reason : Option String) → IsApart (cancel_order now e u reason s)
  unfolding cancel_order
  cancel_order-IsApart reason =
      on_option IsApart (ensure_order_editable e u s) _ _
        (λ free. key-write t e u _ s.orders apart (λ x. refl)) (λ error k. refl)

  write_close-IsApart :
      (payments : List LocalOrderPaymentCreate) → IsApart (write_close now e u payments s)
  unfolding write_close
  write_close-IsApart payments = key-write t e u _ s.orders apart (λ x. refl)

  close_order-IsApart :
      (p : LocalOrderCloseRequest) (session : StoredOrderSession)
      → IsApart (close_order now e u p session s)
  unfolding close_order
  close_order-IsApart p session =
      on_if IsApart (is_allowed session.operator_code "order.close" s.permissions) _ _
        (λ allowed.
          on_option IsApart (ensure_order_editable e u s) _ _
            (λ free.
              on_result IsApart (get_by_uuid e u s) _ _ (λ error k. refl)
                (λ stored k.
                  on_result IsApart (normalize_close_payments p) _ _ (λ error k. refl)
                    (λ payments k.
                      on_if IsApart (ltb (paid payments) stored.order.total_amount) _ _
                        (λ less. refl) (λ enough. write_close-IsApart payments))))
            (λ error k. refl))
        (λ denied. refl)

  pub run_edit-tenants :
      (op : Edit) → keep (of_tenant t) (run_edit now e u op s).orders ≡ keep (of_tenant t) s.orders
  unfolding run_edit
  run_edit-tenants (add i) = add_item-IsApart i
  run_edit-tenants clear = clear_items-IsApart
  run_edit-tenants (update id i) = update_item-IsApart id i
  run_edit-tenants (remove id) = remove_item-IsApart id
  run_edit-tenants (close p session) = close_order-IsApart p session
  run_edit-tenants (cancel reason) = cancel_order-IsApart reason
