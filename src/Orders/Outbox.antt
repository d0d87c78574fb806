-- ===== src/Orders/Outbox.antt =====
-- The outbox of the orders.
use integrado_web_xd.Prelude.{
  ℕ, ◌+◌, ◌≡◌, refl, ap, String, Bool, true, false, ◌&&◌, Option, some, List, [], ◌∷◌, ◌++◌, arith,
  leb, ltb, if◌then◌else◌, ◌==◌, eq_iff, keep, first_where, update_where, any, count, ◌⊎◌, inl, inr,
  on_if, on_option,
}
use integrado_web_xd.Orders.{
  Order, Item, OutboxEvent, Store, SyncStatus, unsent, synced, Error, value_error, permission_error,
  Result, ok, failed, StoredOrder, StoredOrderSession, outbox_event, get_by_uuid,
  ensure_order_editable, in_order, is_allowed, on_result,
}
use integrado_web_xd.Orders.Editing.{
  LocalOrderItemCreate, LocalOrderItemUpdate, LocalOrderCloseRequest, LocalOrderPaymentCreate,
  settle, add_item, clear_items, update_item, remove_item, close_order, write_close, cancel_order,
  is_item, same_line, paid, normalize_close_payments,
}
use integrado_web_xd.Orders.Accounts.{mark_order_synced}
use integrado_web_xd.Orders.Requests.{Edit, add, clear, update, remove, close, cancel, run_edit}

-- The events of an order that still wait.
abbrev pub is_waiting : String → OutboxEvent → Bool
is_waiting u ev = ev.order_uuid == u && (elim ev.sync_status [ unsent ↦ true | synced ↦ false ])

-- Marking an order as synced leaves none of its events waiting, and those of the other orders as
-- they were.
pub mark_order_synced-waiting :
    (now : ℕ) (u v : String) (s : Store)
    → keep (is_waiting v) (mark_order_synced now u s).outbox
      ≡ (if u == v then [] else keep (is_waiting v) s.outbox)
unfolding mark_order_synced
mark_order_synced-waiting now u v s = waiting s.outbox
  where
    waiting :
        (events : List OutboxEvent)
        → keep (is_waiting v) (
            update_where
              (is_waiting u)
              (λ ev. record ev { sync_status = synced; synced_at = some now })
              events)
          ≡ (if u == v then [] else keep (is_waiting v) events)
    waiting [] = ground arith
    waiting (ev ∷ events) =
        ground (arith, waiting events, eq_iff ev.order_uuid u, eq_iff ev.order_uuid v, eq_iff u v)

module _ (now : ℕ) (e u : String) (s : Store) where
  -- An edit raises and leaves every table alone, or adds one waiting event of its order.
  abbrev IsAtomic : Store × Result StoredOrder → Type 0
  IsAtomic r =
      ((error : Error) × (r ≡ (s, failed error)))
      ⊎ ((event_type : String) × (r.0.outbox ≡ s.outbox ++ outbox_event now u event_type ∷ []))

  settled :
      (event : String) (items : List Item) (n : ℕ)
      → IsAtomic (settle now e u event items (record s { next_item_id = n }))
  unfolding settle integrado_web_xd.Orders.recalculate_total
  settled event items n = inr (event, refl)

  raised : (error : Error) → IsAtomic (s, failed error)
  raised error = inl (error, refl)

  add_item-IsAtomic : (i : LocalOrderItemCreate) → IsAtomic (add_item now e u i s)
  unfolding add_item
  add_item-IsAtomic i =
      on_option IsAtomic (ensure_order_editable e u s) _ _
        (λ free.
          on_option IsAtomic (first_where (same_line u i) s.items) _ _
            (λ new. settled "order.item.added" _ (s.next_item_id + 1))
            (λ row found. settled "order.item.added" _ s.next_item_id))
        (λ error k. raised error)

  clear_items-IsAtomic : IsAtomic (clear_items now e u s)
  unfolding clear_items
  clear_items-IsAtomic =
      on_option IsAtomic (ensure_order_editable e u s) _ _
        (λ free. settled "order.items.cleared" _ s.next_item_id) (λ error k. raised error)

  update_item-IsAtomic : (id : ℕ) (i : LocalOrderItemUpdate) → IsAtomic (update_item now e u id i s)
  unfolding update_item
  update_item-IsAtomic id i =
      on_option IsAtomic (ensure_order_editable e u s) _ _
        (λ free.
          on_option IsAtomic (first_where (is_item id u) s.items) _ _ (λ missing. raised _)
            (λ row found. settled "order.item.updated" _ s.next_item_id))
        (λ error k. raised error)

  remove_item-IsAtomic : (id : ℕ) → IsAtomic (remove_item now e u id s)
  unfolding remove_item
  remove_item-IsAtomic id =
      on_option IsAtomic (ensure_order_editable e u s) _ _
        (λ free.
          on_if IsAtomic (leb (count (in_order u) s.items) 1) _ _ (λ last. raised _)
            (λ more.
              on_if IsAtomic (any (is_item id u) s.items) _ _
                (λ there. settled "order.item.removed" _ s.next_item_id) (λ missing. raised _)))
        (λ error k. raised error)

  cancel_order-IsAtomic : (reason : Option String) → IsAtomic (cancel_order now e u reason s)
  unfolding cancel_order
  cancel_order-IsAtomic reason =
      on_option IsAtomic (ensure_order_editable e u s) _ _ (λ free. inr ("order.cancelled", refl))
        (λ error k. raised error)

  write_close-IsAtomic :
      (payments : List LocalOrderPaymentCreate) → IsAtomic (write_close now e u payments s)
  unfolding write_close
  write_close-IsAtomic payments = inr ("order.closed", refl)

  close_order-IsAtomic :
      (p : LocalOrderCloseRequest) (session : StoredOrderSession)
      → IsAtomic (close_order now e u p session s)
  unfolding close_order
  close_order-IsAtomic p session =
      on_if IsAtomic (is_allowed session.operator_code "order.close" s.permissions) _ _
        (λ allowed.
          on_option IsAtomic (ensure_order_editable e u s) _ _
            (λ free.
              on_result IsAtomic (get_by_uuid e u s) _ _ (λ error k. raised error)
                (λ stored k.
                  on_result IsAtomic (normalize_close_payments p) _ _ (λ error k. raised error)
                    (λ payments k.
                      on_if IsAtomic (ltb (paid payments) stored.order.total_amount) _ _
                        (λ less. raised (value_error "Valor pago menor que o total da comanda."))
                        (λ enough. write_close-IsAtomic payments))))
            (λ error k. raised error))
        (λ denied. raised (permission_error "Permissao negada: order.close"))

  tables :
      (r : Store × Result StoredOrder)
      → IsAtomic r
      → (r.0 ≡ s)
        ⊎ ((event_type : String) × (r.0.outbox ≡ s.outbox ++ outbox_event now u event_type ∷ []))
  tables r (inl (error, h)) = inl (ap (λ x. x.0) h)
  tables r (inr h) = inr h

  -- An edit of an order either leaves every table as it is or adds exactly one waiting event of that
  -- order to the outbox.
  pub run_edit-atomic :
      (op : Edit)
      → (run_edit now e u op s ≡ s)
        ⊎ ((event_type : String) × ((run_edit now e u op s).outbox
              ≡ s.outbox ++ outbox_event now u event_type ∷ []))
  unfolding run_edit
  run_edit-atomic (add i) = tables _ (add_item-IsAtomic i)
  run_edit-atomic clear = tables _ clear_items-IsAtomic
  run_edit-atomic (update id i) = tables _ (update_item-IsAtomic id i)
  run_edit-atomic (remove id) = tables _ (remove_item-IsAtomic id)
  run_edit-atomic (close p session) = tables _ (close_order-IsAtomic p session)
  run_edit-atomic (cancel reason) = tables _ (cancel_order-IsAtomic reason)
