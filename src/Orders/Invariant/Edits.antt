-- ===== src/Orders/Invariant/Edits.antt =====
-- The edits of an order keep the invariant.
use integrado_web_xd.Prelude.{
  ℕ, ◌+◌, ◌≡◌, refl, String, true, false, not, Option, none, some, List, [], ◌∷◌, ◌++◌, arith, leb,
  ltb, ◌==◌, eq_iff, keep, first_where, update_where, all, any, all-append, all-keep, Option-cases,
  inl, inr, on_option, on_if, or_else, count,
}
use integrado_web_xd.Orders.{
  Order, Item, Store, Result, has_uuid, is_of, in_order, total_of, get_by_uuid,
  ensure_order_editable, StoredOrder, StoredOrderSession, cancelled, closed, is_allowed, on_result,
}
use integrado_web_xd.Orders.Money.{line_money}
use integrado_web_xd.Orders.Editing.{
  LocalOrderItemCreate, new_item, settle, add_item, clear_items, update_item, remove_item,
  close_order, write_close, cancel_order, is_item, same_line, LocalOrderItemUpdate,
  LocalOrderCloseRequest, LocalOrderPaymentCreate, paid, join_methods, normalize_close_payments,
}
use integrado_web_xd.Orders.Invariant.{
  is_priced, is_owned, IsSound, write-IsWellFormed, settle-IsWellFormed, total_of-append,
  total_of-write, total_of-keep, priced-write, owned-items,
}

abbrev Kept : Store × Result StoredOrder → Type 0
Kept r = IsSound r.0

priced-new : (u : String) (n : ℕ) (i : LocalOrderItemCreate) → is_priced (new_item u n i) ≡ true
unfolding new_item
priced-new u n i = ground arith

owned-new :
    (u : String) (n : ℕ) (i : LocalOrderItemCreate) (os : List Order)
    → is_owned os (new_item u n i) ≡ any (has_uuid u) os
unfolding new_item
owned-new u n i os = refl

total_of-new :
    (v u : String) (n : ℕ) (i : LocalOrderItemCreate)
    → (v == u) ≡ false
    → total_of v (new_item u n i ∷ []) ≡ 0
unfolding new_item
total_of-new v u n i apart = ground (arith, eq_iff v u, eq_iff u v)

-- The orders and items after a call: theirs, or an editing of theirs that keeps the invariant.
module _ (now : ℕ) (e u : String) (s : Store) (h : IsSound s) where
  has-first_where :
      (os : List Order) (o : Order)
      → first_where (is_of e u) os ≡ some o
      → any (has_uuid u) os ≡ true
  has-first_where [] o k = cc
  has-first_where (x ∷ os) o k = ground (arith, has-first_where os o)

  editable-known : ensure_order_editable e u s ≡ none → any (has_uuid u) s.orders ≡ true
  unfolding ensure_order_editable
  editable-known k = elim (Option-cases (first_where (is_of e u) s.orders)) [
    | inl missing ↦ ground arith
    | inr (o, found) ↦ has-first_where s.orders o found
  ]

  -- An edit that ends with `settle` on fitting items.
  settle-IsKept :
      (event : String) (items : List Item) (n : ℕ)
      → all is_priced items ≡ true
      → all (is_owned s.orders) items ≡ true
      → ((v : String) → (v == u) ≡ false → total_of v items ≡ total_of v s.items)
      → IsSound (settle now e u event items (record s { next_item_id = n })).0
  settle-IsKept event items n p o t =
      settle-IsWellFormed now e u event items (record s { next_item_id = n }) h p o t

  pub add_item-IsSound : (i : LocalOrderItemCreate) → IsSound (add_item now e u i s).0
  unfolding add_item
  add_item-IsSound i =
      on_option Kept (ensure_order_editable e u s) _ _
        (λ free.
          on_option Kept (first_where (same_line u i) s.items) _ _
            (λ new.
              settle-IsKept "order.item.added" (s.items ++ new_item u s.next_item_id i ∷ [])
                (s.next_item_id + 1)
                (ground (
                  arith,
                  h.priced,
                  priced-new u s.next_item_id i,
                  all-append is_priced s.items (new_item u s.next_item_id i ∷ []),
                ))
                (ground (
                  arith,
                  h.owned,
                  editable-known free,
                  owned-new u s.next_item_id i s.orders,
                  all-append (is_owned s.orders) s.items (new_item u s.next_item_id i ∷ []),
                ))
                (λ v apart. ground (
                  arith,
                  total_of-append v s.items (new_item u s.next_item_id i ∷ []),
                  total_of-new v u s.next_item_id i apart,
                )))
            (λ row found.
              let f : Item → Item = λ r. record r {
                quantity = row.quantity + i.quantity;
                unit_price = i.unit_price;
                line_total = line_money (row.quantity + i.quantity) i.unit_price;
              } in
              settle-IsKept "order.item.added" (update_where (is_item row.id u) f s.items)
                s.next_item_id
                (priced-write (is_item row.id u) f s.items (λ r. ground arith) h.priced)
                (owned-items s.orders (is_item row.id u) f s.items (λ r. refl) h.owned)
                (λ v apart. total_of-write v u row.id f s.items apart (λ r. refl))))
        (λ error k. h)

  pub clear_items-IsSound : IsSound (clear_items now e u s).0
  unfolding clear_items
  clear_items-IsSound =
      on_option Kept (ensure_order_editable e u s) _ _
        (λ free.
          settle-IsKept "order.items.cleared" (keep (λ row. not (row.order_uuid == u)) s.items)
            s.next_item_id (all-keep is_priced (λ row. not (row.order_uuid == u)) s.items h.priced)
            (all-keep (is_owned s.orders) (λ row. not (row.order_uuid == u)) s.items h.owned)
            (λ v apart.
              total_of-keep v u (λ row. not (row.order_uuid == u)) s.items apart
                (λ r k. ground arith)))
        (λ error k. h)

  pub update_item-IsSound :
      (id : ℕ) (i : LocalOrderItemUpdate) → IsSound (update_item now e u id i s).0
  unfolding update_item
  update_item-IsSound id i =
      on_option Kept (ensure_order_editable e u s) _ _
        (λ free.
          on_option Kept (first_where (is_item id u) s.items) _ _ (λ missing. h)
            (λ row found.
              let quantity = or_else i.quantity row.quantity in
              let unit_price = or_else i.unit_price row.unit_price in
              let notes : Option String = elim i.notes [ none ↦ row.notes | some n ↦ some n ] in
              let f : Item → Item = λ r. record r {
                quantity = quantity;
                unit_price = unit_price;
                line_total = line_money quantity unit_price;
                notes = notes;
              } in
              settle-IsKept "order.item.updated" (update_where (is_item id u) f s.items)
                s.next_item_id (priced-write (is_item id u) f s.items (λ r. ground arith) h.priced)
                (owned-items s.orders (is_item id u) f s.items (λ r. refl) h.owned)
                (λ v apart. total_of-write v u id f s.items apart (λ r. refl))))
        (λ error k. h)

  pub remove_item-IsSound : (id : ℕ) → IsSound (remove_item now e u id s).0
  unfolding remove_item
  remove_item-IsSound id =
      on_option Kept (ensure_order_editable e u s) _ _
        (λ free.
          on_if Kept (leb (count (in_order u) s.items) 1) _ _ (λ last. h)
            (λ more.
              on_if Kept (any (is_item id u) s.items) _ _
                (λ there.
                  settle-IsKept "order.item.removed" (keep (λ row. not (is_item id u row)) s.items)
                    s.next_item_id
                    (all-keep is_priced (λ row. not (is_item id u row)) s.items h.priced)
                    (all-keep (is_owned s.orders) (λ row. not (is_item id u row)) s.items h.owned)
                    (λ v apart.
                      total_of-keep v u (λ row. not (is_item id u row)) s.items apart
                        (λ r k. ground arith)))
                (λ missing. h)))
        (λ error k. h)

  pub cancel_order-IsSound : (reason : Option String) → IsSound (cancel_order now e u reason s).0
  unfolding cancel_order
  cancel_order-IsSound reason =
      on_option Kept (ensure_order_editable e u s) _ _
        (λ free.
          write-IsWellFormed (is_of e u)
            (λ o. record o { status = cancelled; cancel_reason = reason; updated_at = now })
            (λ o. refl) s.orders s.items (λ o. refl) h)
        (λ error k. h)

  write_close-IsSound :
      (payments : List LocalOrderPaymentCreate) → IsSound (write_close now e u payments s).0
  unfolding write_close
  write_close-IsSound payments =
      write-IsWellFormed (is_of e u)
        (λ o. record o {
          status = closed;
          payment_method = some (join_methods [] payments);
          amount_paid = some (paid payments);
          closed_at = some now;
          updated_at = now;
        })
        (λ o. refl) s.orders s.items (λ o. refl) h

  pub close_order-IsSound :
      (p : LocalOrderCloseRequest) (session : StoredOrderSession)
      → IsSound (close_order now e u p session s).0
  unfolding close_order
  close_order-IsSound p session =
      on_if Kept (is_allowed session.operator_code "order.close" s.permissions) _ _
        (λ allowed.
          on_option Kept (ensure_order_editable e u s) _ _
            (λ free.
              on_result Kept (get_by_uuid e u s) _ _ (λ error k. h)
                (λ stored k.
                  on_result Kept (normalize_close_payments p) _ _ (λ error k. h)
                    (λ payments k.
                      on_if Kept (ltb (paid payments) stored.order.total_amount) _ _ (λ less. h)
                        (λ enough. write_close-IsSound payments))))
            (λ error k. h))
        (λ denied. h)
