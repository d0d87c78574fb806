-- ===== src/Orders/Frozen/Edits.antt =====
-- The edits of an order, and new orders, leave a closed or cancelled order as it is.
use integrado_web_xd.Prelude.{
  ℕ, suc, ◌+◌, ◌≡◌, refl, sym, String, true, false, not, Option, none, List, [], ◌∷◌, ◌++◌, map,
  arith, leb, ltb, ◌==◌, eq_iff, keep, first_where, update_where, any, count, keep-append,
  append-nil, Bool-cases, inl, inr, on_if, on_option,
}
use integrado_web_xd.Orders.{
  Order, Store, Result, has_uuid, is_of, in_order, get_by_uuid, ensure_order_editable, StoredOrder,
  StoredOrderSession, is_allowed, on_result,
}
use integrado_web_xd.Orders.Editing.{
  LocalOrderItemCreate, LocalOrderItemUpdate, LocalOrderCreate, LocalOrderCloseRequest,
  LocalOrderPaymentCreate, new_item, new_items, create, add_item, clear_items, update_item,
  remove_item, close_order, write_close, cancel_order, is_item, same_line, paid,
  normalize_close_payments, payment_row,
}
use integrado_web_xd.Orders.Requests.{Edit, add, clear, update, remove, close, cancel, run_edit}
use integrado_web_xd.Orders.Invariant.{distinct_uuids}
use integrado_web_xd.Orders.Frozen.{
  IsSameOrder, seal_of, is_sealed, pays, editable-open, seal_of-apart, keep-keep, settle-apart,
  items-write,
}

pub seal_of-append :
    (u : String) (os more : List Order)
    → is_sealed (seal_of u os) ≡ true
    → seal_of u (os ++ more) ≡ seal_of u os
seal_of-append u [] more h = cc
seal_of-append u (o ∷ os) more h = ground (arith, seal_of-append u os more)

sealed-known :
    (u : String) (os : List Order)
    → is_sealed (seal_of u os) ≡ true
    → any (has_uuid u) os ≡ false
    → ⊥
sealed-known u [] h k = cc
sealed-known u (o ∷ os) h k = ground (arith, sealed-known u os)

items-start :
    (u u' : String) (n : ℕ) (is : List LocalOrderItemCreate)
    → (u' == u) ≡ false
    → keep (in_order u) (new_items u' n is) ≡ []
unfolding new_items new_item
items-start u u' n [] h = refl
items-start u u' n (i ∷ is) h = ground (arith, items-start u u' (suc n) is h, h)

module _ (now : ℕ) (e u u' : String) (s : Store) (distinct : distinct_uuids s.orders ≡ true)
    (sealed : is_sealed (seal_of u s.orders) ≡ true) where
  abbrev IsSameAfter : Store × Result StoredOrder → Type 0
  IsSameAfter r = IsSameOrder u s r.0

  same : IsSameOrder u s s
  same = (refl, refl, refl)

  -- An editable order is another one.
  editable-apart : ensure_order_editable e u' s ≡ none → (u' == u) ≡ false
  editable-apart k = elim (Bool-cases (u' == u)) [
    | inl t ↦ absurd (editable-open e u s distinct sealed (rw (sym ((eq_iff u' u).0 t)) k))
    | inr f ↦ f
  ]

  add_item-IsSameAfter : (i : LocalOrderItemCreate) → IsSameAfter (add_item now e u' i s)
  unfolding add_item
  add_item-IsSameAfter i =
      on_option IsSameAfter (ensure_order_editable e u' s) _ _
        (λ free.
          let apart = editable-apart free in
          on_option IsSameAfter (first_where (same_line u' i) s.items) _ _
            (λ new.
              settle-apart now e u u' s apart "order.item.added"
                (s.items ++ new_item u' s.next_item_id i ∷ []) (s.next_item_id + 1)
                (unfold new_item in
                  ground (
                    arith,
                    apart,
                    keep-append (in_order u) s.items (new_item u' s.next_item_id i ∷ []),
                    append-nil (keep (in_order u) s.items),
                  )))
            (λ row found.
              settle-apart now e u u' s apart "order.item.added" _ s.next_item_id
                (items-write now e u u' s apart row.id _ (λ r. refl))))
        (λ error k. same)

  clear_items-IsSameAfter : IsSameAfter (clear_items now e u' s)
  unfolding clear_items
  clear_items-IsSameAfter =
      on_option IsSameAfter (ensure_order_editable e u' s) _ _
        (λ free.
          let apart = editable-apart free in
          settle-apart now e u u' s apart "order.items.cleared" _ s.next_item_id (
            keep-keep (in_order u) (λ row. not (row.order_uuid == u')) s.items
              (λ i t.
                ground (arith, apart, eq_iff i.order_uuid u, eq_iff i.order_uuid u', eq_iff u' u))))
        (λ error k. same)

  update_item-IsSameAfter :
      (id : ℕ) (i : LocalOrderItemUpdate) → IsSameAfter (update_item now e u' id i s)
  unfolding update_item
  update_item-IsSameAfter id i =
      on_option IsSameAfter (ensure_order_editable e u' s) _ _
        (λ free.
          let apart = editable-apart free in
          on_option IsSameAfter (first_where (is_item id u') s.items) _ _ (λ missing. same)
            (λ row found.
              settle-apart now e u u' s apart "order.item.updated" _ s.next_item_id
                (items-write now e u u' s apart id _ (λ r. refl))))
        (λ error k. same)

  pub remove_item-IsSameAfter : (id : ℕ) → IsSameAfter (remove_item now e u' id s)
  unfolding remove_item
  remove_item-IsSameAfter id =
      on_option IsSameAfter (ensure_order_editable e u' s) _ _
        (λ free.
          let apart = editable-apart free in
          on_if IsSameAfter (leb (count (in_order u') s.items) 1) _ _ (λ last. same)
            (λ more.
              on_if IsSameAfter (any (is_item id u') s.items) _ _
                (λ there. settle-apart now e u u' s apart "order.item.removed" _ s.next_item_id (
                  keep-keep (in_order u) (λ row. not (is_item id u' row)) s.items
                    (λ i t.
                      ground (
                        arith,
                        apart,
                        eq_iff i.order_uuid u,
                        eq_iff i.order_uuid u',
                        eq_iff u' u,
                      ))))
                (λ missing. same)))
        (λ error k. same)

  others :
      (f : Order → Order)
      → (u' == u) ≡ false
      → ((o : Order) → (f o).uuid ≡ o.uuid)
      → seal_of u (update_where (is_of e u') f s.orders) ≡ seal_of u s.orders
  others f apart k =
      seal_of-apart u (is_of e u') f s.orders
        (λ o t. ground (arith, apart, eq_iff o.uuid u', eq_iff o.uuid u, eq_iff u' u)) k

  pub cancel_order-IsSameAfter :
      (reason : Option String) → IsSameAfter (cancel_order now e u' reason s)
  unfolding cancel_order
  cancel_order-IsSameAfter reason =
      on_option IsSameAfter (ensure_order_editable e u' s) _ _
        (λ free. (others _ (editable-apart free) (λ o. refl), refl, refl)) (λ error k. same)

  payments-close :
      (ps : List LocalOrderPaymentCreate)
      → (u' == u) ≡ false
      → keep (pays u) (map (payment_row now u') ps) ≡ []
  payments-close [] apart = refl
  payments-close (p ∷ ps) apart = ground (arith, payments-close ps apart, apart)

  write_close-IsSameAfter :
      (ps : List LocalOrderPaymentCreate)
      → (u' == u) ≡ false
      → IsSameAfter (write_close now e u' ps s)
  unfolding write_close
  write_close-IsSameAfter ps apart = (
    others _ apart (λ o. refl),
    refl,
    (ground (
      arith,
      payments-close ps apart,
      append-nil (keep (pays u) s.payments),
      keep-append (pays u) (keep (λ p. not (p.order_uuid == u')) s.payments)
          (map (payment_row now u') ps),
      keep-keep (pays u) (λ p. not (p.order_uuid == u')) s.payments
          (λ p t.
            ground (arith, apart, eq_iff p.order_uuid u, eq_iff p.order_uuid u', eq_iff u' u)),
    )),
  )

  close_order-IsSameAfter :
      (p : LocalOrderCloseRequest) (session : StoredOrderSession)
      → IsSameAfter (close_order now e u' p session s)
  unfolding close_order
  close_order-IsSameAfter p session =
      on_if IsSameAfter (is_allowed session.operator_code "order.close" s.permissions) _ _
        (λ allowed.
          on_option IsSameAfter (ensure_order_editable e u' s) _ _
            (λ free.
              on_result IsSameAfter (get_by_uuid e u' s) _ _ (λ error k. same)
                (λ stored k.
                  on_result IsSameAfter (normalize_close_payments p) _ _ (λ error k. same)
                    (λ payments k.
                      on_if IsSameAfter (ltb (paid payments) stored.order.total_amount) _ _
                        (λ less. same)
                        (λ enough. write_close-IsSameAfter payments (editable-apart free)))))
            (λ error k. same))
        (λ denied. same)

  pub start-IsSameAfter : (p : LocalOrderCreate) → IsSameAfter (create now u' e p s)
  unfolding create
  start-IsSameAfter p =
      on_if IsSameAfter (any (has_uuid u') s.orders) _ _ (λ taken. same)
        (λ fresh.
          let apart : (u' == u) ≡ false = elim (Bool-cases (u' == u)) [
            | inl t ↦ absurd (sealed-known u s.orders sealed (rw (sym ((eq_iff u' u).0 t)) fresh))
            | inr f ↦ f
          ] in
          (
            seal_of-append u s.orders _ sealed,
            ground (
              arith,
              keep-append (in_order u) s.items (new_items u' s.next_item_id p.items),
              items-start u u' s.next_item_id p.items apart,
              append-nil (keep (in_order u) s.items),
            ),
            refl,
          ))

  pub run_edit-IsSameOrder : (op : Edit) → IsSameOrder u s (run_edit now e u' op s)
  unfolding run_edit
  run_edit-IsSameOrder (add i) = add_item-IsSameAfter i
  run_edit-IsSameOrder clear = clear_items-IsSameAfter
  run_edit-IsSameOrder (update id i) = update_item-IsSameAfter id i
  run_edit-IsSameOrder (remove id) = remove_item-IsSameAfter id
  run_edit-IsSameOrder (close p session) = close_order-IsSameAfter p session
  run_edit-IsSameOrder (cancel reason) = cancel_order-IsSameAfter reason
