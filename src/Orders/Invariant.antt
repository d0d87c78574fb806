-- ===== src/Orders/Invariant.antt =====
-- What stays right of the orders and their items, and the writes that keep it.
pub mod Edits
pub mod Calls
use integrado_web_xd.Prelude.{
  ℕ, zero, suc, ◌+◌, ◌≡◌, ◌∙◌, refl, sym, ap, String, Bool, true, false, ◌&&◌, ◌||◌, not, Option,
  none, some, List, [], ◌∷◌, ◌++◌, arith, nat_eq, leb, ltb, if◌then◌else◌, ◌==◌, eq_iff, keep,
  first_where, update_where, all, any, length, all-append, all-keep, all-update_where,
  any-update_where, all_weaken, Option-cases, Bool-cases, inl, inr, append-nil, on_option, on_if,
  or_else, count,
}
use integrado_web_xd.Orders.{
  Order, Item, Store, Status, Error, Result, ok, failed, has_uuid, is_of, in_order, total_of,
  recalculate_total, get_by_uuid, ensure_order_editable, StoredOrder, StoredOrderSession, cancelled,
  closed, is_allowed, on_result,
}
use integrado_web_xd.Orders.Money.{line_money}
use integrado_web_xd.Orders.Editing.{
  LocalOrderItemCreate, LocalOrderCreate, new_item, new_items, order_total, create, settle,
  add_item, clear_items, update_item, remove_item, close_order, write_close, cancel_order, is_item,
  same_line, LocalOrderItemUpdate, LocalOrderCloseRequest, LocalOrderPaymentCreate, paid,
  join_methods, normalize_close_payments,
}
use integrado_web_xd.Orders.Accounts.{
  record_partial_payment, apply_discount, void_order_or_item, void_target, transfer_order,
  move_order, mark_order_synced, log_operation, resolve_order, transfer_error, Summary,
}
use integrado_web_xd.Orders.Requests.{
  Edit, add, clear, update, remove, close, cancel, Request, start, edit, pay, discount, void,
  transfer, sync, run_edit, run, run_all,
}

abbrev pub is_priced : Item → Bool
is_priced i = nat_eq i.line_total (line_money i.quantity i.unit_price)

abbrev pub is_totalled : List Item → Order → Bool
is_totalled items o = nat_eq o.total_amount (total_of o.uuid items)

abbrev pub is_owned : List Order → Item → Bool
is_owned orders i = any (has_uuid i.order_uuid) orders

abbrev pub distinct_uuids : List Order → Bool
distinct_uuids [] = true
distinct_uuids (o ∷ orders) = not (any (has_uuid o.uuid) orders) && distinct_uuids orders

-- Every line total is the price of its quantity, every order's total is the sum of its line totals,
-- every item belongs to an order, and no two orders share a uuid.
pub record IsWellFormed (orders : List Order) (items : List Item) : Type 0 where
  pub priced : all is_priced items ≡ true
  pub totalled : all (is_totalled items) orders ≡ true
  pub owned : all (is_owned orders) items ≡ true
  pub distinct : distinct_uuids orders ≡ true

abbrev pub IsSound : Store → Type 0
IsSound s = IsWellFormed s.orders s.items

-- Writes to the orders that keep the uuids.
module _ (p : Order → Bool) (f : Order → Order) (same : (o : Order) → (f o).uuid ≡ o.uuid) where
  pub any-write :
      (u : String) (os : List Order) → any (has_uuid u) (update_where p f os) ≡ any (has_uuid u) os
  any-write u os = any-update_where (has_uuid u) p f os (λ o. ap (λ v. v == u) (same o))

  pub distinct-write : (os : List Order) → distinct_uuids (update_where p f os) ≡ distinct_uuids os
  distinct-write [] = refl
  distinct-write (o ∷ os) =
      ground (arith, distinct-write os, any-write o.uuid os, any-write (f o).uuid os, same o)

  pub owned-write :
      (os : List Order) (items : List Item)
      → all (is_owned os) items ≡ true
      → all (is_owned (update_where p f os)) items ≡ true
  owned-write os items h =
      all_weaken (is_owned os) (is_owned (update_where p f os)) items
        (λ i k. any-write i.order_uuid os ∙ k) h

  -- And that keep the totals.
  pub write-IsWellFormed :
      (os : List Order) (items : List Item)
      → ((o : Order) → (f o).total_amount ≡ o.total_amount)
      → IsWellFormed os items
      → IsWellFormed (update_where p f os) items
  write-IsWellFormed os items totals h = record {
    priced = h.priced;
    totalled =
        all-update_where (is_totalled items) p f os (λ o. ground (arith, totals o, same o))
        ∙ h.totalled;
    owned = owned-write os items h.owned;
    distinct = distinct-write os ∙ h.distinct;
  }

-- The recomputed totals after a write to the items of one order.
totalled-recalculate :
    (now : ℕ) (u : String) (items items' : List Item) (os : List Order)
    → ((v : String) → (v == u) ≡ false → total_of v items' ≡ total_of v items)
    → all (is_totalled items) os ≡ true
    → all (is_totalled items') (
        update_where
          (has_uuid u)
          (λ o. record o { total_amount = total_of u items'; updated_at = now })
          os)
      ≡ true
totalled-recalculate now u items items' [] others h = refl
totalled-recalculate now u items items' (o ∷ os) others h =
    ground
      (arith, totalled-recalculate now u items items' os others, others o.uuid, eq_iff o.uuid u)

pub settle-IsWellFormed :
    (now : ℕ) (e u event : String) (items : List Item) (s : Store)
    → IsWellFormed s.orders s.items
    → all is_priced items ≡ true
    → all (is_owned s.orders) items ≡ true
    → ((v : String) → (v == u) ≡ false → total_of v items ≡ total_of v s.items)
    → IsSound (settle now e u event items s).0
unfolding settle recalculate_total
settle-IsWellFormed now e u event items s h priced owned others = record {
  priced = priced;
  totalled = totalled-recalculate now u s.items items s.orders others h.totalled;
  owned =
      owned-write (has_uuid u) (λ o. record o { total_amount = total_of u items; updated_at = now })
        (λ o. refl) s.orders items owned;
  distinct =
      distinct-write (has_uuid u)
        (λ o. record o { total_amount = total_of u items; updated_at = now }) (λ o. refl) s.orders
      ∙ h.distinct;
}

pub total_of-append :
    (v : String) (xs ys : List Item) → total_of v (xs ++ ys) ≡ total_of v xs + total_of v ys
total_of-append v [] ys = omega arith
total_of-append v (x ∷ xs) ys = ground (arith, total_of-append v xs ys)

pub total_of-write :
    (v u : String) (k : ℕ) (f : Item → Item) (xs : List Item)
    → (v == u) ≡ false
    → ((i : Item) → (f i).order_uuid ≡ i.order_uuid)
    → total_of v (update_where (is_item k u) f xs) ≡ total_of v xs
total_of-write v u k f [] apart same = refl
total_of-write v u k f (x ∷ xs) apart same = ground (
  arith,
  total_of-write v u k f xs apart same,
  same x,
  eq_iff x.order_uuid u,
  eq_iff x.order_uuid v,
  eq_iff v u,
)

pub total_of-keep :
    (v u : String) (p : Item → Bool) (xs : List Item)
    → (v == u) ≡ false
    → ((i : Item) → p i ≡ false → (i.order_uuid == u) ≡ true)
    → total_of v (keep p xs) ≡ total_of v xs
total_of-keep v u p [] apart only = refl
total_of-keep v u p (x ∷ xs) apart only = ground (
  arith,
  total_of-keep v u p xs apart only,
  only x,
  eq_iff x.order_uuid u,
  eq_iff x.order_uuid v,
  eq_iff v u,
)

pub priced-write :
    (p : Item → Bool) (f : Item → Item) (xs : List Item)
    → ((i : Item) → is_priced (f i) ≡ true)
    → all is_priced xs ≡ true
    → all is_priced (update_where p f xs) ≡ true
priced-write p f [] h a = refl
priced-write p f (x ∷ xs) h a = ground (arith, priced-write p f xs h, h x)

pub owned-items :
    (os : List Order) (p : Item → Bool) (f : Item → Item) (xs : List Item)
    → ((i : Item) → (f i).order_uuid ≡ i.order_uuid)
    → all (is_owned os) xs ≡ true
    → all (is_owned os) (update_where p f xs) ≡ true
owned-items os p f xs same h =
    all-update_where (is_owned os) p f xs (λ i. ap (λ v. any (has_uuid v) os) (same i)) ∙ h
