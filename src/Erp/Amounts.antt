-- ===== src/Erp/Amounts.antt =====
-- The amounts of an order in the ERP.
use integrado_web_xd.Prelude.{
  ℕ, ◌+◌, ◌*◌, ◌≡◌, refl, sym, ◌∙◌, ap, subst, arith, String, Bool, true, false, some, List, [],
  ◌∷◌, ◌==◌, eq_iff, keep, all, first_where, on_option, nat_eq,
}
use integrado_web_xd.Orders.{
  Order, Item, Store, StoredOrder, Result, ok, is_final, is_of, in_order, total_of, get_by_uuid,
}
use integrado_web_xd.Orders.Invariant.{IsSound, is_totalled}
use integrado_web_xd.Erp.Numbers.{round_half_up-le}
use integrado_web_xd.Erp.{Line, Reads, build_line, build_lines, sum_total, resolve_user_id, hundred}
use integrado_web_xd.Erp.Sync.{expected_lines}

-- The parts of a line add up.
abbrev pub is_split : Line → Bool
is_split l = nat_eq (l.total_income + l.total_taxes) l.total

module _ (reads : Reads) (order : StoredOrder) (object_id order_number user_id : ℕ) where
  build_line-is_split :
      (start : ℕ) (item : Item)
      → is_split (build_line reads order object_id order_number user_id start item) ≡ true
  unfolding build_line
  build_line-is_split start item = ground (
    arith,
    round_half_up-le (item.line_total * 10000) hundred
        (reads.load_item_data item.product_code).tax_value (omega arith),
  )

  total-build_line :
      (start : ℕ) (item : Item)
      → (build_line reads order object_id order_number user_id start item).total
        ≡ item.line_total * 10000
  unfolding build_line
  total-build_line start item = refl

  build_lines-is_split :
      (start : ℕ) (items : List Item)
      → all is_split (build_lines reads order object_id order_number user_id start items) ≡ true
  unfolding build_lines
  build_lines-is_split start [] = refl
  build_lines-is_split start (i ∷ items) =
      ground (arith, build_line-is_split start i, build_lines-is_split (start + 1) items)

  sum_total-build_lines :
      (u : String) (start : ℕ) (items : List Item)
      → sum_total
          (build_lines reads order object_id order_number user_id start (keep (in_order u) items))
        ≡ total_of u items * 10000
  unfolding build_lines
  sum_total-build_lines u start [] = refl
  sum_total-build_lines u start (i ∷ items) = ground (
    arith,
    sum_total-build_lines u start items,
    sum_total-build_lines u (start + 1) items,
    total-build_line start i,
  )

totalled_at :
    (u : String) (items : List Item) (o : Order)
    → is_totalled items o ≡ true
    → o.uuid ≡ u
    → o.total_amount ≡ total_of u items
totalled_at u items o h e = subst (λ v. o.total_amount ≡ total_of v items) e (ground (arith, h))

first-totalled :
    (e u : String) (items : List Item) (os : List Order) (o : Order)
    → all (is_totalled items) os ≡ true
    → first_where (is_of e u) os ≡ some o
    → o.total_amount ≡ total_of u items
first-totalled e u items [] o h found = ground (arith, found)
first-totalled e u items (x ∷ os) o h found =
    ground (arith, first-totalled e u items os o, eq_iff x.uuid u, totalled_at u items x)

amounts-expected_lines :
    (reads : Reads) (order : StoredOrder) (object_id order_number : ℕ) (u : String)
    (items : List Item)
    → order.items ≡ keep (in_order u) items
    → is_final order.order.status ≡ false
    → (sum_total (expected_lines reads order object_id order_number) ≡ total_of u items * 10000)
      × (all is_split (expected_lines reads order object_id order_number) ≡ true)
unfolding expected_lines
amounts-expected_lines reads order object_id order_number u items e open_order =
    let user_id = resolve_user_id reads order.order.operator_code order.order.operator_name in
    rw (open_order, e)
      (
        sum_total-build_lines reads order object_id order_number user_id u 1 items,
        build_lines-is_split reads order object_id order_number user_id 1 (keep (in_order u) items),
      )

-- The amounts agree: the lines of an open order that is read from a sound store add up to its total,
-- and the income and the taxes of each line to the total of the line.
pub expected_lines-total :
    (e u : String) (s : Store) (order : StoredOrder) (reads : Reads) (object_id order_number : ℕ)
    → IsSound s
    → get_by_uuid e u s ≡ ok order
    → is_final order.order.status ≡ false
    → (sum_total (expected_lines reads order object_id order_number)
        ≡ order.order.total_amount * 10000)
      × (all is_split (expected_lines reads order object_id order_number) ≡ true)
unfolding get_by_uuid
expected_lines-total e u s order reads object_id order_number sound =
    on_option P (first_where (is_of e u) s.orders) _ _ (λ n h. ground (arith, h))
      (λ o found h open_order.
        let row : record {
          order = o;
          items = keep (in_order u) s.items;
          payments = keep (λ p. p.order_uuid == u) s.payments;
        }
            ≡ order =
          ground (arith, h) in
        let items : order.items ≡ keep (in_order u) s.items = sym (ap (λ r. r.items) row) in
        let total : order.order.total_amount ≡ total_of u s.items =
          ap (λ r. r.order.total_amount) (sym row)
          ∙ first-totalled e u s.items s.orders o sound.totalled found in
        let amounts =
          amounts-expected_lines reads order object_id order_number u s.items items open_order in
        (amounts.0 ∙ ap (λ n. n * 10000) (sym total), amounts.1))
  where
    P : Result StoredOrder → Type 0
    P r =
        r ≡ ok order
        → is_final order.order.status ≡ false
        → (sum_total (expected_lines reads order object_id order_number)
            ≡ order.order.total_amount * 10000)
          × (all is_split (expected_lines reads order object_id order_number) ≡ true)
