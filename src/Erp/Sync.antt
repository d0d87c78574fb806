-- ===== src/Erp/Sync.antt =====
-- The lines of the ERP after an order was written.
use integrado_web_xd.Prelude.{
  ℕ, ◌+◌, ◌≡◌, refl, sym, ◌∙◌, ap, arith, String, not, Option, none, some, List, [], ◌∷◌, ◌++◌,
  if◌then◌else◌, eq_iff, keep, keep-append, Bool-cases, inl, inr, append-nil,
}
use integrado_web_xd.Orders.{Item, StoredOrder, is_final}
use integrado_web_xd.Erp.Numbers.{parse_command_number, number}
use integrado_web_xd.Erp.{
  Line, Xd, Reads, synced, build_lines, of_order, select_order_number, resolve_order_number,
  resolve_user_id, refresh_table_state, write_order, sync_order,
}

-- What the ERP shall hold of an order: nothing of a final one, and the lines of an open one.
unfoldable pub expected_lines : Reads → StoredOrder → ℕ → ℕ → List Line
unfolding build_lines resolve_user_id
expected_lines reads order object_id order_number =
    if is_final order.order.status
    then []
    else build_lines reads order object_id order_number
        (resolve_user_id reads order.order.operator_code order.order.operator_name) 1 order.items

lines-refresh :
    (reads : Reads) (now object_id : ℕ) (at people : Option ℕ) (s : Xd)
    → (refresh_table_state reads now object_id at people s).lines ≡ s.lines
unfolding refresh_table_state
lines-refresh reads now object_id at people s = ground arith

keep-own :
    (uuid : String) (ls : List Line)
    → keep (of_order uuid) (keep (λ l. not (of_order uuid l)) ls) ≡ []
keep-own uuid [] = refl
keep-own uuid (l ∷ ls) = ground (arith, keep-own uuid ls)

keep-others :
    (uuid : String) (ls : List Line)
    → keep (λ l. not (of_order uuid l)) (keep (λ l. not (of_order uuid l)) ls)
      ≡ keep (λ l. not (of_order uuid l)) ls
keep-others uuid [] = refl
keep-others uuid (l ∷ ls) = ground (arith, keep-others uuid ls)

own-build_lines :
    (reads : Reads) (order : StoredOrder) (object_id order_number user_id start : ℕ)
    (items : List Item)
    → let ls = build_lines reads order object_id order_number user_id start items in
      (keep (of_order order.order.uuid) ls ≡ ls)
      × (keep (λ l. not (of_order order.order.uuid l)) ls ≡ [])
unfolding build_lines
own-build_lines reads order object_id order_number user_id start [] = (refl, refl)
own-build_lines reads order object_id order_number user_id start (i ∷ items) = ground (
  arith,
  own-build_lines reads order object_id order_number user_id (start + 1) items,
  eq_iff order.order.uuid order.order.uuid,
)

lines-write_order :
    (reads : Reads) (now object_id order_number : ℕ) (order : StoredOrder) (s : Xd)
    → (write_order reads now object_id order_number order s).lines
      ≡ keep (λ l. not (of_order order.order.uuid l)) s.lines
        ++ expected_lines reads order object_id order_number
unfolding write_order expected_lines
lines-write_order reads now object_id order_number order s =
    elim (Bool-cases (is_final order.order.status)) [
      | inl t ↦ rw (t) (
          lines-refresh reads now object_id none none (record s { lines = others })
          ∙ sym (append-nil others))
      | inr f ↦ rw (f) (
          lines-refresh reads now object_id (some order.order.created_at) order.order.people_count
            (record s {
              lines =
                  others ++ build_lines reads order object_id order_number user_id 1 order.items;
            }))
    ]
  where
    others : List Line
    others = keep (λ l. not (of_order order.order.uuid l)) s.lines

    user_id : ℕ
    user_id = resolve_user_id reads order.order.operator_code order.order.operator_name

own-expected_lines :
    (reads : Reads) (order : StoredOrder) (object_id order_number : ℕ)
    → let ls = expected_lines reads order object_id order_number in
      (keep (of_order order.order.uuid) ls ≡ ls)
      × (keep (λ l. not (of_order order.order.uuid l)) ls ≡ [])
unfolding expected_lines
own-expected_lines reads order object_id order_number = ground (
  arith,
  own-build_lines reads order object_id order_number
      (resolve_user_id reads order.order.operator_code order.order.operator_name) 1 order.items,
)

lines-select :
    (order_number : Option ℕ) (object_id : ℕ) (s : Xd)
    → (select_order_number order_number object_id s).0.lines ≡ s.lines
unfolding select_order_number resolve_order_number
lines-select order_number object_id s = ground arith

pub sync_order-number :
    (reads : Reads) (now : ℕ) (order_number : Option ℕ) (order : StoredOrder) (s : Xd)
    (object_id : ℕ)
    → parse_command_number order.order.command_number ≡ number object_id
    → sync_order reads now order_number order s ≡ (
      write_order reads now object_id
          (select_order_number order_number object_id s).1
          order
          (select_order_number order_number object_id s).0,
      synced (record {
        sale_zone_area_object_id = object_id;
        order_number = (select_order_number order_number object_id s).1;
      }),
    )
unfolding sync_order
sync_order-number reads now order_number order s object_id e = rw (e, sync_order) refl

-- With a number for its table, an order that is written is in the ERP exactly as it is in the shop: of
-- an open order there are the lines of its items, in their order, under the order number that is
-- answered, and none of a closed or cancelled one; the lines of the other orders stay, in their order.
pub lines-sync_order :
    (reads : Reads) (now : ℕ) (order_number : Option ℕ) (order : StoredOrder) (s : Xd)
    (object_id : ℕ)
    → parse_command_number order.order.command_number ≡ number object_id
    → let selected = (select_order_number order_number object_id s).1 in
      let after = sync_order reads now order_number order s in
      (after.1 ≡ synced (record { sale_zone_area_object_id = object_id; order_number = selected }))
      × (keep (of_order order.order.uuid) after.0.lines
          ≡ expected_lines reads order object_id selected)
      × (keep (λ l. not (of_order order.order.uuid l)) after.0.lines
          ≡ keep (λ l. not (of_order order.order.uuid l)) s.lines)
lines-sync_order reads now order_number order s object_id e =
    let n = (select_order_number order_number object_id s).1 in
    let numbered = (select_order_number order_number object_id s).0 in
    let uuid = order.order.uuid in
    let own = own-expected_lines reads order object_id n in
    let before = keep (λ l. not (of_order uuid l)) numbered.lines in
    rw
      (
        sync_order-number reads now order_number order s object_id e,
        lines-write_order reads now object_id n order numbered,
      )
      (
        refl,
        keep-append (of_order uuid) before (expected_lines reads order object_id n)
            ∙ ap (λ ls. ls ++ keep (of_order uuid) (expected_lines reads order object_id n))
                (keep-own uuid numbered.lines)
            ∙ own.0,
        keep-append (λ l. not (of_order uuid l)) before (expected_lines reads order object_id n)
            ∙ ap (λ ls. keep (λ l. not (of_order uuid l)) before ++ ls) own.1
            ∙ append-nil (keep (λ l. not (of_order uuid l)) before)
            ∙ keep-others uuid numbered.lines
            ∙ ap (keep (λ l. not (of_order uuid l))) (lines-select order_number object_id s),
      )
