-- ===== src/Erp/Tables.antt =====
-- The state of a table of the ERP after an order on it was written.
use integrado_web_xd.Prelude.{
  ℕ, ◌≡◌, sym, arith, true, false, Option, none, some, List, [], ◌∷◌, ◌++◌, if◌then◌else◌, keep,
  first_where, update_where, length, leb, Bool-cases, on_if, subst, inl, inr, any,
}
use integrado_web_xd.Orders.{StoredOrder, is_final}
use integrado_web_xd.Erp.Numbers.{parse_command_number, number}
use integrado_web_xd.Erp.Sync.{sync_order-number}
use integrado_web_xd.Erp.{
  select_order_number, Xd, AreaObject, Reads, on_object, is_object, visual_total, sum_total,
  refresh_table_state, ensure_table_object, write_order, sync_order,
}

-- The table shows its lines: it is free without any, and else taken, with their total.
abbrev pub IsShown : Reads → ℕ → Xd → Type 0
IsShown reads object_id s =
    let here = keep (on_object object_id) s.lines in
    (t : AreaObject) × (first_where (is_object object_id) s.area_objects ≡ some t)
    × (t.status ≡ (if leb (length here) 0 then 0 else 1))
    × (t.total
        ≡ (if leb (length here) 0 then 0 else visual_total reads.service_percent (sum_total here)))

first-update :
    (object_id : ℕ) (f : AreaObject → AreaObject) (ts : List AreaObject) (t : AreaObject)
    → ((u : AreaObject) → (f u).id ≡ u.id)
    → first_where (is_object object_id) ts ≡ some t
    → first_where (is_object object_id) (update_where (is_object object_id) f ts) ≡ some (f t)
first-update object_id f [] t h e = ground arith
first-update object_id f (u ∷ ts) t h e = ground (arith, first-update object_id f ts t h, h u)

first-new :
    (object_id : ℕ) (ts : List AreaObject) (t : AreaObject)
    → is_object object_id t ≡ true
    → any (is_object object_id) ts ≡ false
    → first_where (is_object object_id) (ts ++ t ∷ []) ≡ some t
first-new object_id [] t h e = ground arith
first-new object_id (u ∷ ts) t h e = ground (arith, first-new object_id ts t)

first-any :
    (object_id : ℕ) (ts : List AreaObject)
    → any (is_object object_id) ts ≡ true
    → (t : AreaObject) × (first_where (is_object object_id) ts ≡ some t)
first-any object_id [] e = ground arith
first-any object_id (u ∷ ts) e = elim (Bool-cases (is_object object_id u)) [
  | inl t ↦ (u, ground (arith, t))
  | inr f ↦
      let rest = first-any object_id ts (ground (arith, e, f)) in
      (rest.0, ground (arith, f, rest.1))
]

ensured :
    (reads : Reads) (object_id : ℕ) (s : Xd)
    → (t : AreaObject) × (first_where
          (is_object object_id)
          (ensure_table_object reads object_id s).area_objects
        ≡ some t)
unfolding ensure_table_object
ensured reads object_id s = elim (Bool-cases (any (is_object object_id) s.area_objects)) [
  | inl t ↦ rw (t) (first-any object_id s.area_objects t)
  | inr f ↦ rw (f) (_, first-new object_id s.area_objects _ (ground arith) f)
]

lines-ensured :
    (reads : Reads) (object_id : ℕ) (s : Xd)
    → (ensure_table_object reads object_id s).lines ≡ s.lines
unfolding ensure_table_object
lines-ensured reads object_id s = ground arith

refresh-IsShown :
    (reads : Reads) (now object_id : ℕ) (at people : Option ℕ) (s : Xd)
    → IsShown reads object_id (refresh_table_state reads now object_id at people s)
unfolding refresh_table_state
refresh-IsShown reads now object_id at people s =
    let d = ensured reads object_id s in
    (
      _,
      first-update object_id _ (ensure_table_object reads object_id s).area_objects d.0
          (λ u. ground arith) d.1,
      ground arith,
      ground arith,
    )

-- After an order was written, whatever it is, its table is shown.
pub write_order-IsShown :
    (reads : Reads) (now object_id order_number : ℕ) (order : StoredOrder) (s : Xd)
    → IsShown reads object_id (write_order reads now object_id order_number order s)
unfolding write_order
write_order-IsShown reads now object_id order_number order s =
    on_if (IsShown reads object_id) (is_final order.order.status) _ _
      (λ t. refresh-IsShown reads now object_id none none _)
      (λ f.
        refresh-IsShown reads now object_id (some order.order.created_at) order.order.people_count
          _)

-- When an order was written, its table in the ERP shows its lines: without lines it is free with the
-- total zero, and else it is taken, with the total of all its lines and the service, rounded.
pub sync_order-IsShown :
    (reads : Reads) (now : ℕ) (order_number : Option ℕ) (order : StoredOrder) (s : Xd)
    (object_id : ℕ)
    → parse_command_number order.order.command_number ≡ number object_id
    → IsShown reads object_id (sync_order reads now order_number order s).0
sync_order-IsShown reads now order_number order s object_id e =
    subst (λ r. IsShown reads object_id r.0)
      (sym (sync_order-number reads now order_number order s object_id e))
      (write_order-IsShown reads now object_id (select_order_number order_number object_id s).1
        order (select_order_number order_number object_id s).0)
