-- ===== src/Erp/Push.antt =====
-- agent_local/local_api.py: `_sync_order_to_xd`, which writes an order into the ERP and notes it in the
-- tables of the shop, with get_xd_sync and save_xd_sync of agent_local/orders/repository.py. The orders
-- are one part of the shop and the table local_order_xd_sync another.
use integrado_web_xd.Prelude.{
  ℕ, ◌≡◌, refl, sym, ◌∙◌, ap, subst, arith, String, Bool, false, Option, none, some, List, [], ◌∷◌,
  if◌then◌else◌, ◌==◌, eq_iff, first_where, nat_eq, keep,
}
use integrado_web_xd.Orders.{Store, StoredOrder}
use integrado_web_xd.Orders.Accounts.{mark_order_synced}
use integrado_web_xd.Orders.Outbox.{is_waiting, mark_order_synced-waiting}
use integrado_web_xd.Erp.Numbers.{
  parse_command_number, ParsedNumber, number, not_numeric, not_positive,
}
use integrado_web_xd.Erp.{
  Xd, Reads, SyncReply, synced, value_error, XdOrderSyncResult, select_order_number, sync_order,
}
use integrado_web_xd.Erp.Sync.{sync_order-number}

pub record XdSync : Type 0 where
  pub order_uuid : String
  pub sale_zone_area_object_id : ℕ
  pub order_number : ℕ
  pub synced_at : ℕ

pub record Shop : Type 0 where
  pub orders : Store
  pub xd_sync : List XdSync
  pub xd : Xd

abbrev pub is_sync_of : String → XdSync → Bool
is_sync_of order_uuid row = row.order_uuid == order_uuid

unfoldable pub get_xd_sync : String → List XdSync → Option XdSync
get_xd_sync order_uuid = first_where (is_sync_of order_uuid)

-- `INSERT ... ON CONFLICT(order_uuid) DO UPDATE`
unfoldable pub save_xd_sync : ℕ → String → XdOrderSyncResult → List XdSync → List XdSync
save_xd_sync now order_uuid result [] =
    record {
      order_uuid = order_uuid;
      sale_zone_area_object_id = result.sale_zone_area_object_id;
      order_number = result.order_number;
      synced_at = now;
    }
    ∷ []
save_xd_sync now order_uuid result (row ∷ rows) =
    let rest = save_xd_sync now order_uuid result rows in
    if is_sync_of order_uuid row
    then record row {
      sale_zone_area_object_id = result.sale_zone_area_object_id;
      order_number = result.order_number;
      synced_at = now;
    }
      ∷ rows
    else row ∷ rest

abbrev pub known_number : String → List XdSync → Option ℕ
unfolding get_xd_sync
known_number order_uuid rows = elim (get_xd_sync order_uuid rows) [
  | none ↦ none
  | some row ↦ some row.order_number
]

-- What follows the write to the ERP; an exception of it ends the call.
unfoldable pub note_sync : ℕ → String → Shop → Xd × SyncReply → Shop × SyncReply
unfolding save_xd_sync
note_sync now order_uuid s (xd, synced result) = (
  record {
    orders = mark_order_synced now order_uuid s.orders;
    xd_sync = save_xd_sync now order_uuid result s.xd_sync;
    xd = xd;
  },
  synced result,
)
note_sync now order_uuid s (xd, value_error message) = (record s { xd = xd }, value_error message)

unfoldable pub sync_order_to_xd : Reads → ℕ → StoredOrder → Shop → Shop × SyncReply
unfolding known_number note_sync
sync_order_to_xd reads now order s =
    note_sync now order.order.uuid s
      (sync_order reads now (known_number order.order.uuid s.xd_sync) order s.xd)

known_number-save_xd_sync :
    (now : ℕ) (u : String) (result : XdOrderSyncResult) (rows : List XdSync)
    → known_number u (save_xd_sync now u result rows) ≡ some result.order_number
unfolding known_number save_xd_sync
known_number-save_xd_sync now u result [] = ground (arith, eq_iff u u)
known_number-save_xd_sync now u result (row ∷ rows) =
    ground (arith, known_number-save_xd_sync now u result rows)

note_sync-synced :
    (now : ℕ) (u : String) (s after : Shop) (p : Xd × SyncReply) (result : XdOrderSyncResult)
    → note_sync now u s p ≡ (after, synced result)
    → (p.1 ≡ synced result)
      × (after.xd_sync ≡ save_xd_sync now u result s.xd_sync)
      × (after.orders ≡ mark_order_synced now u s.orders)
unfolding note_sync
note_sync-synced now u s after (xd, synced r) result h =
    let same : r ≡ result = ground (arith, ap (λ q. q.1) h) in
    let shop = ap (λ q. q.0) h in
    (
      ap synced same,
      sym (ap (λ q. q.xd_sync) shop) ∙ ap (λ q. save_xd_sync now u q s.xd_sync) same,
      sym (ap (λ q. q.orders) shop),
    )
note_sync-synced now u s after (xd, value_error message) result h = ground (arith, ap (λ q. q.1) h)

select-given :
    (n object_id : ℕ) (xd : Xd)
    → nat_eq n 0 ≡ false
    → (select_order_number (some n) object_id xd).1 ≡ n
unfolding select_order_number
select-given n object_id xd positive = ground arith

refused_not_numeric :
    (reads : Reads) (now : ℕ) (order_number : Option ℕ) (order : StoredOrder) (xd : Xd)
    → parse_command_number order.order.command_number ≡ not_numeric
    → (sync_order reads now order_number order xd).1
      ≡ value_error "Mesa precisa ser numerica para entrar no XD."
unfolding sync_order
refused_not_numeric reads now order_number order xd e = rw (e, sync_order) refl

refused_not_positive :
    (reads : Reads) (now : ℕ) (order_number : Option ℕ) (order : StoredOrder) (xd : Xd)
    → parse_command_number order.order.command_number ≡ not_positive
    → (sync_order reads now order_number order xd).1
      ≡ value_error "Mesa precisa ser maior que zero para entrar no XD."
unfolding sync_order
refused_not_positive reads now order_number order xd e = rw (e, sync_order) refl

numbered_reply :
    (reads : Reads) (now n : ℕ) (order : StoredOrder) (xd : Xd) (result : XdOrderSyncResult)
    → nat_eq n 0 ≡ false
    → (sync_order reads now (some n) order xd).1 ≡ synced result
    → result.order_number ≡ n
numbered_reply reads now n order xd result positive h =
    parsed (parse_command_number order.order.command_number) refl
  where
    parsed :
        (p : ParsedNumber)
        → parse_command_number order.order.command_number ≡ p
        → result.order_number ≡ n
    parsed not_numeric e = ground (arith, h, refused_not_numeric reads now (some n) order xd e)
    parsed not_positive e = ground (arith, h, refused_not_positive reads now (some n) order xd e)
    parsed (number object_id) e = ground (
      arith,
      sym h ∙ ap (λ r. r.1) (sync_order-number reads now (some n) order xd object_id e),
      select-given n object_id xd positive,
    )

-- An order keeps its number: after a write to the ERP that succeeded with a number that is not zero,
-- none of the order's events waits, and every later write of the order that succeeds, on whatever table
-- and whatever the ERP has become, has the same number.
pub sync_order_to_xd-number :
    (reads other_reads : Reads) (now later : ℕ) (order other : StoredOrder) (s after final : Shop)
    (xd : Xd) (first second : XdOrderSyncResult)
    → other.order.uuid ≡ order.order.uuid
    → nat_eq first.order_number 0 ≡ false
    → sync_order_to_xd reads now order s ≡ (after, synced first)
    → sync_order_to_xd other_reads later other (record after { xd = xd }) ≡ (final, synced second)
    → (second.order_number ≡ first.order_number)
      × (keep (is_waiting order.order.uuid) after.orders.outbox ≡ [])
unfolding sync_order_to_xd
sync_order_to_xd-number reads other_reads now later order other s after final xd first second same
      positive h k =
    let uuid = order.order.uuid in
    let noted = note_sync-synced now uuid s after _ first h in
    let known : known_number other.order.uuid after.xd_sync ≡ some first.order_number =
      ap (λ u. known_number u after.xd_sync) same
      ∙ ap (known_number uuid) noted.1
      ∙ known_number-save_xd_sync now uuid first s.xd_sync in
    let again =
      note_sync-synced later other.order.uuid (record after { xd = xd }) final _ second k in
    (
      numbered_reply other_reads later first.order_number other xd second positive (
          subst (λ number. (sync_order other_reads later number other xd).1 ≡ synced second) known
            again.0),
      ap (λ o. keep (is_waiting uuid) o.outbox) noted.2
          ∙ mark_order_synced-waiting now uuid uuid s.orders
          ∙ ground (arith, eq_iff uuid uuid),
    )
