-- ===== src/Orders/Requests.antt =====
-- The calls that change an order, its items or its account, as values.
use integrado_web_xd.Prelude.{ℕ, String, Option, List, [], ◌∷◌}
use integrado_web_xd.Orders.{Store, StoredOrderSession}
use integrado_web_xd.Orders.Editing.{
  LocalOrderItemCreate, LocalOrderItemUpdate, LocalOrderCreate, LocalOrderCloseRequest, create,
  add_item, clear_items, update_item, remove_item, close_order, cancel_order,
}
use integrado_web_xd.Orders.Accounts.{
  LocalOrderPartialPaymentRequest, LocalOrderDiscountRequest, LocalOrderOperationRequest,
  LocalOrderTransferRequest, record_partial_payment, apply_discount, void_order_or_item,
  transfer_order, mark_order_synced,
}

-- The tenant and the order come first where a call has them.
pub data Edit : Type 0 where
  add : LocalOrderItemCreate → Edit
  clear : Edit
  update : ℕ → LocalOrderItemUpdate → Edit
  remove : ℕ → Edit
  close : LocalOrderCloseRequest → StoredOrderSession → Edit
  cancel : Option String → Edit

pub data Request : Type 0 where
  start : (empresa_id order_uuid : String) → LocalOrderCreate → Request
  edit : (empresa_id order_uuid : String) → Edit → Request
  pay : String → StoredOrderSession → LocalOrderPartialPaymentRequest → Request
  discount : String → StoredOrderSession → LocalOrderDiscountRequest → Request
  void : String → StoredOrderSession → LocalOrderOperationRequest → Request
  transfer : String → StoredOrderSession → LocalOrderTransferRequest → Request
  sync : (order_uuid : String) → Request

unfoldable pub run_edit : ℕ → String → String → Edit → Store → Store
run_edit now e u (add i) s = (add_item now e u i s).0
run_edit now e u clear s = (clear_items now e u s).0
run_edit now e u (update id i) s = (update_item now e u id i s).0
run_edit now e u (remove id) s = (remove_item now e u id s).0
run_edit now e u (close p session) s = (close_order now e u p session s).0
run_edit now e u (cancel reason) s = (cancel_order now e u reason s).0

-- The tables after a call at a time, whether it returns or raises.
unfoldable pub run : ℕ → Request → Store → Store
run now (start e u p) s = (create now u e p s).0
run now (edit e u op) s = run_edit now e u op s
run now (pay e session p) s = (record_partial_payment now e session p s).0
run now (discount e session p) s = (apply_discount now e session p s).0
run now (void e session p) s = (void_order_or_item now e session p s).0
run now (transfer e session p) s = (transfer_order now e session p s).0
run now (sync u) s = mark_order_synced now u s

-- A sequence of calls, each with its time.
unfoldable pub run_all : List (ℕ × Request) → Store → Store
run_all [] s = s
run_all ((now, r) ∷ rs) s = run_all rs (run now r s)
