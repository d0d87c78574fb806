-- ===== src/Erp/Tests.antt =====
-- An order with one item on table 7, and the theorems on it.
use integrado_web_xd.Prelude.{
  ℕ, ◌*◌, ◌≡◌, refl, String, true, not, none, some, [], ◌∷◌, keep, all, map,
}
use integrado_web_xd.Orders.{
  outbox_event, Order, Item, Store, Status, draft, unsent, StoredOrder, get_by_uuid,
}
use integrado_web_xd.Orders.Invariant.{IsSound}
use integrado_web_xd.Orders.Money.{line_money}
use integrado_web_xd.Erp.Numbers.{parse_command_number, number, not_numeric, not_positive}
use integrado_web_xd.Erp.{XdOrderSyncResult}
use integrado_web_xd.Erp.{
  Line, AreaObject, Xd, Reads, synced, sync_order, of_order, select_order_number, sum_total,
}
use integrado_web_xd.Erp.Sync.{expected_lines, lines-sync_order}
use integrado_web_xd.Erp.Tables.{IsShown, sync_order-IsShown}
use integrado_web_xd.Erp.Push.{Shop, sync_order_to_xd, sync_order_to_xd-number}
use integrado_web_xd.Orders.Outbox.{is_waiting}
use integrado_web_xd.Erp.Amounts.{is_split, expected_lines-total}

abbrev order_row : String → Status → Order
order_row command status = record {
  uuid = "u1";
  empresa_id = "111";
  command_number = command;
  people_count = some 2;
  table_reference = none;
  operator_code = some "1";
  operator_name = none;
  customer_name = none;
  status = status;
  sync_status = unsent;
  total_amount = 2500;
  payment_method = none;
  amount_paid = none;
  closed_at = none;
  cancel_reason = none;
  notes = none;
  created_at = 5;
  updated_at = 5;
}

abbrev item : Item
item = record {
  id = 1;
  order_uuid = "u1";
  product_code = "P";
  description = "Pizza";
  quantity = 1000;
  unit_price = 250000;
  line_total = 2500;
  notes = none;
}

abbrev stored : String → Status → StoredOrder
stored command status = record {
  order = order_row command status;
  items = item ∷ [];
  payments = [];
}

-- Ten percent of tax and of service.
abbrev reads : Reads
reads = record {
  load_item_data = λ code. record {
    group_id = 1;
    item_type = 0;
    tax_id = 2;
    tax_value = 10000000;
    average_cost_price = 0;
  };
  user_of = λ name. none;
  default_user_id = 3;
  service_percent = 10000000;
  new_object = record {
    id = 0;
    description = "";
    status = 0;
    total = 0;
    number_persons = 0;
    login_date = none;
    logout_date = none;
  };
}

abbrev xd : Xd
xd = record { lines = []; area_objects = []; order_counter = some 4 }

abbrev figures : Line → ℕ × ℕ × ℕ × ℕ
figures l = (l.order_number, l.total, l.total_income, l.net_price)

abbrev state : AreaObject → ℕ × ℕ × ℕ
state t = (t.id, t.status, t.total)

table_numbers :
    (parse_command_number " 007 " ≡ number 7)
    × (parse_command_number "balcao" ≡ not_numeric)
    × (parse_command_number "-2" ≡ not_positive)
    × (parse_command_number "1_0" ≡ number 10)
    × (parse_command_number "1__0" ≡ not_numeric)
unfolding parse_command_number
table_numbers = (refl, refl, refl, refl, refl)

written_line :
    map figures (sync_order reads 9 none (stored "7" draft) xd).0.lines
    ≡ (4, 25000000, 22727273, 22730000) ∷ []
unfolding sync_order
written_line = refl

shown_table :
    map state (sync_order reads 9 none (stored "7" draft) xd).0.area_objects ≡ (7, 1, 27500) ∷ []
unfolding sync_order
shown_table = refl

lines-sync_order_example :
    let selected = (select_order_number none 7 xd).1 in
    let after = sync_order reads 9 none (stored "7" draft) xd in
    (after.1 ≡ synced (record { sale_zone_area_object_id = 7; order_number = selected }))
    × (keep (of_order "u1") after.0.lines ≡ expected_lines reads (stored "7" draft) 7 selected)
    × (keep (λ l. not (of_order "u1" l)) after.0.lines ≡ [])
unfolding parse_command_number
lines-sync_order_example = lines-sync_order reads 9 none (stored "7" draft) xd 7 refl

sync_order-IsShown_example : IsShown reads 7 (sync_order reads 9 none (stored "7" draft) xd).0
unfolding parse_command_number
sync_order-IsShown_example = sync_order-IsShown reads 9 none (stored "7" draft) xd 7 refl

abbrev shop : Store
shop = record {
  orders = order_row "7" draft ∷ [];
  items = item ∷ [];
  next_item_id = 2;
  outbox = [];
  payments = [];
  partial_payments = [];
  discounts = [];
  voids = [];
  transfers = [];
  operation_logs = [];
  operators = [];
  sessions = [];
  permissions = [];
}

shop-IsSound : IsSound shop
unfolding line_money
shop-IsSound = record { priced = refl; totalled = refl; owned = refl; distinct = refl }

expected_lines-total_example :
    (sum_total (expected_lines reads (stored "7" draft) 7 4) ≡ 2500 * 10000)
    × (all is_split (expected_lines reads (stored "7" draft) 7 4) ≡ true)
unfolding get_by_uuid
expected_lines-total_example =
    expected_lines-total "111" "u1" shop (stored "7" draft) reads 7 4 shop-IsSound refl refl

-- An order that moves from table 7 to table 8 leaves table 7 taken, with its old total and no line.
moved_order :
    let moved =
      (sync_order reads 10
        (some 4)
        (stored "8" draft)
        (sync_order reads 9 none (stored "7" draft) xd).0).0 in
    (map state moved.area_objects ≡ (7, 1, 27500) ∷ (8, 1, 27500) ∷ [])
    × (map (λ l. l.sale_zone_area_object_id) moved.lines ≡ 8 ∷ [])
unfolding sync_order
moved_order = (refl, refl)

abbrev floor : Shop
floor = record {
  orders = record shop { outbox = outbox_event 1 "u1" "order.created" ∷ [] };
  xd_sync = [];
  xd = xd;
}

abbrev seven : XdOrderSyncResult
seven = record { sale_zone_area_object_id = 7; order_number = 4 }

abbrev eight : XdOrderSyncResult
eight = record { sale_zone_area_object_id = 8; order_number = 4 }

sync_order_to_xd-number_example :
    (eight.order_number ≡ seven.order_number)
    × (keep (is_waiting "u1") (sync_order_to_xd reads 9 (stored "7" draft) floor).0.orders.outbox
        ≡ [])
unfolding sync_order_to_xd sync_order
sync_order_to_xd-number_example =
    sync_order_to_xd-number reads reads 9 10 (stored "7" draft) (stored "8" draft) floor
      (sync_order_to_xd reads 9 (stored "7" draft) floor).0
      (sync_order_to_xd reads 10 (stored "8" draft)
        (record (sync_order_to_xd reads 9 (stored "7" draft) floor).0 { xd = xd })).0
      xd seven eight refl refl refl refl
