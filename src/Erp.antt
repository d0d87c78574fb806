-- ===== src/Erp.antt =====
-- agent_local/db/xd_open_orders_writer.py: an order of the shop, written into the tables of the ERP.
-- The tables of the ERP that are written are lists of rows in the order of their ids; of the others
-- the model takes what the code reads of them as given. Amounts stand in millionths, and the rate of a
-- tax and of the service in millionths of a percent. A line keeps the columns that are not constants.
pub mod Numbers
pub mod Sync
pub mod Tables
pub mod Amounts
pub mod Push
mod Tests
use Prim.Native.String
use integrado_web_xd.Prelude.{
  ℕ, ◌+◌, ◌-◌, ◌*◌, ◌/◌, max, String, Bool, true, false, not, ◌&&◌, ◌||◌, Option, none, some,
  is_some, or_else, List, [], ◌∷◌, ◌++◌, map, leb, nat_eq, if◌then◌else◌, ◌==◌, keep, any, length,
  first_where, update_where,
}
use integrado_web_xd.Prelude.Text.{decimal}
use integrado_web_xd.Orders.{
  Order, Item, Status, draft, closed, cancelled, StoredOrder, is_final, given, given_id,
}
use integrado_web_xd.Erp.Numbers.{
  round_half_up, parse_command_number, ParsedNumber, number, not_numeric, not_positive,
}

pub record ItemData : Type 0 where
  pub group_id : ℕ
  pub item_type : ℕ
  pub tax_id : ℕ
  pub tax_value : ℕ
  pub average_cost_price : ℕ

-- A row of tmpdocumentstables.
pub record Line : Type 0 where
  pub sale_zone_area_object_id : ℕ
  pub order_number : ℕ
  pub creation_user_id : ℕ
  pub creation_date : ℕ
  pub sort_number : ℕ
  pub item_key_id : String
  pub item_group_id : ℕ
  pub item_description : String
  pub item_type : ℕ
  pub quantity : ℕ
  pub retail_price : ℕ
  pub tax_id : ℕ
  pub tax_value : ℕ
  pub total_income : ℕ
  pub total_taxes : ℕ
  pub total : ℕ
  pub net_price : ℕ
  pub average_cost_price : ℕ
  pub observation : String
  pub parent_guid : String

-- A row of xconfigsalezonesareaobjects; its total is in thousandths.
pub record AreaObject : Type 0 where
  pub id : ℕ
  pub description : String
  pub status : ℕ
  pub total : ℕ
  pub number_persons : ℕ
  pub login_date : Option ℕ
  pub logout_date : Option ℕ

-- `order_counter` is the counter of the row of xconfig.
pub record Xd : Type 0 where
  pub lines : List Line
  pub area_objects : List AreaObject
  pub order_counter : Option ℕ

-- What is read of the ERP: the data of a product, the user of an operator, the service percentage, and
-- the columns that the ERP gives to a new row.
pub record Reads : Type 0 where
  pub load_item_data : String → ItemData
  pub user_of : String → Option ℕ
  pub default_user_id : ℕ
  pub service_percent : ℕ
  pub new_object : AreaObject

pub record XdOrderSyncResult : Type 0 where
  pub sale_zone_area_object_id : ℕ
  pub order_number : ℕ

pub data SyncReply : Type 0 where
  synced : XdOrderSyncResult → SyncReply
  value_error : String → SyncReply

abbrev pub hundred : ℕ
hundred = 100000000

-- `_build_line`. The item has thousandths, ten-thousandths and cents.
unfoldable pub build_line : Reads → StoredOrder → ℕ → ℕ → ℕ → ℕ → Item → Line
unfolding round_half_up
build_line reads order object_id order_number user_id sort_number item =
    let data_of : ItemData = reads.load_item_data item.product_code in
    let rate = data_of.tax_value in
    let retail_price = item.unit_price * 100 in
    let total = item.line_total * 10000 in
    let income =
      if nat_eq rate 0 then total else round_half_up (total * hundred) (hundred + rate) in
    record {
      sale_zone_area_object_id = object_id;
      order_number = order_number;
      creation_user_id = user_id;
      creation_date = order.order.created_at;
      sort_number = sort_number;
      item_key_id = item.product_code;
      item_group_id = data_of.group_id;
      item_description = item.description;
      item_type = data_of.item_type;
      quantity = item.quantity * 1000;
      retail_price = retail_price;
      tax_id = data_of.tax_id;
      tax_value = rate;
      total_income = income;
      total_taxes = total - income;
      total = total;
      net_price =
          if nat_eq rate 0
          then retail_price
          else round_half_up (retail_price * hundred) ((hundred + rate) * 10000) * 10000;
      average_cost_price = data_of.average_cost_price;
      observation = or_else item.notes "";
      parent_guid = order.order.uuid;
    }

-- `enumerate(order.items, start=...)`
unfoldable pub build_lines : Reads → StoredOrder → ℕ → ℕ → ℕ → ℕ → List Item → List Line
unfolding build_line
build_lines reads order object_id order_number user_id start [] = []
build_lines reads order object_id order_number user_id start (item ∷ items) =
    build_line reads order object_id order_number user_id start item
    ∷ build_lines reads order object_id order_number user_id (start + 1) items

abbrev pub on_object : ℕ → Line → Bool
on_object object_id l = nat_eq l.sale_zone_area_object_id object_id

abbrev pub of_order : String → Line → Bool
of_order uuid l = l.parent_guid == uuid

-- The counter stays NULL if it is: GREATEST of NULL is NULL.
unfoldable pub resolve_order_number : ℕ → Xd → Xd × ℕ
resolve_order_number object_id s = elim (first_where (on_object object_id) s.lines) [
  | some l ↦ (s, l.order_number)
  | none ↦
      let order_number = or_else (given_id s.order_counter) 1 in
      (
        record s {
          order_counter = elim s.order_counter [
            | none ↦ none
            | some c ↦ some (max c (order_number + 1))
          ];
        },
        order_number,
      )
]

-- `order_number or self._resolve_order_number(...)`
unfoldable pub select_order_number : Option ℕ → ℕ → Xd → Xd × ℕ
unfolding resolve_order_number
select_order_number order_number object_id s = elim (given_id order_number) [
  | some n ↦ (s, n)
  | none ↦ resolve_order_number object_id s
]

abbrev found_user : Reads → Option String → Option ℕ
found_user reads none = none
found_user reads (some value) = if value == "" then none else reads.user_of value

unfoldable pub resolve_user_id : Reads → Option String → Option String → ℕ
resolve_user_id reads operator_code operator_name =
    or_else (found_user reads operator_code)
      (or_else (found_user reads operator_name) reads.default_user_id)

abbrev pub is_object : ℕ → AreaObject → Bool
is_object object_id t = nat_eq t.id object_id

unfoldable pub ensure_table_object : Reads → ℕ → Xd → Xd
ensure_table_object reads object_id s =
    if any (is_object object_id) s.area_objects then s else record s {
      area_objects =
          s.area_objects
          ++ record reads.new_object { id = object_id; description = decimal object_id } ∷ [];
    }

-- The total of the lines, in millionths.
abbrev pub sum_total : List Line → ℕ
sum_total [] = 0
sum_total (l ∷ ls) = l.total + sum_total ls

-- `_money3` of the total with the service.
unfoldable pub visual_total : ℕ → ℕ → ℕ
unfolding round_half_up
visual_total service_percent raw_total =
    round_half_up (raw_total * (hundred + service_percent)) (hundred * 1000)

abbrev pub min_created : List Line → Option ℕ
min_created [] = none
min_created (l ∷ ls) = elim (min_created ls) [
  | none ↦ some l.creation_date
  | some d ↦ (if leb l.creation_date d then some l.creation_date else some d)
]

unfoldable pub refresh_table_state : Reads → ℕ → ℕ → Option ℕ → Option ℕ → Xd → Xd
unfolding ensure_table_object visual_total
refresh_table_state reads now object_id created_at people_count s0 =
    let s = ensure_table_object reads object_id s0 in
    let here = keep (on_object object_id) s.lines in
    record s {
      area_objects =
          update_where (is_object object_id)
            (λ t.
              if leb (length here) 0
              then record t { status = 0; total = 0; logout_date = some now; number_persons = 0 }
              else record t {
                status = 1;
                total = visual_total reads.service_percent (sum_total here);
                login_date = some (or_else created_at (or_else (min_created here) now));
                logout_date = none;
                number_persons = or_else people_count 0;
              })
            s.area_objects;
    }

-- The lines of the order are deleted, and those of an order that is open are written again.
unfoldable pub write_order : Reads → ℕ → ℕ → ℕ → StoredOrder → Xd → Xd
unfolding resolve_user_id refresh_table_state build_lines
write_order reads now object_id order_number order s =
    let others = keep (λ l. not (of_order order.order.uuid l)) s.lines in
    if is_final order.order.status
    then refresh_table_state reads now object_id none none (record s { lines = others })
    else let user_id = resolve_user_id reads order.order.operator_code order.order.operator_name in
      refresh_table_state reads now object_id (some order.order.created_at) order.order.people_count
        (record s {
          lines = others ++ build_lines reads order object_id order_number user_id 1 order.items;
        })

unfoldable pub sync_order : Reads → ℕ → Option ℕ → StoredOrder → Xd → Xd × SyncReply
unfolding parse_command_number select_order_number write_order
sync_order reads now order_number order s = elim (parse_command_number order.order.command_number) [
  | not_numeric ↦ (s, value_error "Mesa precisa ser numerica para entrar no XD.")
  | not_positive ↦ (s, value_error "Mesa precisa ser maior que zero para entrar no XD.")
  | number object_id ↦
      let (numbered, selected) = select_order_number order_number object_id s in
      (
        write_order reads now object_id selected order numbered,
        synced (record { sale_zone_area_object_id = object_id; order_number = selected }),
      )
]
