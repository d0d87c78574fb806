-- ===== src/Orders/Tables.antt =====
-- The tables of agent_local/orders/repository.py, the exceptions of its methods, and what they return.
use integrado_web_xd.Prelude.{ℕ, ◌≡◌, refl, String, Bool, Option, List}

pub data Status : Type 0 where
  draft closed cancelled : Status

pub data SyncStatus : Type 0 where
  unsent synced : SyncStatus

pub record Order : Type 0 where
  pub uuid : String
  pub empresa_id : String
  pub command_number : String
  pub people_count : Option ℕ
  pub table_reference : Option String
  pub operator_code : Option String
  pub operator_name : Option String
  pub customer_name : Option String
  pub status : Status
  pub sync_status : SyncStatus
  pub total_amount : ℕ
  pub payment_method : Option String
  pub amount_paid : Option ℕ
  pub closed_at : Option ℕ
  pub cancel_reason : Option String
  pub notes : Option String
  pub created_at : ℕ
  pub updated_at : ℕ

pub record Item : Type 0 where
  pub id : ℕ
  pub order_uuid : String
  pub product_code : String
  pub description : String
  pub quantity : ℕ
  pub unit_price : ℕ
  pub line_total : ℕ
  pub notes : Option String

pub record OutboxEvent : Type 0 where
  pub order_uuid : String
  pub event_type : String
  pub sync_status : SyncStatus
  pub created_at : ℕ
  pub synced_at : Option ℕ

-- A row of local_order_payments.
pub record Payment : Type 0 where
  pub order_uuid : String
  pub payment_method : String
  pub amount : ℕ
  pub created_at : ℕ

pub record PartialPayment : Type 0 where
  pub order_uuid : String
  pub operator_code : String
  pub payment_method : String
  pub amount : ℕ
  pub selected_item_ids : List ℕ
  pub created_at : ℕ

pub data DiscountType : Type 0 where
  fixed percent : DiscountType

pub record Discount : Type 0 where
  pub order_uuid : String
  pub operator_code : String
  pub discount_type : DiscountType
  pub value : ℕ
  pub amount : ℕ
  pub reason : String
  pub created_at : ℕ

pub record VoidEntry : Type 0 where
  pub order_uuid : String
  pub item_id : Option ℕ
  pub operator_code : String
  pub reason : String
  pub created_at : ℕ

pub data TransferType : Type 0 where
  item command table : TransferType

pub record Transfer : Type 0 where
  pub source_order_uuid : String
  pub source_command_number : String
  pub item_id : Option ℕ
  pub destination_command_number : Option String
  pub destination_table_reference : Option String
  pub transfer_type : TransferType
  pub operator_code : String
  pub reason : String
  pub created_at : ℕ

-- A row of local_order_operation_logs; the JSON of `details` is left out.
pub record LogEntry : Type 0 where
  pub empresa_id : String
  pub operator_code : String
  pub operator_name : String
  pub operation_type : String
  pub order_uuid : String
  pub command_number : String
  pub item_id : Option ℕ
  pub reason : Option String
  pub created_at : ℕ

pub record Operator : Type 0 where
  pub code : String
  pub name : String
  pub password_hash : Option String
  pub active : Bool

pub record SessionRow : Type 0 where
  pub token : String
  pub operator_code : String
  pub created_at : ℕ
  pub expires_at : ℕ

pub record Permission : Type 0 where
  pub operator_code : String
  pub permission : String
  pub allowed : Bool

-- `next_item_id` is the AUTOINCREMENT counter of local_order_items.
pub record Store : Type 0 where
  pub orders : List Order
  pub items : List Item
  pub next_item_id : ℕ
  pub outbox : List OutboxEvent
  pub payments : List Payment
  pub partial_payments : List PartialPayment
  pub discounts : List Discount
  pub voids : List VoidEntry
  pub transfers : List Transfer
  pub operation_logs : List LogEntry
  pub operators : List Operator
  pub sessions : List SessionRow
  pub permissions : List Permission

-- The exceptions of the methods; a `missing_item` is the KeyError of an item.
pub data Error : Type 0 where
  key_error value_error permission_error runtime_error integrity_error : String → Error
  missing_item : ℕ → Error

pub data Result {ℓ} (A : Type ℓ) : Type ℓ where
  ok : A → Result A
  failed : Error → Result A

-- A property of what a method computes from a result, from the property on each branch.
pub on_result {ℓ ℓ' ℓ''} :
    {A : Type ℓ} {B : Type ℓ'} (P : B → Type ℓ'') (r : Result A) (f : Error → B) (g : A → B)
    → ((e : Error) → r ≡ failed e → P (f e))
    → ((a : A) → r ≡ ok a → P (g a))
    → P (elim r [ failed e ↦ f e | ok a ↦ g a ])
on_result P (failed e) f g h k = h e refl
on_result P (ok a) f g h k = k a refl

pub record StoredOrder : Type 0 where
  pub order : Order
  pub items : List Item
  pub payments : List Payment

pub record StoredOrderSession : Type 0 where
  pub token : String
  pub operator_code : String
  pub operator_name : String
  pub expires_at : ℕ
