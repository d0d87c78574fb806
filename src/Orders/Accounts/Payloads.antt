-- ===== src/Orders/Accounts/Payloads.antt =====
-- The requests of the account's methods, in agent_local/orders/schemas.py, and the summary they give.
use integrado_web_xd.Prelude.{ℕ, String, Option, List}
use integrado_web_xd.Orders.{DiscountType, TransferType, StoredOrder}

pub record LocalOrderPartialPaymentRequest : Type 0 where
  pub order_uuid : Option String
  pub command_number : Option String
  pub payment_method : String
  pub amount : ℕ
  pub selected_item_ids : Option (List ℕ)

pub record LocalOrderDiscountRequest : Type 0 where
  pub order_uuid : Option String
  pub command_number : Option String
  pub discount_type : DiscountType
  pub value : ℕ
  pub reason : String

pub record LocalOrderOperationRequest : Type 0 where
  pub order_uuid : Option String
  pub command_number : Option String
  pub item_id : Option ℕ
  pub reason : Option String

pub record LocalOrderTransferRequest : Type 0 where
  pub transfer_type : TransferType
  pub source_order_uuid : Option String
  pub source_command_number : Option String
  pub item_id : Option ℕ
  pub destination_command_number : Option String
  pub destination_table_reference : Option String
  pub reason : String

pub record Summary : Type 0 where
  pub order : StoredOrder
  pub subtotal : ℕ
  pub discounts : ℕ
  pub partial_payments : ℕ
  pub total : ℕ
  pub remaining : ℕ
