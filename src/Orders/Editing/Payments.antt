-- ===== src/Orders/Editing/Payments.antt =====
-- The payments that close an order: those of the request, their sum, and their methods.
use Prim.Native.String
use integrado_web_xd.Prelude.{
  ℕ, ◌+◌, String, Option, none, some, List, [], ◌∷◌, if◌then◌else◌, ◌==◌, any, or_else,
}
use integrado_web_xd.Orders.Tables.{Payment, value_error, Result, ok, failed}
use integrado_web_xd.Orders.{given}

pub record LocalOrderPaymentCreate : Type 0 where
  pub payment_method : String
  pub amount : ℕ

pub record LocalOrderCloseRequest : Type 0 where
  pub payment_method : Option String
  pub amount_paid : Option ℕ
  pub payments : Option (List LocalOrderPaymentCreate)

-- `_normalize_close_payments`. An amount has two decimals already. An empty list is false.
unfoldable pub normalize_close_payments :
    LocalOrderCloseRequest → Result (List LocalOrderPaymentCreate)
normalize_close_payments payload = elim (or_else payload.payments []) [
  | p ∷ ps ↦ ok (p ∷ ps)
  | [] ↦ elim (given payload.payment_method) [
    | none ↦ failed (value_error "Informe pagamento unico ou lista de pagamentos.")
    | some method ↦ elim payload.amount_paid [
      | none ↦ failed (value_error "Informe pagamento unico ou lista de pagamentos.")
      | some amount ↦ ok (record { payment_method = method; amount = amount } ∷ [])
    ]
  ]
]

abbrev pub paid : List LocalOrderPaymentCreate → ℕ
paid [] = 0
paid (p ∷ payments) = p.amount + paid payments

-- `" + ".join(dict.fromkeys(...))`: each method once, in the order of its first use.
abbrev pub join_methods : List String → List LocalOrderPaymentCreate → String
join_methods seen [] = ""
join_methods seen (p ∷ payments) =
    let skipped = join_methods seen payments in
    let rest = join_methods (p.payment_method ∷ seen) payments in
    let sep : String = elim seen [ [] ↦ "" | m ∷ ms ↦ " + " ] in
    if any (λ m. m == p.payment_method) seen
    then skipped
    else String.◌++◌ sep (String.◌++◌ p.payment_method rest)

abbrev pub payment_row : ℕ → String → LocalOrderPaymentCreate → Payment
payment_row now order_uuid p = record {
  order_uuid = order_uuid;
  payment_method = p.payment_method;
  amount = p.amount;
  created_at = now;
}
