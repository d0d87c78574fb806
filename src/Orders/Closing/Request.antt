-- ===== src/Orders/Closing/Request.antt =====
-- The payments that a request to close an order asks for: an account of
-- _normalize_close_payments of agent_local/orders/repository.py.
use Prim.Native.String
use Prim.Native.String.append
use integrado_web_xd.Prelude.{
  ℕ, any, arith, ◌∙◌, ◌+◌, ◌≡◌, refl, ap, ◌⊎◌, inl, inr, or_else, String, Bool, true, false, Option,
  none, some, List, [], ◌∷◌, map, if◌then◌else◌, ◌==◌,
}
use integrado_web_xd.Orders.{Payment, value_error, ok, failed}
use integrado_web_xd.Orders.Editing.{
  LocalOrderCloseRequest, LocalOrderPaymentCreate, normalize_close_payments, paid, join_methods,
  payment_row,
}

abbrev pub method_amount : LocalOrderPaymentCreate → String × ℕ
method_amount p = (p.payment_method, p.amount)

abbrev pub row_pair : Payment → String × ℕ
row_pair p = (p.payment_method, p.amount)

-- The payments that a request asks for: those of its list, or else the single one.
abbrev pub requested : LocalOrderCloseRequest → List (String × ℕ)
requested p = listed (or_else p.payments []) (single p.payment_method p.amount_paid)
  where
    single : Option String → Option ℕ → List (String × ℕ)
    single (some method) (some amount) = if method == "" then [] else (method, amount) ∷ []
    single (some method) none = []
    single none amount = []

    listed : List LocalOrderPaymentCreate → List (String × ℕ) → List (String × ℕ)
    listed [] others = others
    listed (x ∷ xs) others = map method_amount (x ∷ xs)

abbrev pub sum_amounts : List (String × ℕ) → ℕ
sum_amounts [] = 0
sum_amounts (x ∷ xs) = x.1 + sum_amounts xs

pub paid-sum : (ps : List LocalOrderPaymentCreate) → paid ps ≡ sum_amounts (map method_amount ps)
paid-sum [] = refl
paid-sum (p ∷ ps) = ap (λ n. p.amount + n) (paid-sum ps)

pub pairs-rows :
    (now : ℕ) (u : String) (ps : List LocalOrderPaymentCreate)
    → map row_pair (map (payment_row now u) ps) ≡ map method_amount ps
pairs-rows now u [] = refl
pairs-rows now u (p ∷ ps) = ap (λ l. method_amount p ∷ l) (pairs-rows now u ps)

-- A request gives some payments, or is refused.
abbrev pub IsRequested : LocalOrderCloseRequest → Type 0
IsRequested p =
    ((x : LocalOrderPaymentCreate) × (xs : List LocalOrderPaymentCreate) × (normalize_close_payments
          p
        ≡ ok (x ∷ xs))
      × (map method_amount (x ∷ xs) ≡ requested p))
    ⊎ ((normalize_close_payments p
          ≡ failed (value_error "Informe pagamento unico ou lista de pagamentos."))
        × (requested p ≡ []))

single-IsRequested :
    (method : Option String) (amount : Option ℕ)
    → IsRequested (record { payment_method = method; amount_paid = amount; payments = none })
unfolding normalize_close_payments
single-IsRequested none amount = inr (refl, refl)
single-IsRequested (some method) amount = empty_or (method == "") refl amount
  where
    empty_or :
        (b : Bool)
        → (method == "") ≡ b
        → (a : Option ℕ)
        → IsRequested (record { payment_method = some method; amount_paid = a; payments = none })
    empty_or true e none = inr (rw (normalize_close_payments, e) refl, refl)
    empty_or true e (some n) = inr (rw (normalize_close_payments, e) refl, rw e refl)
    empty_or false e none = inr (rw (normalize_close_payments, e) refl, refl)
    empty_or false e (some n) = inl (
      record { payment_method = method; amount = n },
      [],
      rw (normalize_close_payments, e) refl,
      rw e refl,
    )

pub normalize_close_payments-IsRequested :
    (method : Option String) (amount : Option ℕ) (payments : Option (List LocalOrderPaymentCreate))
    → IsRequested (record { payment_method = method; amount_paid = amount; payments = payments })
unfolding normalize_close_payments
normalize_close_payments-IsRequested method amount (some (x ∷ xs)) = inl (x, xs, refl, refl)
normalize_close_payments-IsRequested method amount (some []) = single-IsRequested method amount
normalize_close_payments-IsRequested method amount none = single-IsRequested method amount

-- The methods of some payments, each where it is first used.
abbrev pub methods : List String → List (String × ℕ) → List String
methods seen [] = []
methods seen (x ∷ xs) =
    let used = methods seen xs in
    let unused = x.0 ∷ methods (x.0 ∷ seen) xs in if any (λ m. m == x.0) seen then used else unused

abbrev pub followed : List String → String
followed [] = ""
followed (m ∷ ms) = String.◌++◌ " + " (String.◌++◌ m (followed ms))

-- `" + ".join`
abbrev pub joined : List String → String
joined [] = ""
joined (m ∷ ms) = String.◌++◌ m (followed ms)

join_methods-seen :
    (m : String) (seen : List String) (ps : List LocalOrderPaymentCreate)
    → join_methods (m ∷ seen) ps ≡ followed (methods (m ∷ seen) (map method_amount ps))
join_methods-seen m seen [] = refl
join_methods-seen m seen (p ∷ ps) =
    ground (arith, join_methods-seen m seen ps, join_methods-seen p.payment_method (m ∷ seen) ps)

pub join_methods-joined :
    (ps : List LocalOrderPaymentCreate)
    → join_methods [] ps ≡ joined (methods [] (map method_amount ps))
join_methods-joined [] = refl
join_methods-joined (p ∷ ps) =
    append.nil (String.◌++◌ p.payment_method (join_methods (p.payment_method ∷ []) ps))
    ∙ ap (String.◌++◌ p.payment_method) (join_methods-seen p.payment_method [] ps)
