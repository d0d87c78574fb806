-- ===== src/Orders/Sessions.antt =====
-- The life of an operator's session.
use integrado_web_xd.Prelude.{
  ℕ, ◌+◌, ◌≡◌, refl, sym, subst, String, Bool, true, false, not, Option, none, some, List, [], ◌∷◌,
  ◌++◌, arith, ltb, if◌then◌else◌, ◌==◌, eq_iff, keep, first_where, any, on_if, on_option,
}
use integrado_web_xd.Orders.{Operator, SessionRow, Store, Result, ok, StoredOrderSession}
use integrado_web_xd.Orders.Operators.{
  authenticate_operator, get_session, joined_session, active_operator, hours,
}

abbrev has_token : String → SessionRow → Bool
has_token token r = r.token == token

joined_session-append :
    (now : ℕ) (token : String) (operators : List Operator) (xs ys : List SessionRow)
    → any (has_token token) xs ≡ false
    → joined_session now token operators (xs ++ ys) ≡ joined_session now token operators ys
unfolding joined_session
joined_session-append now token operators [] ys h = refl
joined_session-append now token operators (x ∷ xs) ys h =
    ground (arith, joined_session-append now token operators xs ys)

code-first_where :
    (code : String) (operators : List Operator) (o : Operator)
    → first_where (active_operator code) operators ≡ some o
    → o.code == code ≡ true
code-first_where code [] o h = cc
code-first_where code (x ∷ operators) o h = ground (arith, code-first_where code operators o)

first_where-active :
    (code : String) (operators : List Operator) (o : Operator)
    → first_where (active_operator code) operators ≡ some o
    → first_where (active_operator o.code) operators ≡ some o
first_where-active code operators o h =
    subst (λ c. first_where (active_operator c) operators ≡ some o)
      (sym ((eq_iff o.code code).0 (code-first_where code operators o h))) h

ok-injective :
    {x y : StoredOrderSession} → ◌≡◌ {A = Result StoredOrderSession} (ok x) (ok y) → x ≡ y
ok-injective h = cc

joined_session-last :
    (later : ℕ) (operators : List Operator) (r : SessionRow) (o : Operator)
    → first_where (active_operator r.operator_code) operators ≡ some o
    → joined_session later r.token operators (r ∷ []) ≡ (
        if ltb later r.expires_at
        then some (record {
          token = r.token;
          operator_code = r.operator_code;
          operator_name = o.name;
          expires_at = r.expires_at;
        })
        else none)
unfolding joined_session
joined_session-last later operators r o found = ground (arith, eq_iff r.token r.token)

module _ (verify : String → Option String → Bool) (now : ℕ) (token code password : String) (ttl : ℕ)
    (s : Store) where
  -- A login that succeeds gives a session that `get_session` returns until it expires, and not
  -- afterwards.
  pub get_session-authenticate_operator :
      (session : StoredOrderSession)
      → (authenticate_operator verify now token code password ttl s).1 ≡ ok session
      → (later : ℕ)
      → get_session later token (authenticate_operator verify now token code password ttl s).0
        ≡ (if ltb later (now + hours ttl) then some session else none)
  unfolding authenticate_operator
  get_session-authenticate_operator session done later =
      on_option Lasts (first_where (active_operator code) s.operators) _ _ (λ missing k. cc)
        (λ o found.
          on_if Lasts (not (verify password o.password_hash)) _ _ (λ wrong k. cc)
            (λ right.
              on_if Lasts (any (has_token token) (keep (λ r. ltb now r.expires_at) s.sessions)) _ _
                (λ taken k. cc)
                (λ fresh k.
                  let row : SessionRow = record {
                    token = token;
                    operator_code = o.code;
                    created_at = now;
                    expires_at = now + hours ttl;
                  } in
                  let last =
                    joined_session-last later s.operators row o
                      (first_where-active code s.operators o found) in
                  let given : _ ≡ session = ok-injective k in
                  unfold get_session in
                  rw
                    (joined_session-append later token s.operators
                      (keep (λ r. ltb now r.expires_at) s.sessions) (row ∷ []) fresh)
                    (subst
                      (λ x.
                        joined_session later token s.operators (row ∷ [])
                        ≡ (if ltb later (now + hours ttl) then some x else none))
                      given last))))
        done
    where
      Lasts : Store × Result StoredOrderSession → Type 0
      Lasts r =
          r.1 ≡ ok session
          → get_session later token r.0
            ≡ (if ltb later (now + hours ttl) then some session else none)
