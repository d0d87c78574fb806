-- ===== src/Orders/Operators.antt =====
-- The operators and their sessions: authenticate_operator, get_session and the operators' half of
-- upsert_catalog in LocalOrderRepository. The password hash is a library's: `verify` stands for
-- `_verify_password` and `hash` for `hash_imported_order_password`, and `token` for the token that
-- `secrets` gives. An ISO text of a time is its number of microseconds.
use integrado_web_xd.Prelude.{
  ℕ, ◌+◌, ◌*◌, String, Bool, ◌&&◌, not, Option, none, some, List, [], ◌∷◌, ◌++◌, ltb, if◌then◌else◌,
  ◌==◌, first_where, keep, any,
}
use integrado_web_xd.Orders.{
  Operator, SessionRow, Store, permission_error, integrity_error, Result, ok, failed,
  StoredOrderSession,
}

abbrev pub hours : ℕ → ℕ
hours n = n * 3600000000

abbrev pub active_operator : String → Operator → Bool
active_operator code o = o.code == code && o.active

module _ (verify : String → Option String → Bool) where
  -- A token that is there breaks the primary key, after which nothing is committed.
  unfoldable pub authenticate_operator :
      ℕ → String → String → String → ℕ → Store → Store × Result StoredOrderSession
  authenticate_operator now token code password ttl_hours s =
      elim (first_where (active_operator code) s.operators) [
        | none ↦ (s, failed (permission_error "Usuario ou senha invalido."))
        | some o ↦
            let left = keep (λ r. ltb now r.expires_at) s.sessions in
            let expires_at = now + hours ttl_hours in
            if not (verify password o.password_hash)
            then (s, failed (permission_error "Usuario ou senha invalido."))
            else if any (λ r. r.token == token) left
            then (
              s,
              failed (integrity_error "UNIQUE constraint failed: local_order_sessions.token"),
            )
            else (
              record s {
                sessions =
                    left
                    ++ record {
                      token = token;
                      operator_code = o.code;
                      created_at = now;
                      expires_at = expires_at;
                    }
                      ∷ [];
              },
              ok (record {
                token = token;
                operator_code = o.code;
                operator_name = o.name;
                expires_at = expires_at;
              }),
            )
      ]

-- The inner join of the sessions with the operators.
unfoldable pub joined_session :
    ℕ → String → List Operator → List SessionRow → Option StoredOrderSession
joined_session now token operators [] = none
joined_session now token operators (r ∷ sessions) =
    let rest = joined_session now token operators sessions in
    if r.token == token && ltb now r.expires_at
    then elim (first_where (active_operator r.operator_code) operators) [
      | none ↦ rest
      | some o ↦ some (record {
        token = r.token;
        operator_code = r.operator_code;
        operator_name = o.name;
        expires_at = r.expires_at;
      })
    ]
    else rest

unfoldable pub get_session : ℕ → String → Store → Option StoredOrderSession
unfolding joined_session
get_session now token s = joined_session now token s.operators s.sessions
