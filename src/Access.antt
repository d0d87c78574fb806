-- ===== src/Access.antt =====
-- Who may send: the tenants and their API keys, the devices' credentials, and the pairing of devices.
-- backend/repositories/tenant_repository.py and tenant_agent_credential_repository.py, with
-- backend/utils/security.py, and the services on them: services/admin_service.py and
-- services/tenant_service.py.
-- The digest of hashlib is the parameter `sha256`, and a key that `secrets` draws is given. Texts that
-- the code looks into are lists of ASCII codes.
pub mod Pairing
pub mod Keys
pub mod Devices
mod Tests
use integrado_web_xd.Prelude.{
  ℕ, ◌+◌, ◌*◌, String, Bool, true, false, not, ◌&&◌, ◌||◌, Option, none, some, List, [], ◌∷◌, ◌++◌,
  ltb, leb, nat_eq, if◌then◌else◌, ◌==◌, keep, any, is_some, first_where, update_where,
}
use integrado_web_xd.Prelude.Text.{codes}
use integrado_web_xd.Http.{Reply, accepted, http_error}

pub record Tenant : Type 0 where
  pub empresa_id : String
  pub nome : String
  pub api_key_hash : String
  pub api_key_last_rotated_at : Option ℕ
  pub api_key_expires_at : Option ℕ
  pub ativo : Bool

pub record Credential : Type 0 where
  pub id : String
  pub empresa_id : String
  pub device_label : List ℕ
  pub api_key_hash : String
  pub active : Bool
  pub last_used_at : Option ℕ

pub record PairingCode : Type 0 where
  pub id : String
  pub empresa_id : String
  pub code_hash : String
  pub active : Bool
  pub created_by : String
  pub used_by : Option (List ℕ)
  pub expires_at : ℕ
  pub used_at : Option ℕ

pub record Store : Type 0 where
  pub tenants : List Tenant
  pub credentials : List Credential
  pub pairing_codes : List PairingCode

-- `[A-Za-z0-9_\-]`
abbrev is_key_char : ℕ → Bool
is_key_char c =
    (leb b'A' c && leb c b'Z')
    || (leb b'a' c && leb c b'z')
    || (leb b'0' c && leb c b'9')
    || nat_eq c b'_'
    || nat_eq c b'-'

-- The match of `^[...]{low,high}$` after `n` characters; `$` also stands before a final line feed.
abbrev matches : (ℕ → Bool) → ℕ → ℕ → ℕ → List ℕ → Bool
matches ok low high n [] = leb low n && leb n high
matches ok low high n (c ∷ []) =
    (ok c && leb low (n + 1) && leb (n + 1) high) || (nat_eq c 10 && leb low n && leb n high)
matches ok low high n (c ∷ d ∷ cs) = ok c && matches ok low high (n + 1) (d ∷ cs)

unfoldable pub validate_empresa_id : String → Bool
validate_empresa_id empresa_id =
    matches (λ c. is_key_char c || nat_eq c b'.') 3 32 0 (codes empresa_id)

unfoldable pub validate_api_key_format : String → Bool
validate_api_key_format raw_api_key = matches is_key_char 32 256 0 (codes raw_api_key)

abbrev pub is_tenant : String → Tenant → Bool
is_tenant empresa_id t = t.empresa_id == empresa_id

unfoldable pub get_active_tenant : String → List Tenant → Option Tenant
get_active_tenant empresa_id = first_where (λ t. t.empresa_id == empresa_id && t.ativo)

unfoldable pub get_by_empresa_id : String → List Tenant → Option Tenant
get_by_empresa_id empresa_id = first_where (is_tenant empresa_id)

unfoldable pub update_nome : String → String → List Tenant → List Tenant
update_nome empresa_id nome = update_where (is_tenant empresa_id) (λ t. record t { nome = nome })

unfoldable pub upsert_tenant :
    String → String → String → Option ℕ → Option ℕ → List Tenant → List Tenant
unfolding get_by_empresa_id
upsert_tenant empresa_id nome key_hash rotated_at expires_at tenants =
    if is_some (get_by_empresa_id empresa_id tenants)
    then update_where (is_tenant empresa_id)
        (λ t. record t {
          nome = nome;
          api_key_hash = key_hash;
          api_key_last_rotated_at = rotated_at;
          api_key_expires_at = expires_at;
          ativo = true;
        })
        tenants
    else tenants
      ++ record {
        empresa_id = empresa_id;
        nome = nome;
        api_key_hash = key_hash;
        api_key_last_rotated_at = rotated_at;
        api_key_expires_at = expires_at;
        ativo = true;
      }
        ∷ []

unfoldable pub rotate_api_key : String → String → Option ℕ → Option ℕ → List Tenant → List Tenant
rotate_api_key empresa_id key_hash rotated_at expires_at = update_where (is_tenant empresa_id) (λ t.
    record t {
      api_key_hash = key_hash;
      api_key_last_rotated_at = rotated_at;
      api_key_expires_at = expires_at;
    })

-- `_build_api_key_lifecycle`, of the setting `tenant_api_key_expiration_days`; the time of the
-- rotation is `now`.
unfoldable pub key_expiry : ℕ → ℕ → Option ℕ
key_expiry days now = if leb days 0 then none else some (now + days * 86400000000)

-- `list_active_by_empresa`
unfoldable pub list_active_by_empresa : String → List Credential → List Credential
list_active_by_empresa empresa_id = keep (λ c. c.empresa_id == empresa_id && c.active)

unfoldable pub mark_last_used : ℕ → String → List Credential → List Credential
mark_last_used now id = update_where (λ c. c.id == id) (λ c. record c { last_used_at = some now })

module _ (sha256 : List ℕ → String) where
  abbrev pub hash_api_key : String → String
  hash_api_key raw = sha256 (codes raw)

  -- `compare_digest` is equality.
  abbrev pub verify_api_key : String → String → Bool
  verify_api_key raw expected = hash_api_key raw == expected

  unfoldable pub provision_tenant : ℕ → ℕ → String → String → String → Store → Store × Reply String
  unfolding validate_empresa_id upsert_tenant key_expiry
  provision_tenant days now raw_key empresa_id nome s =
      if not (validate_empresa_id empresa_id) then (s, http_error 400 "empresa_id invalido.") else (
        record s {
          tenants =
              upsert_tenant empresa_id nome (hash_api_key raw_key) (some now) (key_expiry days now)
                s.tenants;
        },
        accepted raw_key,
      )

  unfoldable pub rotate_tenant_key : ℕ → ℕ → String → String → Store → Store × Reply String
  unfolding validate_empresa_id rotate_api_key get_by_empresa_id key_expiry
  rotate_tenant_key days now raw_key empresa_id s =
      if not (validate_empresa_id empresa_id)
      then (s, http_error 400 "empresa_id invalido.")
      else if is_some (get_by_empresa_id empresa_id s.tenants)
      then (
        record s {
          tenants =
              rotate_api_key empresa_id (hash_api_key raw_key) (some now) (key_expiry days now)
                s.tenants;
        },
        accepted raw_key,
      )
      else (s, http_error 404 "Tenant nao encontrado.")

  -- `authenticate`: the tenant's own key, or else the first of its active credentials that fits.
  unfoldable pub authenticate : ℕ → String → String → Store → Store × Reply Tenant
  unfolding validate_empresa_id get_active_tenant list_active_by_empresa mark_last_used
  authenticate now empresa_id raw_key s =
      if not (validate_empresa_id empresa_id)
      then (s, http_error 400 "empresa_id invalido.")
      else elim (get_active_tenant empresa_id s.tenants) [
        | none ↦ (s, http_error 401 "Credenciais invalidas.")
        | some tenant ↦
            if verify_api_key raw_key tenant.api_key_hash
            then (s, accepted tenant)
            else elim (first_where (λ c. verify_api_key raw_key c.api_key_hash)
                (list_active_by_empresa empresa_id s.credentials)) [
                  | none ↦ (s, http_error 401 "Credenciais invalidas.")
                  | some credential ↦ (
                    record s { credentials = mark_last_used now credential.id s.credentials },
                    accepted tenant,
                  )
                ]
      ]

  -- The headers of a request; a header that is missing is the empty text.
  unfoldable pub get_current_tenant : ℕ → String → String → Store → Store × Reply Tenant
  unfolding authenticate
  get_current_tenant now api_key empresa_id s =
      if api_key == "" || empresa_id == ""
      then (s, http_error 401 "Cabecalhos de autenticacao ausentes.")
      else authenticate now empresa_id api_key s
