-- ===== src/Access/Pairing.antt =====
-- backend/services/tenant_pairing_service.py with backend/repositories/tenant_pairing_repository.py:
-- a code for a tenant, shown in groups of four, that one device can turn into an API key.
-- The draws of `secrets` and the ids are given.
pub mod Codes
pub mod SingleUse
use integrado_web_xd.Prelude.{
  ℕ, zero, suc, ◌+◌, ◌*◌, ◌-◌, String, Bool, true, false, not, ◌&&◌, ◌||◌, Option, none, some, List,
  [], ◌∷◌, ◌++◌, map, ltb, leb, nat_eq, if◌then◌else◌, ◌==◌, keep, any, all, length, first_where,
  update_where,
}
use integrado_web_xd.Prelude.Text.{codes}
use integrado_web_xd.Http.{Reply, accepted, http_error}
use integrado_web_xd.Access.{
  Tenant, Credential, PairingCode, Store, validate_empresa_id, get_active_tenant, hash_api_key,
}

-- The white space of ASCII, as `strip` takes it.
abbrev pub is_space : ℕ → Bool
is_space c = nat_eq c 32 || (leb 9 c && leb c 13) || (leb 28 c && leb c 31)

unfoldable pub lstrip : List ℕ → List ℕ
lstrip [] = []
lstrip (c ∷ cs) = let rest = lstrip cs in if is_space c then rest else c ∷ cs

unfoldable pub rstrip : List ℕ → List ℕ
rstrip [] = []
rstrip (c ∷ cs) = elim (rstrip cs) [
  | [] ↦ (if is_space c then [] else c ∷ [])
  | d ∷ ds ↦ c ∷ d ∷ ds
]

unfoldable pub strip : List ℕ → List ℕ
unfolding lstrip rstrip
strip cs = rstrip (lstrip cs)

unfoldable pub upper : ℕ → ℕ
upper c = if leb b'a' c && leb c b'z' then c - 32 else c

-- `string.ascii_uppercase + string.digits`
abbrev pub is_code_char : ℕ → Bool
is_code_char c = (leb b'A' c && leb c b'Z') || (leb b'0' c && leb c b'9')

-- `_normalize_pairing_code`; `none` is its HTTPException.
unfoldable pub normalize_pairing_code : List ℕ → Option (List ℕ)
unfolding strip upper
normalize_pairing_code code =
    let normalized =
      keep (λ c. not (nat_eq c 32)) (keep (λ c. not (nat_eq c b'-')) (map upper (strip code))) in
    if ltb (length normalized) 6
    then none
    else if all is_code_char normalized
    then some normalized
    else none

-- `"-".join(raw[i : i + 4] for i in ...)`
unfoldable pub format_chunks : List ℕ → List ℕ
format_chunks (a ∷ b ∷ c ∷ d ∷ e ∷ rest) = a ∷ b ∷ c ∷ d ∷ b'-' ∷ format_chunks (e ∷ rest)
format_chunks short = short

unfoldable pub format_pairing_code : List ℕ → List ℕ
unfolding format_chunks
format_pairing_code raw = if leb (length raw) 4 then raw else format_chunks raw

abbrev pub or_default : List ℕ → List ℕ
or_default [] = codes "local-agent"
or_default (c ∷ cs) = c ∷ cs

abbrev pub is_usable : ℕ → String → PairingCode → Bool
is_usable now code_hash p =
    p.code_hash == code_hash
    && p.active
    && (elim p.used_at [ none ↦ true | some t ↦ false ])
    && leb now p.expires_at

unfoldable pub get_active_by_hash : ℕ → String → List PairingCode → Option PairingCode
get_active_by_hash now code_hash = first_where (is_usable now code_hash)

unfoldable pub mark_used : ℕ → String → List ℕ → List PairingCode → List PairingCode
mark_used now id used_by =
    update_where (λ p. p.id == id)
      (λ p. record p { used_by = some used_by; used_at = some now; active = false })

abbrev pub minutes : ℕ → ℕ
minutes n = n * 60000000

module _ (sha256 : List ℕ → String) where
  abbrev pub new_code : ℕ → String → List ℕ → String → ℕ → String → PairingCode
  new_code now id raw_code empresa_id ttl_minutes actor = record {
    id = id;
    empresa_id = empresa_id;
    code_hash = sha256 raw_code;
    active = true;
    created_by = actor;
    used_by = none;
    expires_at = now + minutes ttl_minutes;
    used_at = none;
  }

  -- The code is shown with its groups. A digest that is there breaks the UNIQUE constraint of
  -- `code_hash`, which is an error of the server.
  unfoldable pub create_pairing_code :
      ℕ → String → List ℕ → String → ℕ → String → Store → Store × Reply (List ℕ)
  unfolding format_pairing_code
  create_pairing_code now id raw_code empresa_id ttl_minutes actor s =
      if not (validate_empresa_id empresa_id)
      then (s, http_error 400 "empresa_id invalido.")
      else elim (get_active_tenant empresa_id s.tenants) [
        | none ↦ (s, http_error 404 "Tenant nao encontrado.")
        | some tenant ↦
            if any (λ p. p.code_hash == sha256 raw_code) s.pairing_codes
            then (s, http_error 500 "Internal Server Error")
            else (
              record s {
                pairing_codes =
                    s.pairing_codes ++ new_code now id raw_code empresa_id ttl_minutes actor ∷ [];
              },
              accepted (format_pairing_code raw_code),
            )
      ]

  -- The credential of the device, and the use of the code.
  unfoldable pub pair : ℕ → String → String → List ℕ → PairingCode → Store → Store
  unfolding strip mark_used
  pair now credential_id raw_key device_label p s = record s {
    credentials =
        s.credentials
        ++ record {
          id = credential_id;
          empresa_id = p.empresa_id;
          device_label = or_default (strip device_label);
          api_key_hash = hash_api_key sha256 raw_key;
          active = true;
          last_used_at = none;
        }
          ∷ [];
    pairing_codes = mark_used now p.id (or_default (strip device_label)) s.pairing_codes;
  }

  unfoldable pub activate_pairing_code :
      ℕ → String → String → List ℕ → List ℕ → Store → Store × Reply (String × String)
  unfolding normalize_pairing_code get_active_by_hash pair
  activate_pairing_code now credential_id raw_key pairing_code device_label s =
      elim (normalize_pairing_code pairing_code) [
        | none ↦ (s, http_error 400 "Codigo de vinculacao invalido.")
        | some normalized ↦ elim (get_active_by_hash now (sha256 normalized) s.pairing_codes) [
          | none ↦ (s, http_error 404 "Codigo de vinculacao invalido ou expirado.")
          | some p ↦ elim (get_active_tenant p.empresa_id s.tenants) [
            | none ↦ (s, http_error 404 "Tenant nao encontrado.")
            | some tenant ↦
                (pair now credential_id raw_key device_label p s, accepted (p.empresa_id, raw_key))
          ]
        ]
      ]
