-- ===== src/Access/Keys.antt =====
-- The keys that `authenticate` accepts.
use integrado_web_xd.Prelude.{
  ℕ, ◌≡◌, inl, inr, refl, sym, ◌∙◌, ap, arith, Bool, true, false, not, ◌&&◌, ◌||◌, Option, none,
  some, List, [], ◌∷◌, if◌then◌else◌, any, String, ◌==◌, eq_iff, first_where, on_if, on_option,
  Bool-cases, Option-cases, keep, is_some,
}
use integrado_web_xd.Http.{Reply, accepted, http_error}
use integrado_web_xd.Access.{
  Tenant, Credential, Store, get_active_tenant, get_by_empresa_id, validate_empresa_id,
  list_active_by_empresa, verify_api_key, hash_api_key, key_expiry, authenticate, rotate_tenant_key,
  rotate_api_key,
}

module _ (sha256 : List ℕ → String) where
  -- A key of the tenant: its own, or that of one of its active devices.
  abbrev pub is_key_of : Tenant → List Credential → String → Bool
  is_key_of tenant credentials raw_key =
      verify_api_key sha256 raw_key tenant.api_key_hash
      || any
          (λ c.
            (c.empresa_id == tenant.empresa_id && c.active)
            && verify_api_key sha256 raw_key c.api_key_hash)
          credentials

  any-keep_first :
      {A : Type 0} (p q : A → Bool) (xs : List A)
      → is_some (first_where q (keep p xs)) ≡ any (λ x. p x && q x) xs
  any-keep_first p q [] = refl
  any-keep_first p q (x ∷ xs) = ground (arith, any-keep_first p q xs)

  pub first-active :
      (empresa_id : String) (ts : List Tenant) (t : Tenant)
      → get_active_tenant empresa_id ts ≡ some t
      → (t.empresa_id ≡ empresa_id) × (t.ativo ≡ true)
  unfolding get_active_tenant
  first-active empresa_id [] t e = ground arith
  first-active empresa_id (x ∷ ts) t e =
      ground (arith, first-active empresa_id ts t, eq_iff x.empresa_id empresa_id)

  first-credential :
      (empresa_id raw_key : String) (cs : List Credential)
      → is_some (
          first_where
            (λ c. verify_api_key sha256 raw_key c.api_key_hash)
            (list_active_by_empresa empresa_id cs))
        ≡ any
            (λ c.
              (c.empresa_id == empresa_id && c.active)
              && verify_api_key sha256 raw_key c.api_key_hash)
            cs
  unfolding list_active_by_empresa
  first-credential empresa_id raw_key cs =
      any-keep_first (λ c. c.empresa_id == empresa_id && c.active)
        (λ c. verify_api_key sha256 raw_key c.api_key_hash) cs

  key-of_device :
      (empresa_id raw_key : String) (tenant : Tenant) (cs : List Credential)
      → tenant.empresa_id ≡ empresa_id
      → verify_api_key sha256 raw_key tenant.api_key_hash ≡ false
      → is_key_of tenant cs raw_key
        ≡ is_some (
            first_where
              (λ c. verify_api_key sha256 raw_key c.api_key_hash)
              (list_active_by_empresa empresa_id cs))
  key-of_device empresa_id raw_key tenant cs same other =
      rw (other, same) (sym (first-credential empresa_id raw_key cs))

  accepts-devices :
      (now : ℕ) (empresa_id raw_key : String) (s : Store) (tenant : Tenant)
      → validate_empresa_id empresa_id ≡ true
      → get_active_tenant empresa_id s.tenants ≡ some tenant
      → (authenticate sha256 now empresa_id raw_key s).1 ≡ (
          if is_key_of tenant s.credentials raw_key
          then accepted tenant
          else http_error 401 "Credenciais invalidas.")
  unfolding authenticate
  accepts-devices now empresa_id raw_key s tenant ok found =
      on_if P (not (validate_empresa_id empresa_id)) _ _ (λ bad. absurd (ground (arith, ok, bad)))
        (λ good.
          on_option P (get_active_tenant empresa_id s.tenants) _ _
            (λ n. absurd (ground (arith, n, found)))
            (λ t eq.
              let same : t ≡ tenant = ground (arith, eq, found) in
              let id : t.empresa_id ≡ empresa_id = (first-active empresa_id s.tenants t eq).0 in
              let device : verify_api_key sha256 raw_key t.api_key_hash ≡ false
                  → is_key_of tenant s.credentials raw_key
                    ≡ is_some (
                        first_where (λ c. verify_api_key sha256 raw_key c.api_key_hash)
                          (list_active_by_empresa empresa_id s.credentials)) =
                λ other.
                  rw (sym same) (key-of_device empresa_id raw_key t s.credentials id other) in
              on_if P (verify_api_key sha256 raw_key t.api_key_hash) _ _
                (λ own. ground (arith, own, same))
                (λ other.
                  on_option P
                    (first_where (λ c. verify_api_key sha256 raw_key c.api_key_hash)
                      (list_active_by_empresa empresa_id s.credentials))
                    _ _ (λ nothing. rw (device other, nothing) refl)
                    (λ c fit. rw (device other, fit) (ap accepted same)))))
    where
      P : Store × Reply Tenant → Type 0
      P r = r.1 ≡ (
          if is_key_of tenant s.credentials raw_key
          then accepted tenant
          else http_error 401 "Credenciais invalidas.")

  refused_id :
      (now : ℕ) (empresa_id raw_key : String) (s : Store)
      → validate_empresa_id empresa_id ≡ false
      → (authenticate sha256 now empresa_id raw_key s).1 ≡ http_error 400 "empresa_id invalido."
  unfolding authenticate
  refused_id now empresa_id raw_key s bad = rw (bad) refl

  refused_unknown :
      (now : ℕ) (empresa_id raw_key : String) (s : Store)
      → validate_empresa_id empresa_id ≡ true
      → get_active_tenant empresa_id s.tenants ≡ none
      → (authenticate sha256 now empresa_id raw_key s).1 ≡ http_error 401 "Credenciais invalidas."
  unfolding authenticate
  refused_unknown now empresa_id raw_key s ok n = rw (ok, n) refl

  unfoldable pub expected : String → String → Store → Reply Tenant
  unfolding validate_empresa_id get_active_tenant
  expected empresa_id raw_key s =
      if validate_empresa_id empresa_id
      then elim (get_active_tenant empresa_id s.tenants) [
        | none ↦ http_error 401 "Credenciais invalidas."
        | some tenant ↦
            if is_key_of tenant s.credentials raw_key
            then accepted tenant
            else http_error 401 "Credenciais invalidas."
      ]
      else http_error 400 "empresa_id invalido."

  -- The answer of `authenticate`: 400 for an id that is not one, 401 without an active tenant of the
  -- id, and with the first such tenant it accepts exactly the tenant's key and the keys of the active
  -- credentials of that id.
  pub authenticate-is_key_of :
      (now : ℕ) (empresa_id raw_key : String) (s : Store)
      → (authenticate sha256 now empresa_id raw_key s).1 ≡ expected empresa_id raw_key s
  unfolding expected
  authenticate-is_key_of now empresa_id raw_key s =
      elim (Bool-cases (validate_empresa_id empresa_id)) [
        | inl ok ↦ elim (Option-cases (get_active_tenant empresa_id s.tenants)) [
          | inl n ↦ rw (ok, n) (refused_unknown now empresa_id raw_key s ok n)
          | inr (t, eq) ↦ rw (ok, eq) (accepts-devices now empresa_id raw_key s t ok eq)
        ]
        | inr bad ↦ rw (bad) (refused_id now empresa_id raw_key s bad)
      ]

  pub expected-key :
      (empresa_id raw_key : String) (s : Store) (tenant : Tenant)
      → validate_empresa_id empresa_id ≡ true
      → get_active_tenant empresa_id s.tenants ≡ some tenant
      → is_key_of tenant s.credentials raw_key ≡ true
      → expected empresa_id raw_key s ≡ accepted tenant
  unfolding expected
  expected-key empresa_id raw_key s tenant ok found key = rw (ok, found, key) refl

  get_active_tenant-rotate_api_key :
      (empresa_id hash : String) (at exp : Option ℕ) (ts : List Tenant) (t : Tenant)
      → get_active_tenant empresa_id ts ≡ some t
      → get_active_tenant empresa_id (rotate_api_key empresa_id hash at exp ts)
        ≡ some (record t {
          api_key_hash = hash;
          api_key_last_rotated_at = at;
          api_key_expires_at = exp;
        })
  unfolding get_active_tenant rotate_api_key
  get_active_tenant-rotate_api_key empresa_id hash at exp [] t e = ground arith
  get_active_tenant-rotate_api_key empresa_id hash at exp (x ∷ ts) t e = ground (
    arith,
    get_active_tenant-rotate_api_key empresa_id hash at exp ts t,
    eq_iff x.empresa_id empresa_id,
  )

  some-get_by_empresa_id :
      (empresa_id : String) (ts : List Tenant) (t : Tenant)
      → get_active_tenant empresa_id ts ≡ some t
      → is_some (get_by_empresa_id empresa_id ts) ≡ true
  unfolding get_active_tenant get_by_empresa_id
  some-get_by_empresa_id empresa_id [] t e = ground arith
  some-get_by_empresa_id empresa_id (x ∷ ts) t e =
      ground (arith, some-get_by_empresa_id empresa_id ts t)

  rotate-tenants :
      (days now : ℕ) (key empresa_id : String) (s : Store) (tenant : Tenant)
      → validate_empresa_id empresa_id ≡ true
      → get_active_tenant empresa_id s.tenants ≡ some tenant
      → (rotate_tenant_key sha256 days now key empresa_id s).0 ≡ record s {
        tenants =
            rotate_api_key empresa_id
              (hash_api_key sha256 key)
              (some now)
              (key_expiry days now)
              s.tenants;
      }
  unfolding rotate_tenant_key
  rotate-tenants days now key empresa_id s tenant ok found =
      rw (ok, some-get_by_empresa_id empresa_id s.tenants tenant found) refl

  -- A rotation that is accepted replaces the key: with an active tenant, from then on the new key is
  -- accepted, and of the other keys (those with another digest) only the active devices' own.
  pub rotate-authenticate :
      (days now later : ℕ) (new_key raw_key empresa_id : String) (s : Store) (tenant : Tenant)
      → validate_empresa_id empresa_id ≡ true
      → get_active_tenant empresa_id s.tenants ≡ some tenant
      → (hash_api_key sha256 raw_key == hash_api_key sha256 new_key) ≡ false
      → let rotated = (rotate_tenant_key sha256 days now new_key empresa_id s).0 in
        let renamed = record tenant {
          api_key_hash = hash_api_key sha256 new_key;
          api_key_last_rotated_at = some now;
          api_key_expires_at = key_expiry days now;
        } in
        ((authenticate sha256 later empresa_id new_key rotated).1 ≡ accepted renamed)
        × ((authenticate sha256 later empresa_id raw_key rotated).1 ≡ (
            if any
              (λ c.
                (c.empresa_id == tenant.empresa_id && c.active)
                && verify_api_key sha256 raw_key c.api_key_hash)
              s.credentials
            then accepted renamed
            else http_error 401 "Credenciais invalidas."))
  rotate-authenticate days now later new_key raw_key empresa_id s tenant ok found other =
      let there =
        get_active_tenant-rotate_api_key empresa_id (hash_api_key sha256 new_key) (some now)
          (key_expiry days now) s.tenants tenant found in
      let new_hash = hash_api_key sha256 new_key in
      let fits : (new_hash == new_hash) ≡ true = ground (arith, eq_iff new_hash new_hash) in
      let stale : (hash_api_key sha256 raw_key == new_hash) ≡ false = other in
      rw (rotate-tenants days now new_key empresa_id s tenant ok found) (
        accepts-devices later empresa_id new_key _ _ ok there ∙ rw (fits) refl,
        accepts-devices later empresa_id raw_key _ _ ok there ∙ rw (stale) refl,
      )
