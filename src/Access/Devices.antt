-- ===== src/Access/Devices.antt =====
-- A device from the pairing code to its first accepted call.
use integrado_web_xd.Prelude.{
  ℕ, ◌+◌, ◌*◌, ◌≤◌, ◌≡◌, refl, sym, ◌∙◌, ap, arith, true, false, ◌&&◌, some, List, [], ◌∷◌, ◌++◌,
  all, any, length, String, ◌==◌, eq_iff, any-append, on_option,
}
use integrado_web_xd.Http.{Reply, accepted}
use integrado_web_xd.Access.{
  Tenant, PairingCode, Store, get_active_tenant, validate_empresa_id, verify_api_key, authenticate,
  hash_api_key,
}
use integrado_web_xd.Access.Keys.{authenticate-is_key_of, expected-key, is_key_of, first-active}
use integrado_web_xd.Access.Pairing.{
  new_code, is_code_char, is_usable, get_active_by_hash, create_pairing_code, activate_pairing_code,
  pair, normalize_pairing_code, format_pairing_code,
}
use integrado_web_xd.Access.Pairing.Codes.{normalize-format_pairing_code}
use integrado_web_xd.Access.Pairing.SingleUse.{has_hash}

first-fresh :
    (now : ℕ) (h : String) (ps : List PairingCode) (p : PairingCode)
    → any (has_hash h) ps ≡ false
    → is_usable now h p ≡ true
    → get_active_by_hash now h (ps ++ p ∷ []) ≡ some p
unfolding get_active_by_hash
first-fresh now h [] p e u = ground arith
first-fresh now h (q ∷ ps) p e u = ground (arith, first-fresh now h ps p)

module _ (sha256 : List ℕ → String) where
  create-fresh :
      (now : ℕ) (id : String) (raw : List ℕ) (empresa_id : String) (ttl : ℕ) (actor : String)
      (s : Store) (tenant : Tenant)
      → validate_empresa_id empresa_id ≡ true
      → get_active_tenant empresa_id s.tenants ≡ some tenant
      → any (has_hash (sha256 raw)) s.pairing_codes ≡ false
      → create_pairing_code sha256 now id raw empresa_id ttl actor s ≡ (
        record s {
          pairing_codes = s.pairing_codes ++ new_code sha256 now id raw empresa_id ttl actor ∷ [];
        },
        accepted (format_pairing_code raw),
      )
  unfolding create_pairing_code
  create-fresh now id raw empresa_id ttl actor s tenant ok found fresh = rw (ok, found, fresh) refl

  activate-usable :
      (now : ℕ) (id key : String) (code label normalized : List ℕ) (p : PairingCode)
      (tenant : Tenant) (s : Store)
      → normalize_pairing_code code ≡ some normalized
      → get_active_by_hash now (sha256 normalized) s.pairing_codes ≡ some p
      → get_active_tenant p.empresa_id s.tenants ≡ some tenant
      → activate_pairing_code sha256 now id key code label s
        ≡ (pair sha256 now id key label p s, accepted (p.empresa_id, key))
  unfolding activate_pairing_code
  activate-usable now id key code label normalized p tenant s e usable t =
      on_option P (normalize_pairing_code code) _ _ (λ n. absurd (ground (arith, n, e)))
        (λ m eq.
          let same : m ≡ normalized = ground (arith, eq, e) in
          on_option P (get_active_by_hash now (sha256 m) s.pairing_codes) _ _
            (λ n. absurd (
              ground (
                arith,
                sym (ap (λ t. get_active_by_hash now (sha256 t) s.pairing_codes) same) ∙ n,
                usable,
              )))
            (λ q found.
              let it : q ≡ p = ground (
                arith,
                sym found
                    ∙ ap (λ t. get_active_by_hash now (sha256 t) s.pairing_codes) same
                    ∙ usable,
              ) in
              on_option P (get_active_tenant q.empresa_id s.tenants) _ _
                (λ n.
                  absurd
                    (ground (arith, n, ap (λ r. get_active_tenant r.empresa_id s.tenants) it ∙ t)))
                (λ tenant' found'.
                  ap (λ r. (pair sha256 now id key label r s, accepted (r.empresa_id, key))) it)))
    where
      P : Store × Reply (String × String) → Type 0
      P r = r ≡ (pair sha256 now id key label p s, accepted (p.empresa_id, key))

  key-paired :
      (now : ℕ) (id key : String) (label : List ℕ) (p : PairingCode) (tenant : Tenant) (s : Store)
      → tenant.empresa_id ≡ p.empresa_id
      → is_key_of sha256 tenant (pair sha256 now id key label p s).credentials key ≡ true
  unfolding pair
  key-paired now id key label p tenant s same =
      rw
        (any-append
          (λ c.
            (c.empresa_id == tenant.empresa_id && c.active)
            && verify_api_key sha256 key c.api_key_hash)
          s.credentials _)
        (ground (
          arith,
          same,
          eq_iff p.empresa_id tenant.empresa_id,
          eq_iff (hash_api_key sha256 key) (hash_api_key sha256 key),
        ))

  tenants-pair :
      (now : ℕ) (id key : String) (label : List ℕ) (p : PairingCode) (s : Store)
      → (pair sha256 now id key label p s).tenants ≡ s.tenants
  unfolding pair
  tenants-pair now id key label p s = refl

  authenticate-paired :
      (now later : ℕ) (id key : String) (label : List ℕ) (p : PairingCode) (tenant : Tenant)
      (s : Store)
      → validate_empresa_id p.empresa_id ≡ true
      → get_active_tenant p.empresa_id s.tenants ≡ some tenant
      → (authenticate sha256 later p.empresa_id key (pair sha256 now id key label p s)).1
        ≡ accepted tenant
  authenticate-paired now later id key label p tenant s ok found =
      authenticate-is_key_of sha256 later p.empresa_id key (pair sha256 now id key label p s)
      ∙ expected-key sha256 p.empresa_id key (pair sha256 now id key label p s) tenant ok
          (ap (get_active_tenant p.empresa_id) (tenants-pair now id key label p s) ∙ found)
          (key-paired now id key label p tenant s
            (first-active sha256 p.empresa_id s.tenants tenant found).0)

  -- A device can be paired: when the id is well formed, its tenant is active, and the code drawn (six
  -- capital letters and digits or more) has a digest that no code has, a device that sends the code as
  -- it was shown within the minutes asked for gets the API key drawn for it, and every later call with
  -- that key is accepted as the tenant's.
  pub paired_device :
      (now mid later : ℕ) (id : String) (raw : List ℕ) (empresa_id : String) (ttl : ℕ)
      (actor : String) (credential_id key : String) (label : List ℕ) (s : Store) (tenant : Tenant)
      → validate_empresa_id empresa_id ≡ true
      → get_active_tenant empresa_id s.tenants ≡ some tenant
      → any (has_hash (sha256 raw)) s.pairing_codes ≡ false
      → all is_code_char raw ≡ true
      → 6 ≤ length raw
      → mid ≤ now + ttl * 60000000
      → let created = create_pairing_code sha256 now id raw empresa_id ttl actor s in
        let activated =
          activate_pairing_code sha256 mid credential_id key
            (format_pairing_code raw)
            label
            created.0 in
        (created.1 ≡ accepted (format_pairing_code raw))
        × (activated.1 ≡ accepted (empresa_id, key))
        × ((authenticate sha256 later empresa_id key activated.0).1 ≡ accepted tenant)
  paired_device now mid later id raw empresa_id ttl actor credential_id key label s tenant ok found
        fresh chars long soon =
      let p = new_code sha256 now id raw empresa_id ttl actor in
      let usable : is_usable mid (sha256 raw) p ≡ true =
        ground (arith, eq_iff (sha256 raw) (sha256 raw)) in
      rw
        (
          create-fresh now id raw empresa_id ttl actor s tenant ok found fresh,
          activate-usable mid credential_id key (format_pairing_code raw) label raw p tenant
              (record s { pairing_codes = s.pairing_codes ++ p ∷ [] })
              (normalize-format_pairing_code raw chars long)
              (first-fresh mid (sha256 raw) s.pairing_codes p fresh usable) found,
        )
        (
          refl,
          refl,
          authenticate-paired mid later credential_id key label p tenant
              (record s { pairing_codes = s.pairing_codes ++ p ∷ [] }) ok found,
        )
