-- ===== src/Access/Pairing/SingleUse.antt =====
-- A pairing code in the table: its digest is unique, and it pairs one device.
use integrado_web_xd.Prelude.{
  ℕ, ◌≤◌, ◌≡◌, ◌∙◌, refl, ap, arith, Bool, true, false, not, ◌&&◌, none, some, List, [], ◌∷◌, ◌++◌,
  any, String, ◌==◌, eq_iff, first_where, on_if, on_option, any-update_where, any-append,
  Bool-cases, subst, sym, inl, inr,
}
use integrado_web_xd.Http.{Reply, accepted, http_error}
use integrado_web_xd.Access.{PairingCode, Store, get_active_tenant, validate_empresa_id}
use integrado_web_xd.Access.Pairing.{
  or_default, strip, is_usable, mark_used, get_active_by_hash, create_pairing_code,
  activate_pairing_code, pair, normalize_pairing_code,
}

abbrev pub has_hash : String → PairingCode → Bool
has_hash h p = p.code_hash == h

-- The UNIQUE constraint of `code_hash`.
unfoldable pub hashes_unique : List PairingCode → Bool
hashes_unique [] = true
hashes_unique (p ∷ ps) = not (any (has_hash p.code_hash) ps) && hashes_unique ps

hashless :
    (now : ℕ) (h : String) (ps : List PairingCode)
    → any (has_hash h) ps ≡ false
    → first_where (is_usable now h) ps ≡ none
hashless now h [] e = refl
hashless now h (p ∷ ps) e = ground (arith, hashless now h ps)

any-mark_used :
    (now : ℕ) (h id : String) (by : List ℕ) (ps : List PairingCode)
    → any (has_hash h) (mark_used now id by ps) ≡ any (has_hash h) ps
unfolding mark_used
any-mark_used now h id by ps =
    any-update_where (has_hash h) (λ p. p.id == id)
      (λ p. record p { used_by = some by; used_at = some now; active = false }) ps (λ p. refl)

skip_first :
    (now later : ℕ) (h : String) (by : List ℕ) (q : PairingCode) (ps : List PairingCode)
    → first_where (is_usable later h) (mark_used now q.id by ps) ≡ none
    → first_where (is_usable later h) (mark_used now q.id by (q ∷ ps)) ≡ none
unfolding mark_used
skip_first now later h by q ps k = ground (arith, k, eq_iff q.id q.id)

used_first :
    (now later : ℕ) (h : String) (by : List ℕ) (q : PairingCode) (ps : List PairingCode)
    → hashes_unique (q ∷ ps) ≡ true
    → is_usable now h q ≡ true
    → first_where (is_usable later h) (mark_used now q.id by (q ∷ ps)) ≡ none
unfolding hashes_unique
used_first now later h by q ps u e =
    let same : q.code_hash ≡ h = ground (arith, eq_iff q.code_hash h) in
    let fresh : any (has_hash q.code_hash) ps ≡ false = ground arith in
    let gone : any (has_hash h) (mark_used now q.id by ps) ≡ false =
      rw (any-mark_used now h q.id by ps, sym same) fresh in
    skip_first now later h by q ps (hashless later h (mark_used now q.id by ps) gone)

used_later :
    (now later : ℕ) (h id : String) (by : List ℕ) (q : PairingCode) (ps : List PairingCode)
    → now ≤ later
    → is_usable now h q ≡ false
    → first_where (is_usable later h) (mark_used now id by ps) ≡ none
    → first_where (is_usable later h) (mark_used now id by (q ∷ ps)) ≡ none
unfolding mark_used
used_later now later h id by q ps le e k = ground (arith, k, eq_iff q.id id)

unique-tail :
    (q : PairingCode) (ps : List PairingCode)
    → hashes_unique (q ∷ ps) ≡ true
    → hashes_unique ps ≡ true
unfolding hashes_unique
unique-tail q ps u = ground arith

-- After its use, no row with the digest is usable.
pub used_up :
    (now later : ℕ) (h : String) (by : List ℕ) (p : PairingCode) (ps : List PairingCode)
    → now ≤ later
    → hashes_unique ps ≡ true
    → first_where (is_usable now h) ps ≡ some p
    → first_where (is_usable later h) (mark_used now p.id by ps) ≡ none
used_up now later h by p [] le u e = ground arith
used_up now later h by p (q ∷ ps) le u e = elim (Bool-cases (is_usable now h q)) [
  | inl t ↦
      let same : q ≡ p = ground (arith, e, t) in
      subst (λ r. first_where (is_usable later h) (mark_used now r.id by (q ∷ ps)) ≡ none) same
        (used_first now later h by q ps u t)
  | inr f ↦
      used_later now later h p.id by q ps le f
        (used_up now later h by p ps le (unique-tail q ps u) (ground (arith, e, f)))
]

-- Uniqueness

unique-append :
    (p : PairingCode) (ps : List PairingCode)
    → hashes_unique ps ≡ true
    → any (has_hash p.code_hash) ps ≡ false
    → hashes_unique (ps ++ p ∷ []) ≡ true
unfolding hashes_unique
unique-append p [] u h = refl
unique-append p (q ∷ ps) u h = ground (
  arith,
  unique-append p ps,
  any-append (has_hash q.code_hash) ps (p ∷ []),
  eq_iff p.code_hash q.code_hash,
  eq_iff q.code_hash p.code_hash,
)

unique-mark_used :
    (now : ℕ) (id : String) (by : List ℕ) (ps : List PairingCode)
    → hashes_unique (mark_used now id by ps) ≡ hashes_unique ps
unfolding hashes_unique mark_used
unique-mark_used now id by [] = refl
unique-mark_used now id by (q ∷ ps) =
    ground (arith, unique-mark_used now id by ps, any-mark_used now q.code_hash id by ps)

module _ (sha256 : List ℕ → String) where
  -- What `create_pairing_code` and `activate_pairing_code` do to the table.
  pub unique-create_pairing_code :
      (now : ℕ) (id : String) (raw : List ℕ) (empresa_id : String) (ttl : ℕ) (actor : String)
      (s : Store)
      → hashes_unique s.pairing_codes ≡ true
      → hashes_unique (create_pairing_code sha256 now id raw empresa_id ttl actor s).0.pairing_codes
        ≡ true
  unfolding create_pairing_code
  unique-create_pairing_code now id raw empresa_id ttl actor s u =
      on_if P (not (validate_empresa_id empresa_id)) _ _ (λ t. u)
        (λ f.
          on_option P (get_active_tenant empresa_id s.tenants) _ _ (λ n. u)
            (λ tenant found.
              on_if P (any (has_hash (sha256 raw)) s.pairing_codes) _ _ (λ t. u)
                (λ fresh. unique-append _ s.pairing_codes u fresh)))
    where
      P : Store × Reply (List ℕ) → Type 0
      P r = hashes_unique r.0.pairing_codes ≡ true

  unique-pair :
      (now : ℕ) (id key : String) (label : List ℕ) (p : PairingCode) (s : Store)
      → hashes_unique s.pairing_codes ≡ true
      → hashes_unique (pair sha256 now id key label p s).pairing_codes ≡ true
  unfolding pair
  unique-pair now id key label p s u =
      rw (unique-mark_used now p.id (or_default (strip label)) s.pairing_codes) u

  pub unique-activate_pairing_code :
      (now : ℕ) (id key : String) (code label : List ℕ) (s : Store)
      → hashes_unique s.pairing_codes ≡ true
      → hashes_unique (activate_pairing_code sha256 now id key code label s).0.pairing_codes ≡ true
  unfolding activate_pairing_code
  unique-activate_pairing_code now id key code label s u =
      on_option P (normalize_pairing_code code) _ _ (λ n. u)
        (λ normalized e.
          on_option P (get_active_by_hash now (sha256 normalized) s.pairing_codes) _ _ (λ n. u)
            (λ p found.
              on_option P (get_active_tenant p.empresa_id s.tenants) _ _ (λ n. u)
                (λ tenant t. unique-pair now id key label p s u)))
    where
      P : Store × Reply (String × String) → Type 0
      P r = hashes_unique r.0.pairing_codes ≡ true

  pub activate-unusable :
      (now : ℕ) (id key : String) (code label normalized : List ℕ) (s : Store)
      → normalize_pairing_code code ≡ some normalized
      → get_active_by_hash now (sha256 normalized) s.pairing_codes ≡ none
      → activate_pairing_code sha256 now id key code label s
        ≡ (s, http_error 404 "Codigo de vinculacao invalido ou expirado.")
  unfolding activate_pairing_code
  activate-unusable now id key code label normalized s e gone =
      on_option P (normalize_pairing_code code) _ _ (λ n. ground (arith, n, e))
        (λ m eq.
          let same : m ≡ normalized = ground (arith, eq, e) in
          on_option P (get_active_by_hash now (sha256 m) s.pairing_codes) _ _ (λ n. refl)
            (λ p found. absurd (
              ground (
                arith,
                sym (ap (λ t. get_active_by_hash now (sha256 t) s.pairing_codes) same) ∙ found,
                gone,
              ))))
    where
      P : Store × Reply (String × String) → Type 0
      P r = r ≡ (s, http_error 404 "Codigo de vinculacao invalido ou expirado.")

  unusable_after :
      (now later : ℕ) (id key : String) (label normalized : List ℕ) (p : PairingCode) (s : Store)
      → now ≤ later
      → hashes_unique s.pairing_codes ≡ true
      → get_active_by_hash now (sha256 normalized) s.pairing_codes ≡ some p
      → get_active_by_hash later
          (sha256 normalized)
          (pair sha256 now id key label p s).pairing_codes
        ≡ none
  unfolding get_active_by_hash pair
  unusable_after now later id key label normalized p s le u found =
      used_up now later (sha256 normalized) (or_default (strip label)) p s.pairing_codes le u found

  -- A code pairs one device: when the digests of the table are distinct and an activation is
  -- accepted, every later activation of the same code, however it is typed, by whatever device,
  -- answers 404 and changes nothing.
  pub single_use :
      (now later : ℕ) (id key other_id other_key : String) (code label other other_label : List ℕ)
      (s : Store) (reply : String × String)
      → now ≤ later
      → hashes_unique s.pairing_codes ≡ true
      → normalize_pairing_code other ≡ normalize_pairing_code code
      → (activate_pairing_code sha256 now id key code label s).1 ≡ accepted reply
      → let after = (activate_pairing_code sha256 now id key code label s).0 in
        activate_pairing_code sha256 later other_id other_key other other_label after
        ≡ (after, http_error 404 "Codigo de vinculacao invalido ou expirado.")
  unfolding activate_pairing_code
  single_use now later id key other_id other_key code label other other_label s reply le u same =
      on_option P (normalize_pairing_code code) _ _ (λ n bad. ground (arith, bad))
        (λ normalized e.
          on_option P (get_active_by_hash now (sha256 normalized) s.pairing_codes) _ _
            (λ n bad. ground (arith, bad))
            (λ p found.
              on_option P (get_active_tenant p.empresa_id s.tenants) _ _
                (λ n bad. ground (arith, bad))
                (λ tenant t ok.
                  activate-unusable later other_id other_key other other_label normalized _
                    (same ∙ e) (unusable_after now later id key label normalized p s le u found))))
    where
      P : Store × Reply (String × String) → Type 0
      P r =
          r.1 ≡ accepted reply
          → activate_pairing_code sha256 later other_id other_key other other_label r.0
            ≡ (r.0, http_error 404 "Codigo de vinculacao invalido ou expirado.")
