-- ===== src/Configs/Isolation.antt =====
-- What the configuration calls of a tenant do to the configurations.
use integrado_web_xd.Prelude.{
  ◌≡◌, refl, ◌∙◌, arith, String, Bool, true, false, not, List, [], ◌∷◌, ◌==◌, eq_iff, keep,
  keep-append, append-nil, all, any, first_where, update_first, on_if, on_option, or_else,
}
use integrado_web_xd.Http.{Reply}
use integrado_web_xd.Access.{Tenant}
use integrado_web_xd.Worker.{SourceConfig}
use integrado_web_xd.Configs.{
  TenantConfigCreateRequest, TenantConfigUpdateRequest, ensure_tenant_exists, is_supported_for,
  is_config, has_name, updated, delete_first, create_config, update_config, delete_config,
  unsupported,
}

pub data ConfigCall (Settings : Type 0) : Type 0 where
  create :
      (config_id empresa_id : String) (payload : TenantConfigCreateRequest Settings)
      → ConfigCall Settings
  update :
      (empresa_id config_id : String) (payload : TenantConfigUpdateRequest Settings)
      → ConfigCall Settings
  delete : (empresa_id config_id : String) → ConfigCall Settings

abbrev pub caller : {Settings : Type 0} → ConfigCall Settings → String
caller (create config_id empresa_id payload) = empresa_id
caller (update empresa_id config_id payload) = empresa_id
caller (delete empresa_id config_id) = empresa_id

abbrev pub is_of : String → SourceConfig → Bool
is_of t c = c.empresa_id == t

keep-delete_first :
    (t e i : String) (cs : List SourceConfig)
    → (e == t) ≡ false
    → keep (is_of t) (delete_first (is_config e i) cs) ≡ keep (is_of t) cs
keep-delete_first t e i [] h = refl
keep-delete_first t e i (c ∷ cs) h =
    ground
      (arith, keep-delete_first t e i cs, eq_iff c.empresa_id e, eq_iff c.empresa_id t, eq_iff e t)

keep-update_config :
    {Settings : Type 0} (encrypt_json : Settings → String)
    (payload : TenantConfigUpdateRequest Settings) (t e i : String) (cs : List SourceConfig)
    → (e == t) ≡ false
    → keep (is_of t) (update_first (is_config e i) (updated encrypt_json payload) cs)
      ≡ keep (is_of t) cs
unfolding updated
keep-update_config encrypt_json payload t e i [] h = refl
keep-update_config encrypt_json payload t e i (c ∷ cs) h = ground (
  arith,
  keep-update_config encrypt_json payload t e i cs,
  eq_iff c.empresa_id e,
  eq_iff c.empresa_id t,
  eq_iff e t,
)

module _ {Settings : Type 0} (encrypt_json : Settings → String) (direction : String)
    (tenants : List Tenant) where
  unfoldable pub run_call :
      ConfigCall Settings → List SourceConfig → List SourceConfig × Reply SourceConfig
  run_call (create config_id empresa_id payload) =
      create_config encrypt_json direction tenants config_id empresa_id payload
  run_call (update empresa_id config_id payload) =
      update_config encrypt_json direction tenants empresa_id config_id payload
  run_call (delete empresa_id config_id) =
      delete_config encrypt_json direction tenants empresa_id config_id

  unfoldable pub run_calls : List (ConfigCall Settings) → List SourceConfig → List SourceConfig
  unfolding run_call
  run_calls [] configs = configs
  run_calls (c ∷ cs) configs = run_calls cs (run_call c configs).0

  module _ (t : String) (configs : List SourceConfig) where
    abbrev pub Keeps : List SourceConfig × Reply SourceConfig → Type 0
    Keeps r = keep (is_of t) r.0 ≡ keep (is_of t) configs

    create-Keeps :
        (config_id e : String) (payload : TenantConfigCreateRequest Settings)
        → (e == t) ≡ false
        → Keeps (create_config encrypt_json direction tenants config_id e payload configs)
    unfolding create_config
    create-Keeps config_id e payload apart =
        on_option Keeps (ensure_tenant_exists e tenants) _ _
          (λ n.
            on_if Keeps (not (is_supported_for direction payload.connector_type)) _ _ (λ t. refl)
              (λ f.
                on_if Keeps (any (has_name e config_id payload.nome) configs) _ _ (λ t. refl)
                  (λ g.
                    keep-append (is_of t) configs _
                    ∙ ground (arith, apart, append-nil (keep (is_of t) configs)))))
          (λ err h. refl)

    update-Keeps :
        (e config_id : String) (payload : TenantConfigUpdateRequest Settings)
        → (e == t) ≡ false
        → Keeps (update_config encrypt_json direction tenants e config_id payload configs)
    unfolding update_config
    update-Keeps e config_id payload apart =
        on_option Keeps (ensure_tenant_exists e tenants) _ _
          (λ n.
            on_if Keeps (unsupported encrypt_json direction tenants payload.connector_type) _ _
              (λ t. refl)
              (λ f.
                on_option Keeps (first_where (is_config e config_id) configs) _ _ (λ n. refl)
                  (λ config found.
                    on_if Keeps
                      (any (has_name e config_id (or_else payload.nome config.nome)) configs) _ _
                      (λ t. refl)
                      (λ g. keep-update_config encrypt_json payload t e config_id configs apart))))
          (λ err h. refl)

    delete-Keeps :
        (e config_id : String)
        → (e == t) ≡ false
        → Keeps (delete_config encrypt_json direction tenants e config_id configs)
    unfolding delete_config
    delete-Keeps e config_id apart =
        on_option Keeps (ensure_tenant_exists e tenants) _ _
          (λ n.
            on_option Keeps (first_where (is_config e config_id) configs) _ _ (λ n. refl)
              (λ config found. keep-delete_first t e config_id configs apart))
          (λ err h. refl)

    run_call-Keeps :
        (c : ConfigCall Settings) → (caller c == t) ≡ false → Keeps (run_call c configs)
    unfolding run_call
    run_call-Keeps (create config_id e payload) apart = create-Keeps config_id e payload apart
    run_call-Keeps (update e config_id payload) apart = update-Keeps e config_id payload apart
    run_call-Keeps (delete e config_id) apart = delete-Keeps e config_id apart

  -- Whatever other tenants create, update and delete, accepted or refused, the configurations of a tenant
  -- stay as they are, and in their order.
  pub keep-run_calls :
      (t : String) (cs : List (ConfigCall Settings)) (configs : List SourceConfig)
      → all (λ c. not (caller c == t)) cs ≡ true
      → keep (is_of t) (run_calls cs configs) ≡ keep (is_of t) configs
  unfolding run_calls
  keep-run_calls t [] configs h = refl
  keep-run_calls t (c ∷ cs) configs h =
      keep-run_calls t cs (run_call c configs).0 (ground arith)
      ∙ run_call-Keeps t configs c (ground arith)
