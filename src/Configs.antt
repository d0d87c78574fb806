-- ===== src/Configs.antt =====
-- The configurations of the tenants: backend/services/tenant_config_service.py with
-- backend/repositories/tenant_config_repository.py and backend/connectors/registry.py. The sources and
-- the destinations have the same functions over a table each, told apart by the direction; their rows
-- have the same columns. The encryption of the settings is a parameter, and the ids are given.
pub mod Isolation
mod Tests
use integrado_web_xd.Prelude.{
  ℕ, String, Bool, true, false, not, ◌&&◌, ◌||◌, Option, none, some, is_some, or_else, List, [],
  ◌∷◌, ◌++◌, if◌then◌else◌, ◌==◌, keep, any, first_where, update_first,
}
use integrado_web_xd.Http.{Reply, accepted, http_error}
use integrado_web_xd.Access.{Tenant, validate_empresa_id, get_active_tenant}
use integrado_web_xd.Worker.{SourceConfig}

-- The registry keeps one direction for a name.
abbrev connector_direction : String → String
connector_direction connector_type =
    if connector_type == "mariadb" || connector_type == "api" || connector_type == "file"
    then "source"
    else if connector_type == "postgresql"
    then "destination"
    else ""

unfoldable pub is_supported_for : String → String → Bool
is_supported_for direction connector_type =
    not (connector_direction connector_type == "")
    && connector_direction connector_type == direction

pub record TenantConfigCreateRequest (Settings : Type 0) : Type 0 where
  pub nome : String
  pub connector_type : String
  pub sync_interval_minutes : ℕ
  pub settings : Settings

pub record TenantConfigUpdateRequest (Settings : Type 0) : Type 0 where
  pub nome : Option String
  pub connector_type : Option String
  pub sync_interval_minutes : Option ℕ
  pub settings : Option Settings
  pub ativo : Option Bool

-- `_ensure_tenant_exists`: the exception it raises.
unfoldable pub ensure_tenant_exists : String → List Tenant → Option (ℕ × String)
unfolding validate_empresa_id get_active_tenant
ensure_tenant_exists empresa_id tenants =
    if not (validate_empresa_id empresa_id)
    then some (400, "empresa_id invalido.")
    else if is_some (get_active_tenant empresa_id tenants)
    then none
    else some (404, "Tenant nao encontrado.")

abbrev pub is_config : String → String → SourceConfig → Bool
is_config empresa_id config_id c = c.empresa_id == empresa_id && c.id == config_id

-- The UNIQUE constraint of the tenant and the name, against the other rows.
abbrev pub has_name : String → String → String → SourceConfig → Bool
has_name empresa_id config_id nome c =
    c.empresa_id == empresa_id && c.nome == nome && not (c.id == config_id)

-- `update` of the repository: a field that is None stays.
unfoldable pub updated :
    {Settings : Type 0} (encrypt_json : Settings → String)
    → TenantConfigUpdateRequest Settings
    → SourceConfig
    → SourceConfig
updated encrypt_json payload c = record c {
  nome = or_else payload.nome c.nome;
  connector_type = or_else payload.connector_type c.connector_type;
  sync_interval_minutes = or_else payload.sync_interval_minutes c.sync_interval_minutes;
  settings_json = elim payload.settings [
    | none ↦ c.settings_json
    | some settings ↦ encrypt_json settings
  ];
  ativo = or_else payload.ativo c.ativo;
}

-- `delete` of the object that was found.
abbrev pub delete_first : (SourceConfig → Bool) → List SourceConfig → List SourceConfig
delete_first p [] = []
delete_first p (c ∷ cs) = let rest = delete_first p cs in if p c then cs else c ∷ rest

module _ {Settings : Type 0} (encrypt_json : Settings → String) (direction : String)
    (tenants : List Tenant) where
  unfoldable pub create_config :
      String
      → String
      → TenantConfigCreateRequest Settings
      → List SourceConfig
      → List SourceConfig × Reply SourceConfig
  unfolding ensure_tenant_exists is_supported_for
  create_config config_id empresa_id payload configs =
      elim (ensure_tenant_exists empresa_id tenants) [
        | some e ↦ (configs, http_error e.0 e.1)
        | none ↦
            let config : SourceConfig = record {
              id = config_id;
              empresa_id = empresa_id;
              nome = payload.nome;
              connector_type = payload.connector_type;
              sync_interval_minutes = payload.sync_interval_minutes;
              settings_json = encrypt_json payload.settings;
              ativo = true;
              last_run_at = none;
              last_scheduled_at = none;
              next_run_at = none;
              last_status = "pending";
              last_error = none;
            } in
            if not (is_supported_for direction payload.connector_type)
            then (configs, http_error 400 "connector_type nao suportado.")
            else if any (has_name empresa_id config_id payload.nome) configs
            then (configs, http_error 500 "Internal Server Error")
            else (configs ++ config ∷ [], accepted config)
      ]

  abbrev pub unsupported : Option String → Bool
  unsupported none = false
  unsupported (some connector_type) = not (is_supported_for direction connector_type)

  unfoldable pub update_config :
      String
      → String
      → TenantConfigUpdateRequest Settings
      → List SourceConfig
      → List SourceConfig × Reply SourceConfig
  unfolding ensure_tenant_exists is_supported_for updated
  update_config empresa_id config_id payload configs =
      elim (ensure_tenant_exists empresa_id tenants) [
        | some e ↦ (configs, http_error e.0 e.1)
        | none ↦
            if unsupported payload.connector_type
            then (configs, http_error 400 "connector_type nao suportado.")
            else elim (first_where (is_config empresa_id config_id) configs) [
              | none ↦ (configs, http_error 404 "Configuracao nao encontrada.")
              | some config ↦
                  if any (has_name empresa_id config_id (or_else payload.nome config.nome)) configs
                  then (configs, http_error 500 "Internal Server Error")
                  else (
                    update_first (is_config empresa_id config_id) (updated encrypt_json payload)
                        configs,
                    accepted (updated encrypt_json payload config),
                  )
            ]
      ]

  unfoldable pub delete_config :
      String → String → List SourceConfig → List SourceConfig × Reply SourceConfig
  unfolding ensure_tenant_exists
  delete_config empresa_id config_id configs = elim (ensure_tenant_exists empresa_id tenants) [
    | some e ↦ (configs, http_error e.0 e.1)
    | none ↦ elim (first_where (is_config empresa_id config_id) configs) [
      | none ↦ (configs, http_error 404 "Configuracao nao encontrada.")
      | some config ↦ (delete_first (is_config empresa_id config_id) configs, accepted config)
    ]
  ]
