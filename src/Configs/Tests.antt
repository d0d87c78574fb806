-- ===== src/Configs/Tests.antt =====
-- Two tenants with a configuration each, and the theorem applied to the calls of one.
use integrado_web_xd.Prelude.{◌≡◌, refl, String, true, none, some, List, [], ◌∷◌, keep, map}
use integrado_web_xd.Access.{Tenant, validate_empresa_id, get_active_tenant}
use integrado_web_xd.Worker.{SourceConfig}
use integrado_web_xd.Configs.{create_config, update_config, delete_config}
use integrado_web_xd.Configs.Isolation.{
  ConfigCall, create, update, delete, run_calls, is_of, keep-run_calls,
}

abbrev config : String → String → SourceConfig
config id empresa_id = record {
  id = id;
  empresa_id = empresa_id;
  nome = "Caixa";
  connector_type = "mariadb";
  sync_interval_minutes = 16;
  settings_json = "{}";
  ativo = true;
  last_run_at = none;
  last_scheduled_at = none;
  next_run_at = none;
  last_status = "pending";
  last_error = none;
}

abbrev loja : Tenant
loja = record {
  empresa_id = "loja";
  nome = "Loja";
  api_key_hash = "h";
  api_key_last_rotated_at = none;
  api_key_expires_at = none;
  ativo = true;
}

abbrev configs : List SourceConfig
configs = config "c1" "loja" ∷ config "c2" "outra" ∷ []

abbrev encrypt : String → String
encrypt s = s

abbrev calls : List (ConfigCall String)
calls =
    create "c3" "loja"
      (record { nome = "Api"; connector_type = "api"; sync_interval_minutes = 5; settings = "{}" })
    ∷ update "loja" "c3" (record {
      nome = some "Caixa";
      connector_type = none;
      sync_interval_minutes = none;
      settings = none;
      ativo = none;
    })
    ∷ update "loja" "c3" (record {
      nome = some "Nova";
      connector_type = none;
      sync_interval_minutes = some 9;
      settings = none;
      ativo = none;
    })
    ∷ delete "loja" "c2"
    ∷ delete "loja" "c1"
    ∷ []

-- The name that is taken and the configuration of the other tenant are refused.
names_kept :
    map (λ c. c.nome) (run_calls encrypt "source" (loja ∷ []) calls configs) ≡ "Caixa" ∷ "Nova" ∷ []
unfolding run_calls validate_empresa_id get_active_tenant delete_config update_config create_config
names_kept = refl

keep-run_calls_example :
    keep (is_of "outra") (run_calls encrypt "source" (loja ∷ []) calls configs)
    ≡ config "c2" "outra" ∷ []
keep-run_calls_example = keep-run_calls encrypt "source" (loja ∷ []) "outra" calls configs refl
