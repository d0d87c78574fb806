-- ===== src/Ingestion.antt =====
-- backend/services/sync_service.py: the reception of a batch of sales over HTTP. The credential of the
-- request gives the tenant. The records have passed the validators of backend/schemas/sync.py, whose
-- fields are those that the batch upsert takes.
pub mod Batches
mod Tests
use Prim.Native.String
use integrado_web_xd.Prelude.Text.{decimal}
use integrado_web_xd.Prelude.{
  ℕ, ◌+◌, String, Bool, true, false, not, ◌&&◌, ◌||◌, Option, none, some, List, [], ◌∷◌, ltb,
  if◌then◌else◌, ◌==◌, length, first_where, update_where,
}
use integrado_web_xd.Http.{Reply, accepted, http_error}
use integrado_web_xd.Access.{Tenant, update_nome}
use integrado_web_xd.Sales.{SaleRecord, Venda, Dialect, bulk_upsert}
use integrado_web_xd.Metrics.{Metrics, record_sync_success}

pub record SyncSourceMetadata : Type 0 where
  pub cnpj : Option String
  pub company_name : Option String

pub record SyncRequest : Type 0 where
  pub empresa_id : String
  pub source_metadata : Option SyncSourceMetadata
  pub records : List SaleRecord

pub record SyncResponse : Type 0 where
  pub empresa_id : String
  pub inserted_count : ℕ
  pub updated_count : ℕ
  pub processed_count : ℕ

-- The settings of the service; `has_tenants` tells whether it was given a repository of tenants.
pub record SyncService : Type 0 where
  pub dialect : Dialect
  pub ingestion_enabled : Bool
  pub max_batch_size : ℕ
  pub has_tenants : Bool

pub record Base : Type 0 where
  pub vendas : List Venda
  pub tenants : List Tenant
  pub metrics : Metrics

-- Python's truth of an optional text.
abbrev given : Option String → Option String
given none = none
given (some s) = if s == "" then none else some s

-- `_apply_source_metadata`: `none` where it raises.
unfoldable pub apply_source_metadata :
    SyncService → String → Option SyncSourceMetadata → List Tenant → Option (List Tenant)
unfolding update_nome
apply_source_metadata service tenant none tenants = some tenants
apply_source_metadata service tenant (some metadata) tenants =
    let renamed : List Tenant = elim (given metadata.company_name) [
      | none ↦ tenants
      | some name ↦ if service.has_tenants then update_nome tenant name tenants else tenants
    ] in
    elim (given metadata.cnpj) [
      | none ↦ some renamed
      | some cnpj ↦ if cnpj == tenant then some renamed else none
    ]

-- The end of `sync_batch`. The upsert has its default chunk size.
unfoldable pub store_batch :
    SyncService → ℕ → String → SyncRequest → List Tenant → Base → Base × Reply SyncResponse
store_batch service now tenant payload tenants s =
    let (vendas, inserted, updated) =
      bulk_upsert service.dialect tenant now payload.records 250 s.vendas in
    (
      record {
        vendas = vendas;
        tenants = tenants;
        metrics = record_sync_success tenant inserted updated now s.metrics;
      },
      accepted (record {
        empresa_id = tenant;
        inserted_count = inserted;
        updated_count = updated;
        processed_count = inserted + updated;
      }),
    )

abbrev pub too_long : ℕ → String
too_long n = String.◌++◌ "Lote excede max_batch_size=" (String.◌++◌ (decimal n) ".")

unfoldable pub sync_batch :
    SyncService → ℕ → String → SyncRequest → Base → Base × Reply SyncResponse
unfolding apply_source_metadata store_batch
sync_batch service now tenant payload s =
    if not service.ingestion_enabled
    then (s, http_error 503 "Ingestion desabilitada por configuracao do servidor.")
    else if ltb service.max_batch_size (length payload.records)
    then (s, http_error 400 (too_long service.max_batch_size))
    else if not (payload.empresa_id == tenant)
    then (s, http_error 403 "empresa_id do payload difere da credencial.")
    else elim (apply_source_metadata service tenant payload.source_metadata s.tenants) [
      | none ↦ (s, http_error 403 "cnpj da origem difere da credencial.")
      | some tenants ↦ store_batch service now tenant payload tenants s
    ]
