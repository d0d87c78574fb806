-- ===== src/Ingestion/Tests.antt =====
-- A batch of two sales, and the theorems applied to it.
use integrado_web_xd.Prelude.{ℕ, ◌≤◌, ◌≡◌, refl, String, true, none, some, [], ◌∷◌, ◌==◌}
use integrado_web_xd.Sales.{SaleRecord, sqlite, row_of}
use integrado_web_xd.Sales
use integrado_web_xd.Sales.Write.{rows_of}
use integrado_web_xd.Metrics.{no_metrics}
use integrado_web_xd.Http.{accepted}
use integrado_web_xd.Ingestion.{SyncService, SyncRequest, SyncResponse, Base, sync_batch}
use integrado_web_xd.Ingestion.Batches.{
  sync_batch_isolation, sync_batch-accepted, distinct_uuids, is_own_cnpj,
}

abbrev sale : String → ℕ → SaleRecord
sale uuid stamp = record {
  uuid = uuid;
  branch_code = none;
  terminal_code = none;
  tipo_venda = none;
  forma_pagamento = none;
  bandeira_cartao = none;
  familia_produto = none;
  categoria_produto = none;
  codigo_produto_local = none;
  unidade = none;
  operador = none;
  cliente = none;
  status_venda = none;
  cancelada = none;
  produto = "Cafe";
  quantidade = none;
  valor_unitario = none;
  valor_bruto = none;
  desconto = none;
  acrescimo = none;
  valor_liquido = none;
  valor = "5.00";
  day = stamp;
  data_atualizacao = stamp;
}

abbrev service : SyncService
service = record {
  dialect = sqlite;
  ingestion_enabled = true;
  max_batch_size = 1000;
  has_tenants = true;
}

abbrev batch : SyncRequest
batch = record {
  empresa_id = "111";
  source_metadata = some (record { cnpj = some "111"; company_name = none });
  records = sale "aaaaaaaa" 7 ∷ sale "aaaaaaaa" 8 ∷ [];
}

abbrev base : Base
base = record {
  vendas = row_of "222" 1 (sale "aaaaaaaa" 4) ∷ [];
  tenants =
      record {
        empresa_id = "111";
        nome = "Loja";
        api_key_hash = "h";
        api_key_last_rotated_at = none;
        api_key_expires_at = none;
        ativo = true;
      }
      ∷ [];
  metrics = no_metrics;
}

sync_batch_isolation_example :
    rows_of "222" (sync_batch service 9 "111" batch base).0.vendas ≡ rows_of "222" base.vendas
sync_batch_isolation_example = sync_batch_isolation service 9 "111" batch base "222" refl

abbrev reply : SyncResponse
reply = record { empresa_id = "111"; inserted_count = 1; updated_count = 0; processed_count = 1 }

sync_batch_runs : (sync_batch service 9 "111" batch base).1 ≡ accepted reply
unfolding sync_batch integrado_web_xd.Sales.bulk_upsert row_of
sync_batch_runs = refl

sync_batch-accepted_example :
    (1 ≡ distinct_uuids [] batch.records)
    × (true ≡ true)
    × (2 ≤ 1000)
    × (batch.empresa_id == "111" ≡ true)
    × (is_own_cnpj "111" batch.source_metadata ≡ true)
sync_batch-accepted_example =
    sync_batch-accepted service 9 "111" batch base reply (λ e. cc e) sync_batch_runs
