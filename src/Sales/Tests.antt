-- ===== src/Sales/Tests.antt =====
-- Small batches: what the code does on them, and the theorems applied to them.
use integrado_web_xd.Prelude.{ℕ, ◌≡◌, refl, String, none, List, [], ◌∷◌, map, ◌==◌}
use integrado_web_xd.Sales.{
  SaleRecord, Venda, sqlite, default, row_of, bulk_upsert, deduplicate_by_uuid,
}
use integrado_web_xd.Sales.Archive.{Sales, retain_recent_data}
use integrado_web_xd.Sales.Upsert.{rows_of-bulk_upsert, view-bulk_upsert}
use integrado_web_xd.Sales.Dedup.{newest}
use integrado_web_xd.Sales.Write.{rows_of, view, written}
use integrado_web_xd.Sales.Retention.{retain_recent_data-archives, kept_count}

abbrev sale : String → String → ℕ → SaleRecord
sale uuid valor stamp = record {
  uuid = uuid;
  branch_code = none;
  terminal_code = none;
  tipo_venda = none;
  forma_pagamento = none;
  bandeira_cartao = none;
  familia_produto = none;
  categoria_produto = none;
  codigo_produto_local = none;
  unidade = none;
  operador = none;
  cliente = none;
  status_venda = none;
  cancelada = none;
  produto = "Cafe";
  quantidade = none;
  valor_unitario = none;
  valor_bruto = none;
  desconto = none;
  acrescimo = none;
  valor_liquido = none;
  valor = valor;
  day = stamp;
  data_atualizacao = stamp;
}

abbrev batch : List SaleRecord
batch = sale "aaaaaaaa" "5.00" 7 ∷ sale "bbbbbbbb" "2.00" 8 ∷ sale "aaaaaaaa" "9.00" 6 ∷ []

abbrev stored : List Venda
stored = row_of "111" 1 (sale "bbbbbbbb" "1.00" 3) ∷ row_of "222" 1 (sale "aaaaaaaa" "4.00" 3) ∷ []

-- The older record of the doubled uuid is dropped; one row is new, one is updated.
bulk_upsert_runs : (bulk_upsert sqlite "111" 20 batch 1 stored).1 ≡ 1
unfolding bulk_upsert row_of
bulk_upsert_runs = refl

deduplicate_runs : map (λ r. r.valor) (deduplicate_by_uuid batch) ≡ "5.00" ∷ "2.00" ∷ []
unfolding deduplicate_by_uuid
deduplicate_runs = refl

view-bulk_upsert_example :
    view "111" "aaaaaaaa" (bulk_upsert sqlite "111" 20 batch 1 stored).0
    ≡ written "111" 20 (view "111" "aaaaaaaa" stored) (newest "aaaaaaaa" batch)
view-bulk_upsert_example = view-bulk_upsert sqlite "111" 20 batch 1 stored "aaaaaaaa"

rows_of-bulk_upsert_example :
    rows_of "222" (bulk_upsert default "111" 20 batch 250 stored).0 ≡ rows_of "222" stored
rows_of-bulk_upsert_example = rows_of-bulk_upsert default "111" 20 batch 250 stored "222" refl

abbrev sales : Sales
sales = record { vendas = stored; historico = [] }

retain_recent_data-archives_example :
    kept_count (λ v. v.uuid == "aaaaaaaa") (retain_recent_data 9 5 "archive" sales).0
    ≡ kept_count (λ v. v.uuid == "aaaaaaaa") sales
retain_recent_data-archives_example =
    retain_recent_data-archives 9 5 "archive" sales (λ v. v.uuid == "aaaaaaaa") refl
