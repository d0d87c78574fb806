-- ===== src/Agent/Tests.antt =====
-- A shop with three sales, and the theorems on its runs.
use integrado_web_xd.Prelude.{
  ℕ, ◌+◌, ◌≡◌, refl, arith, String, true, false, none, some, List, [], ◌∷◌, map, take,
}
use integrado_web_xd.Http.{Reply, accepted}
use integrado_web_xd.Sales.{sqlite, bulk_upsert}
use integrado_web_xd.Sales.Dedup.{newest}
use integrado_web_xd.Sales.Write.{view, written}
use integrado_web_xd.Metrics.{no_metrics}
use integrado_web_xd.Ingestion.{SyncService, SyncRequest, SyncResponse, Base, sync_batch}
use integrado_web_xd.Agent.{
  SourceVenda, changed, fetch_changed_vendas, build_payload_record, get, checkpoint_key, run_once,
  clean,
}
use integrado_web_xd.Agent.Order.{read}
use integrado_web_xd.Agent.Catchup.{sends, sends-changed}
use integrado_web_xd.Agent.Server.{send, send_lost, run_once-view, run_once-resend}

abbrev row : String → ℕ → SourceVenda
row uuid time = record {
  uuid = uuid;
  empresa_id = "loja";
  produto = "Pao";
  valor = "1.00";
  day = 1;
  data_atualizacao = time;
}

abbrev shop : List SourceVenda
shop = row "c" 30 ∷ row "a" 10 ∷ row "b" 20 ∷ []

abbrev reply : SyncResponse
reply = record { empresa_id = "loja"; inserted_count = 1; updated_count = 0; processed_count = 1 }

-- A server that counts the batches.
abbrev count_batches : SyncRequest → ℕ → ℕ × Reply SyncResponse
count_batches request n = (n + 1, accepted reply)

strips : (clean (some "  1 ") ≡ some "1") × (clean (some " ") ≡ none)
unfolding clean
strips = (refl, refl)

sends-changed_example :
    sends count_batches "loja" none 2 shop 2 [] 0
    ≡ map build_payload_record (read (take 4 (changed "loja" 0 shop)))
unfolding get
sends-changed_example =
    sends-changed count_batches "loja" none 2 shop 2 [] 0 (omega arith)
      (λ records w short. (reply, refl)) refl

-- Two sales of the same time with one row a batch: the second one is never sent.
tied :
    map (λ r. r.uuid) (sends count_batches "loja" none 1 (row "a" 10 ∷ row "b" 10 ∷ []) 3 [] 0)
    ≡ "a" ∷ []
unfolding fetch_changed_vendas get run_once
tied = refl

abbrev service : SyncService
service = record {
  dialect = sqlite;
  ingestion_enabled = true;
  max_batch_size = 1000;
  has_tenants = false;
}

abbrev server : Base
server = record { vendas = []; tenants = []; metrics = no_metrics }

abbrev two : SyncResponse
two = record { empresa_id = "loja"; inserted_count = 2; updated_count = 0; processed_count = 2 }

abbrev none_new : SyncResponse
none_new = record {
  empresa_id = "loja";
  inserted_count = 0;
  updated_count = 2;
  processed_count = 2;
}

run_once-view_example :
    view "loja" "a" (run_once (send service 5 "loja") "loja" none 2 shop [] server).0.1.vendas
    ≡ written "loja" 5 none (
        newest "a" (
          map build_payload_record
            (fetch_changed_vendas "loja" (get (checkpoint_key "loja") []) 2 shop)))
unfolding run_once sync_batch get fetch_changed_vendas bulk_upsert
run_once-view_example = run_once-view service 5 "loja" none 2 shop [] server two "a" refl

run_once-resend_example :
    ((run_once (send_lost service 5 "loja") "loja" none 2 shop [] server).0.0 ≡ [])
    × (none_new.inserted_count ≡ 0)
unfolding run_once sync_batch get fetch_changed_vendas bulk_upsert
run_once-resend_example =
    run_once-resend service 5 6 "loja" none 2 shop [] server two none_new refl refl
