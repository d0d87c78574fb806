-- ===== src/Agent/Server.antt =====
-- The agent against the reception of the server.
use integrado_web_xd.Prelude.{
  ℕ, ◌≡◌, refl, ◌∙◌, ap, subst, arith, String, not, Option, List, [], ◌∷◌, map, length, ltb, ◌==◌,
  on_if, on_option,
}
use integrado_web_xd.Http.{Reply, accepted, http_error}
use integrado_web_xd.Sales.{SaleRecord, bulk_upsert}
use integrado_web_xd.Sales.Dedup.{newest}
use integrado_web_xd.Sales.Write.{view, written}
use integrado_web_xd.Sales.Upsert.{view-bulk_upsert, bulk_upsert_again}
use integrado_web_xd.Ingestion.{
  SyncService, SyncRequest, SyncSourceMetadata, SyncResponse, Base, sync_batch, store_batch,
  apply_source_metadata,
}
use integrado_web_xd.Agent.{
  SourceVenda, fetch_changed_vendas, build_payload_record, get, checkpoint_key, synced, finish,
  send_records, run_once,
}

module _ {W : Type 0} (send : SyncRequest → W → W × Reply SyncResponse) (empresa_id : String)
    (metadata : Option SyncSourceMetadata) where
  abbrev pub request_of : List SaleRecord → SyncRequest
  request_of records = record {
    empresa_id = empresa_id;
    source_metadata = metadata;
    records = map build_payload_record records;
  }

  finish-synced :
      (records : List SaleRecord) (checkpoints : List (String × ℕ))
      (answer : W × Reply SyncResponse) (response : SyncResponse)
      → (finish send empresa_id records checkpoints answer).1 ≡ synced response
      → (answer.1 ≡ accepted response)
        × ((finish send empresa_id records checkpoints answer).0.1 ≡ answer.0)
  unfolding finish
  finish-synced records checkpoints (w, accepted r) response h = (ground (arith, h), refl)
  finish-synced records checkpoints (w, http_error code detail) response h = ground (arith, h)

  send_records-synced :
      (records : List SaleRecord) (checkpoints : List (String × ℕ)) (w : W)
      (response : SyncResponse)
      → (send_records send empresa_id metadata records checkpoints w).1 ≡ synced response
      → ((send (request_of records) w).1 ≡ accepted response)
        × ((send_records send empresa_id metadata records checkpoints w).0.1
            ≡ (send (request_of records) w).0)
  unfolding send_records
  send_records-synced [] checkpoints w response h = ground (arith, h)
  send_records-synced (r ∷ rs) checkpoints w response h =
      finish-synced (r ∷ rs) checkpoints (send (request_of (r ∷ rs)) w) response h

  run_once-synced :
      (batch_size : ℕ) (vendas : List SourceVenda) (checkpoints : List (String × ℕ)) (w : W)
      (response : SyncResponse)
      → (run_once send empresa_id metadata batch_size vendas checkpoints w).1 ≡ synced response
      → let request = request_of (
          fetch_changed_vendas empresa_id
            (get (checkpoint_key empresa_id) checkpoints)
            batch_size
            vendas) in
        ((send request w).1 ≡ accepted response)
        × ((run_once send empresa_id metadata batch_size vendas checkpoints w).0.1
            ≡ (send request w).0)
  unfolding run_once
  run_once-synced batch_size vendas checkpoints w response h =
      send_records-synced
        (fetch_changed_vendas empresa_id (get (checkpoint_key empresa_id) checkpoints) batch_size
          vendas)
        checkpoints w response h

module _ (service : SyncService) (now : ℕ) (tenant : String) where
  -- The server, with a credential of the tenant.
  abbrev pub send : SyncRequest → Base → Base × Reply SyncResponse
  send request s = sync_batch service now tenant request s

  -- The connection breaks after the server has done its work.
  abbrev pub send_lost : SyncRequest → Base → Base × Reply SyncResponse
  send_lost request s = ((sync_batch service now tenant request s).0, http_error 0 "ReadTimeout")

  store_batch-upsert :
      (request : SyncRequest) (s : Base) (reply : SyncResponse)
      → (sync_batch service now tenant request s).1 ≡ accepted reply
      → let stored = bulk_upsert service.dialect tenant now request.records 250 s.vendas in
        ((sync_batch service now tenant request s).0.vendas ≡ stored.0)
        × (reply.inserted_count ≡ stored.1)
  unfolding sync_batch store_batch
  store_batch-upsert request s reply =
      on_if P (not service.ingestion_enabled) _ _ (λ off h. ground (arith, h))
        (λ on.
          on_if P (ltb service.max_batch_size (length request.records)) _ _
            (λ long h. ground (arith, h))
            (λ fits.
              on_if P (not (request.empresa_id == tenant)) _ _ (λ foreign h. ground (arith, h))
                (λ own.
                  on_option P
                    (apply_source_metadata service tenant request.source_metadata s.tenants) _ _
                    (λ refused h. ground (arith, h)) (λ tenants k h. (refl, ground (arith, h))))))
    where
      P : Base × Reply SyncResponse → Type 0
      P r =
          r.1 ≡ accepted reply
          → (r.0.vendas ≡ (bulk_upsert service.dialect tenant now request.records 250 s.vendas).0)
            × (reply.inserted_count
                ≡ (bulk_upsert service.dialect tenant now request.records 250 s.vendas).1)

  -- What a run that was accepted has stored: for every uuid, the server's row of the tenant has the
  -- content of the newest record that the agent fetched with that uuid, as it is sent, and of equally
  -- new ones the last; the other rows are as they were.
  pub run_once-view :
      (metadata : Option SyncSourceMetadata) (batch_size : ℕ) (vendas : List SourceVenda)
      (checkpoints : List (String × ℕ)) (s : Base) (response : SyncResponse) (u : String)
      → (run_once send tenant metadata batch_size vendas checkpoints s).1 ≡ synced response
      → view tenant u (run_once send tenant metadata batch_size vendas checkpoints s).0.1.vendas
        ≡ written tenant now (view tenant u s.vendas) (
            newest u (
              map build_payload_record (
                fetch_changed_vendas tenant
                  (get (checkpoint_key tenant) checkpoints)
                  batch_size
                  vendas)))
  run_once-view metadata batch_size vendas checkpoints s response u h =
      let records =
        fetch_changed_vendas tenant (get (checkpoint_key tenant) checkpoints) batch_size vendas in
      let sent = run_once-synced send tenant metadata batch_size vendas checkpoints s response h in
      ap (λ b. view tenant u b.vendas) (sent.1)
      ∙ ap (view tenant u)
          (store_batch-upsert (request_of send tenant metadata records) s response (sent.0)).0
      ∙ view-bulk_upsert service.dialect tenant now (map build_payload_record records) 250 s.vendas
          u

  lost_checkpoint :
      (metadata : Option SyncSourceMetadata) (batch_size : ℕ) (vendas : List SourceVenda)
      (checkpoints : List (String × ℕ)) (s : Base)
      → (run_once send_lost tenant metadata batch_size vendas checkpoints s).0.0 ≡ checkpoints
  unfolding run_once
  lost_checkpoint metadata batch_size vendas checkpoints s =
      lost (fetch_changed_vendas tenant (get (checkpoint_key tenant) checkpoints) batch_size vendas)
    where
      lost :
          (records : List SaleRecord)
          → (send_records send_lost tenant metadata records checkpoints s).0.0 ≡ checkpoints
      lost [] = unfold send_records in refl
      lost (r ∷ rs) = unfold send_records in unfold finish in refl

module _ (service : SyncService) (now later : ℕ) (tenant : String)
    (metadata : Option SyncSourceMetadata) where
  resend_records :
      (records : List SaleRecord) (checkpoints : List (String × ℕ)) (s : Base)
      (reply response : SyncResponse)
      → (sync_batch service now tenant
          (request_of (send service now tenant) tenant metadata records)
          s).1
        ≡ accepted reply
      → (send_records
          (send service later tenant)
          tenant
          metadata
          records
          checkpoints
          (send_records (send_lost service now tenant) tenant metadata records checkpoints s).0.1).1
        ≡ synced response
      → response.inserted_count ≡ 0
  unfolding send_records
  resend_records [] checkpoints s reply response stored h = ground (arith, h)
  resend_records (r ∷ rs) checkpoints s reply response stored h =
      let request = request_of (send service now tenant) tenant metadata (r ∷ rs) in
      let middle =
        (send_records (send_lost service now tenant) tenant metadata (r ∷ rs) checkpoints s).0.1 in
      let kept : middle ≡ (sync_batch service now tenant request s).0 = unfold finish in refl in
      let again =
        send_records-synced (send service later tenant) tenant metadata (r ∷ rs) checkpoints middle
          response h in
      (store_batch-upsert service later tenant request middle response (again.0)).1
      ∙ ap (λ b. (bulk_upsert service.dialect tenant later request.records 250 b.vendas).1) kept
      ∙ ap (λ v. (bulk_upsert service.dialect tenant later request.records 250 v).1)
          (store_batch-upsert service now tenant request s reply stored).0
      ∙ bulk_upsert_again service.dialect tenant now later request.records 250 250 s.vendas

  -- A run whose answer is lost, after the server has stored the batch, leaves the checkpoint; when the
  -- next run is accepted, it inserts nothing again.
  pub run_once-resend :
      (batch_size : ℕ) (vendas : List SourceVenda) (checkpoints : List (String × ℕ)) (s : Base)
      (reply response : SyncResponse)
      → (sync_batch service now tenant
          (request_of (send service now tenant) tenant metadata (
            fetch_changed_vendas tenant
              (get (checkpoint_key tenant) checkpoints)
              batch_size
              vendas))
          s).1
        ≡ accepted reply
      → (run_once
          (send service later tenant)
          tenant
          metadata
          batch_size
          vendas
          (run_once
            (send_lost service now tenant)
            tenant
            metadata
            batch_size
            vendas
            checkpoints
            s).0.0
          (run_once
            (send_lost service now tenant)
            tenant
            metadata
            batch_size
            vendas
            checkpoints
            s).0.1).1
        ≡ synced response
      → ((run_once
            (send_lost service now tenant)
            tenant
            metadata
            batch_size
            vendas
            checkpoints
            s).0.0
          ≡ checkpoints)
        × (response.inserted_count ≡ 0)
  run_once-resend batch_size vendas checkpoints s reply response stored h =
      let same = lost_checkpoint service now tenant metadata batch_size vendas checkpoints s in
      let middle =
        (run_once (send_lost service now tenant) tenant metadata batch_size vendas checkpoints
          s).0.1 in
      (
        same,
        resend_records
            (fetch_changed_vendas tenant (get (checkpoint_key tenant) checkpoints) batch_size
              vendas)
            checkpoints s reply response stored
            (unfold run_once in
              subst
                (λ c.
                  (run_once (send service later tenant) tenant metadata batch_size vendas c
                    middle).1
                  ≡ synced response)
                same h),
      )
