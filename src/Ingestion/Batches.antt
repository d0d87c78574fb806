-- ===== src/Ingestion/Batches.antt =====
-- What a batch that a tenant sends can do.
use integrado_web_xd.Prelude.{
  ℕ, ◌+◌, ◌≤◌, ◌≡◌, ◌≢◌, refl, ap, ◌∙◌, String, Bool, true, false, not, ◌||◌, Option, none, some,
  List, [], ◌∷◌, arith, ltb, if◌then◌else◌, ◌==◌, eq_iff, any, length, on_if, on_option, Bool-cases,
  inl, inr,
}
use integrado_web_xd.Sales.{SaleRecord, default, put_latest, dedup_from, deduplicate_by_uuid}
use integrado_web_xd.Sales.Dedup.{same_uuid, any-put_latest}
use integrado_web_xd.Sales.Write.{rows_of}
use integrado_web_xd.Sales.Upsert.{rows_of-bulk_upsert, counts-bulk_upsert}
use integrado_web_xd.Http.{Reply, accepted}
use integrado_web_xd.Access.{Tenant}
use integrado_web_xd.Ingestion.{
  SyncService, SyncRequest, SyncSourceMetadata, SyncResponse, Base, apply_source_metadata,
  store_batch, sync_batch,
}

-- How many different uuids stand in a batch, beside those seen before.
abbrev pub distinct_uuids : List String → List SaleRecord → ℕ
distinct_uuids seen [] = 0
distinct_uuids seen (r ∷ records) =
    let repeated = distinct_uuids seen records in
    let first = 1 + distinct_uuids (r.uuid ∷ seen) records in
    if any (λ u. u == r.uuid) seen then repeated else first

-- The metadata have no CNPJ, or that of the tenant.
abbrev pub is_own_cnpj : String → Option SyncSourceMetadata → Bool
is_own_cnpj tenant none = true
is_own_cnpj tenant (some metadata) = elim metadata.cnpj [
  | none ↦ true
  | some cnpj ↦ cnpj == "" || cnpj == tenant
]

length-put_latest :
    (r : SaleRecord) (g : List SaleRecord)
    → length (put_latest r g) ≡ (if any (same_uuid r.uuid) g then length g else length g + 1)
unfolding put_latest
length-put_latest r [] = omega arith
length-put_latest r (p ∷ g) = ground (arith, length-put_latest r g)

same_uuids :
    (seen : List String) (g : List SaleRecord) (r : SaleRecord)
    → ((u : String) → any (same_uuid u) g ≡ any (λ v. v == u) seen)
    → any (same_uuid r.uuid) g ≡ true
    → (u : String) → any (same_uuid u) (put_latest r g) ≡ any (λ v. v == u) seen
same_uuids seen g r same old u = any-put_latest u r g ∙ ground (arith, same u, eq_iff r.uuid u)

length-dedup_from :
    (seen : List String) (g records : List SaleRecord)
    → ((u : String) → any (same_uuid u) g ≡ any (λ v. v == u) seen)
    → length (dedup_from g records) ≡ length g + distinct_uuids seen records
unfolding dedup_from
length-dedup_from seen g [] same = omega arith
length-dedup_from seen g (r ∷ records) same = elim (Bool-cases (any (same_uuid r.uuid) g)) [
  | inl old ↦ ground (
    arith,
    same r.uuid,
    length-put_latest r g,
    length-dedup_from seen (put_latest r g) records (same_uuids seen g r same old),
  )
  | inr new ↦ ground (
    arith,
    same r.uuid,
    length-put_latest r g,
    length-dedup_from (r.uuid ∷ seen) (put_latest r g) records
        (λ u. any-put_latest u r g ∙ ap (λ b. (r.uuid == u) || b) (same u)),
  )
]

length-deduplicate_by_uuid :
    (records : List SaleRecord) → length (deduplicate_by_uuid records) ≡ distinct_uuids [] records
unfolding deduplicate_by_uuid
length-deduplicate_by_uuid records = length-dedup_from [] [] records (λ u. refl) ∙ omega arith

module _ (service : SyncService) (now : ℕ) (tenant : String) (payload : SyncRequest)
    (s : Base) where
  store_batch-accepted :
      (tenants : List Tenant) (reply : SyncResponse)
      → service.dialect ≢ default
      → (store_batch service now tenant payload tenants s).1 ≡ accepted reply
      → reply.processed_count ≡ distinct_uuids [] payload.records
  unfolding store_batch
  store_batch-accepted tenants reply conflict h = ground (
    arith,
    (counts-bulk_upsert service.dialect tenant now payload.records 250 s.vendas conflict).0,
    length-deduplicate_by_uuid payload.records,
  )

  apply_source_metadata-own :
      (tenants : List Tenant)
      → apply_source_metadata service tenant payload.source_metadata s.tenants ≡ some tenants
      → is_own_cnpj tenant payload.source_metadata ≡ true
  apply_source_metadata-own tenants h = own payload.source_metadata h
    where
      own :
          (m : Option SyncSourceMetadata)
          → apply_source_metadata service tenant m s.tenants ≡ some tenants
          → is_own_cnpj tenant m ≡ true
      own none h = refl
      own (some metadata) h = unfold apply_source_metadata in ground (arith, h)

  -- Whatever a batch says of itself, and whether it is accepted or refused, the sales of every tenant
  -- other than that of the credential stay as they are.
  pub sync_batch_isolation :
      (t : String)
      → (tenant == t) ≡ false
      → rows_of t (sync_batch service now tenant payload s).0.vendas ≡ rows_of t s.vendas
  unfolding sync_batch store_batch
  sync_batch_isolation t apart =
      on_if IsSame (not service.ingestion_enabled) _ _ (λ off. refl)
        (λ on.
          on_if IsSame (ltb service.max_batch_size (length payload.records)) _ _ (λ long. refl)
            (λ fits.
              on_if IsSame (not (payload.empresa_id == tenant)) _ _ (λ foreign. refl)
                (λ own.
                  on_option IsSame
                    (apply_source_metadata service tenant payload.source_metadata s.tenants) _ _
                    (λ refused. refl)
                    (λ tenants k.
                      rows_of-bulk_upsert service.dialect tenant now payload.records 250 s.vendas t
                        apart))))
    where
      IsSame : Base × Reply SyncResponse → Type 0
      IsSame r = rows_of t r.0.vendas ≡ rows_of t s.vendas

  -- Under ON CONFLICT, a batch is accepted only if the reception is on, the batch is not too long,
  -- it names the tenant of the credential and its metadata have no other CNPJ; its `processed_count`
  -- is then the number of different uuids in it.
  pub sync_batch-accepted :
      (reply : SyncResponse)
      → service.dialect ≢ default
      → (sync_batch service now tenant payload s).1 ≡ accepted reply
      → (reply.processed_count ≡ distinct_uuids [] payload.records)
        × (service.ingestion_enabled ≡ true)
        × (length payload.records ≤ service.max_batch_size)
        × (payload.empresa_id == tenant ≡ true)
        × (is_own_cnpj tenant payload.source_metadata ≡ true)
  unfolding sync_batch
  sync_batch-accepted reply conflict =
      on_if IsJustified (not service.ingestion_enabled) _ _ (λ off h. cc)
        (λ on.
          on_if IsJustified (ltb service.max_batch_size (length payload.records)) _ _ (λ long h. cc)
            (λ fits.
              on_if IsJustified (not (payload.empresa_id == tenant)) _ _ (λ foreign h. cc)
                (λ own.
                  on_option IsJustified
                    (apply_source_metadata service tenant payload.source_metadata s.tenants) _ _
                    (λ refused h. cc)
                    (λ tenants k h. (
                      store_batch-accepted tenants reply conflict h,
                      ground arith,
                      ground arith,
                      ground arith,
                      apply_source_metadata-own tenants k,
                    )))))
    where
      IsJustified : Base × Reply SyncResponse → Type 0
      IsJustified r =
          r.1 ≡ accepted reply
          → (reply.processed_count ≡ distinct_uuids [] payload.records)
            × (service.ingestion_enabled ≡ true)
            × (length payload.records ≤ service.max_batch_size)
            × (payload.empresa_id == tenant ≡ true)
            × (is_own_cnpj tenant payload.source_metadata ≡ true)
