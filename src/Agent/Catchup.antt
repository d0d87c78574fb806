-- ===== src/Agent/Catchup.antt =====
-- Runs of the agent one after the other, with a server that accepts.
use integrado_web_xd.Prelude.{
  ℕ, zero, suc, ◌+◌, ◌*◌, ◌≤◌, ◌≡◌, refl, sym, ◌∙◌, ap, subst, arith, String, true, Option, List,
  [], ◌∷◌, ◌++◌, map, take, drop, append-nil, append_assoc, is_strict_by, greatest, strict-drop,
  length, length-take-le, ◌⊎◌, inl, inr,
}
use integrado_web_xd.Http.{Reply, accepted, http_error}
use integrado_web_xd.Sales.{SaleRecord}
use integrado_web_xd.Ingestion.{SyncRequest, SyncSourceMetadata, SyncResponse}
use integrado_web_xd.Agent.{
  SourceVenda, Outcome, selected, updated, changed, fetch_changed_vendas, build_payload_record, get,
  put, checkpoint_key, max_update, finish, send_records, run_once, canonicalize_sales_row,
}
use integrado_web_xd.Agent.Order.{read, changed-greatest, max_update-read, get-put}

fetch-changed :
    (e : String) (since limit : ℕ) (vs : List SourceVenda)
    → fetch_changed_vendas e since limit vs ≡ read (take limit (changed e since vs))
unfolding fetch_changed_vendas
fetch-changed e since limit vs = refl

length-map :
    (f : SaleRecord → SaleRecord) (rs : List SaleRecord) {n : ℕ}
    → length rs ≤ n
    → length (map f rs) ≤ n
length-map f rs {n} h = rw (same rs) h
  where
    same : (ts : List SaleRecord) → length (map f ts) ≡ length ts
    same [] = refl
    same (t ∷ ts) = ap suc (same ts)

length-fetch :
    (e : String) (since limit : ℕ) (vs : List SourceVenda)
    → length (fetch_changed_vendas e since limit vs) ≤ limit
unfolding fetch_changed_vendas
length-fetch e since limit vs =
    rw (same (take limit (changed e since vs))) (length-take-le limit (changed e since vs))
  where
    same : (ts : List SourceVenda) → length (read ts) ≡ length ts
    same [] = refl
    same (t ∷ ts) = ap suc (same ts)

module _ {W : Type 0} (send_sync_batch : SyncRequest → W → W × Reply SyncResponse)
    (empresa_id : String) (metadata : Option SyncSourceMetadata) (batch_size : ℕ)
    (vendas : List SourceVenda) where
  abbrev pub since_of : List (String × ℕ) → ℕ
  since_of checkpoints = get (checkpoint_key empresa_id) checkpoints

  -- The server accepts what fits into a batch of the agent.
  abbrev pub IsAccepting : Type 0
  IsAccepting =
      (records : List SaleRecord) (w : W)
      → length records ≤ batch_size
      → (response : SyncResponse) × ((send_sync_batch
            (record { empresa_id = empresa_id; source_metadata = metadata; records = records }) w).1
          ≡ accepted response)

  -- The server that also keeps every record of every batch that it is handed.
  abbrev pub recording :
      SyncRequest → W × List SaleRecord → (W × List SaleRecord) × Reply SyncResponse
  recording request w =
      let answer = send_sync_batch request w.0 in ((answer.0, w.1 ++ request.records), answer.1)

  abbrev pub recorded :
      List (String × ℕ)
      → W × List SaleRecord
      → (List (String × ℕ) × (W × List SaleRecord)) × Outcome
  recorded = run_once recording empresa_id metadata batch_size vendas

  -- What the server has been handed after `n` runs, one after the other.
  abbrev pub sends_from : ℕ → List (String × ℕ) → W × List SaleRecord → List SaleRecord
  sends_from zero checkpoints w = w.1
  sends_from (suc n) checkpoints w =
      let after = recorded checkpoints w in sends_from n after.0.0 after.0.1

  abbrev pub sends : ℕ → List (String × ℕ) → W → List SaleRecord
  sends n checkpoints w = sends_from n checkpoints (w, [])

  checkpoint-finish :
      (records : List SaleRecord) (checkpoints : List (String × ℕ))
      (answer : W × Reply SyncResponse) (response : SyncResponse)
      → answer.1 ≡ accepted response
      → (finish send_sync_batch empresa_id records checkpoints answer).0.0
        ≡ put (checkpoint_key empresa_id) (max_update records) checkpoints
  unfolding finish
  checkpoint-finish records checkpoints (w, accepted r) response h = refl
  checkpoint-finish records checkpoints (w, http_error code detail) response h = ground (arith, h)

  checkpoint-send_records :
      (r : SaleRecord) (rs : List SaleRecord) (checkpoints : List (String × ℕ)) (w : W)
      → IsAccepting
      → length (r ∷ rs) ≤ batch_size
      → (send_records send_sync_batch empresa_id metadata (r ∷ rs) checkpoints w).0.0
        ≡ put (checkpoint_key empresa_id) (max_update (r ∷ rs)) checkpoints
  unfolding send_records
  checkpoint-send_records r rs checkpoints w accepts short =
      checkpoint-finish (r ∷ rs) checkpoints _ _
        (accepts (map build_payload_record (r ∷ rs)) w
          (length-map build_payload_record (r ∷ rs) short)).1

  idle-run_once :
      (checkpoints : List (String × ℕ)) (w : W)
      → fetch_changed_vendas empresa_id (since_of checkpoints) batch_size vendas ≡ []
      → (run_once send_sync_batch empresa_id metadata batch_size vendas checkpoints w).0
        ≡ (checkpoints, w)
  unfolding run_once send_records
  idle-run_once checkpoints w e = rw (e) refl

  checkpoint-run_once :
      (checkpoints : List (String × ℕ)) (w : W) (r : SaleRecord) (rs : List SaleRecord)
      → IsAccepting
      → fetch_changed_vendas empresa_id (since_of checkpoints) batch_size vendas ≡ r ∷ rs
      → (run_once send_sync_batch empresa_id metadata batch_size vendas checkpoints w).0.0
        ≡ put (checkpoint_key empresa_id) (max_update (r ∷ rs)) checkpoints
  unfolding run_once
  checkpoint-run_once checkpoints w r rs accepts e =
      subst
        (λ records.
          (send_records send_sync_batch empresa_id metadata records checkpoints w).0.0
          ≡ put (checkpoint_key empresa_id) (max_update (r ∷ rs)) checkpoints)
        (sym e)
        (checkpoint-send_records r rs checkpoints w accepts (
          subst (λ records. length records ≤ batch_size) e
            (length-fetch empresa_id (since_of checkpoints) batch_size vendas)))

take-nil : {A : Type 0} (n : ℕ) → take {A = A} n [] ≡ []
take-nil zero = refl
take-nil (suc n) = refl

List-cases : {A : Type 0} (xs : List A) → (xs ≡ []) ⊎ ((x : A) × (rest : List A) × (xs ≡ x ∷ rest))
List-cases [] = inl refl
List-cases (x ∷ rest) = inr (x, rest, refl)

take-add : {A : Type 0} (a b : ℕ) (xs : List A) → take (a + b) xs ≡ take a xs ++ take b (drop a xs)
take-add zero b xs = let e : zero + b ≡ b = omega arith in rw (e) refl
take-add (suc a) b [] = let e : suc a + b ≡ suc (a + b) = omega arith in rw (e) (sym (take-nil b))
take-add (suc a) b (x ∷ xs) =
    let e : suc a + b ≡ suc (a + b) = omega arith in rw (e) (ap (λ t. x ∷ t) (take-add a b xs))

-- The rows as the agent sends them.
abbrev sent : List SourceVenda → List SaleRecord
sent vs = map build_payload_record (read vs)

sent-append : (xs ys : List SourceVenda) → sent (xs ++ ys) ≡ sent xs ++ sent ys
sent-append [] ys = refl
sent-append (x ∷ xs) ys =
    ap (λ t. build_payload_record (canonicalize_sales_row (selected x)) ∷ t) (sent-append xs ys)

module _ {W : Type 0} (send_sync_batch : SyncRequest → W → W × Reply SyncResponse)
    (empresa_id : String) (metadata : Option SyncSourceMetadata) (size : ℕ)
    (vendas : List SourceVenda)
    (accepts : IsAccepting send_sync_batch empresa_id metadata (suc size) vendas) where
  rows : List (String × ℕ) → List SourceVenda
  rows checkpoints = changed empresa_id (get (checkpoint_key empresa_id) checkpoints) vendas

  -- The rows that are left after a run.
  next :
      (checkpoints : List (String × ℕ)) (w : W)
      → is_strict_by updated (rows checkpoints) ≡ true
      → rows (run_once send_sync_batch empresa_id metadata (suc size) vendas checkpoints w).0.0
        ≡ drop (suc size) (rows checkpoints)
  unfolding rows
  next checkpoints w strict = elim (List-cases (rows checkpoints)) [
    | inl none_left ↦
        let idle : fetch_changed_vendas empresa_id (get (checkpoint_key empresa_id) checkpoints)
              (suc size) vendas
            ≡ [] =
          fetch-changed empresa_id (get (checkpoint_key empresa_id) checkpoints) (suc size) vendas
          ∙ ap (λ vs. read (take (suc size) vs)) none_left in
        ap rows (
          ap (λ r. r.0)
            (idle-run_once send_sync_batch empresa_id metadata (suc size) vendas checkpoints w
              idle))
        ∙ none_left
        ∙ sym (ap (drop (suc size)) none_left)
    | inr (x, xs, some_left) ↦
        let since = get (checkpoint_key empresa_id) checkpoints in
        let taken : fetch_changed_vendas empresa_id since (suc size) vendas
            ≡ read (x ∷ take size xs) =
          fetch-changed empresa_id since (suc size) vendas
          ∙ ap (λ vs. read (take (suc size) vs)) some_left in
        let stored =
          checkpoint-run_once send_sync_batch empresa_id metadata (suc size) vendas checkpoints w _
            _ accepts taken in
        let time : get (checkpoint_key empresa_id)
              (run_once send_sync_batch empresa_id metadata (suc size) vendas checkpoints w).0.0
            ≡ greatest updated (take (suc size) (rows checkpoints)) =
          ap (get (checkpoint_key empresa_id)) stored
          ∙ get-put (checkpoint_key empresa_id) (max_update (read (x ∷ take size xs))) checkpoints
          ∙ max_update-read (x ∷ take size xs)
          ∙ sym (ap (λ vs. greatest updated (take (suc size) vs)) some_left) in
        ap (λ t. changed empresa_id t vendas) time
        ∙ changed-greatest empresa_id since size vendas x xs some_left strict
  ]

module _ {W : Type 0} (send_sync_batch : SyncRequest → W → W × Reply SyncResponse)
    (empresa_id : String) (metadata : Option SyncSourceMetadata) (size : ℕ)
    (vendas : List SourceVenda)
    (accepts : IsAccepting send_sync_batch empresa_id metadata (suc size) vendas) where
  log-finish :
      (records : List SaleRecord) (checkpoints : List (String × ℕ))
      (answer : (W × List SaleRecord) × Reply SyncResponse)
      → (finish
          (recording send_sync_batch empresa_id metadata (suc size) vendas)
          empresa_id
          records
          checkpoints
          answer).0.1
        ≡ answer.0
  unfolding finish
  log-finish records checkpoints (w, accepted r) = refl
  log-finish records checkpoints (w, http_error code detail) = refl

  log-send_records :
      (records : List SaleRecord) (checkpoints : List (String × ℕ)) (w : W × List SaleRecord)
      → (send_records
          (recording send_sync_batch empresa_id metadata (suc size) vendas)
          empresa_id
          metadata
          records
          checkpoints
          w).0.1.1
        ≡ w.1 ++ map build_payload_record records
  unfolding send_records
  log-send_records [] checkpoints w = sym (append-nil w.1)
  log-send_records (r ∷ rs) checkpoints w =
      ap (λ (k : W × List SaleRecord). k.1) (log-finish (r ∷ rs) checkpoints _)

  sends-rows :
      (n : ℕ) (checkpoints : List (String × ℕ)) (w : W × List SaleRecord)
      → is_strict_by updated
          (changed empresa_id (get (checkpoint_key empresa_id) checkpoints) vendas)
        ≡ true
      → sends_from send_sync_batch empresa_id metadata (suc size) vendas n checkpoints w
        ≡ w.1
          ++ sent (
              take
                (n * suc size)
                (changed empresa_id (get (checkpoint_key empresa_id) checkpoints) vendas))
  unfolding rows
  sends-rows zero checkpoints w strict =
      let e : zero * suc size ≡ zero = omega arith in rw (e) (sym (append-nil w.1))
  sends-rows (suc n) checkpoints w strict =
      let since = get (checkpoint_key empresa_id) checkpoints in
      let left = changed empresa_id since vendas in
      let after =
        (recorded send_sync_batch empresa_id metadata (suc size) vendas checkpoints w).0 in
      let log : after.1.1 ≡ w.1 ++ sent (take (suc size) left) =
        unfold run_once in
        log-send_records (fetch_changed_vendas empresa_id since (suc size) vendas) checkpoints w
        ∙ ap (λ rs. w.1 ++ map build_payload_record rs)
            (fetch-changed empresa_id since (suc size) vendas) in
      let following =
        next (recording send_sync_batch empresa_id metadata (suc size) vendas) empresa_id metadata
          size vendas (λ records w short. accepts records w.0 short) checkpoints w strict in
      let e : suc n * suc size ≡ suc size + n * suc size = ground arith in
      sends-rows n after.0 after.1
        (ap (is_strict_by updated) following ∙ strict-drop updated (suc size) left strict)
      ∙ ap (λ vs. after.1.1 ++ sent (take (n * suc size) vs)) following
      ∙ ap (λ l. l ++ sent (take (n * suc size) (drop (suc size) left))) log
      ∙ append_assoc w.1 (sent (take (suc size) left))
          (sent (take (n * suc size) (drop (suc size) left)))
      ∙ ap (λ l. w.1 ++ l)
          (sym (sent-append (take (suc size) left) (take (n * suc size) (drop (suc size) left)))
            ∙ ap sent (sym (take-add (suc size) (n * suc size) left))
            ∙ ap (λ k. sent (take k left)) (sym e))

-- Runs catch up: with a batch size of one or more, a server that accepts batches of that size, and
-- changed rows of the tenant whose times are all different, the server is handed in `n` runs the first
-- `n` batches of the rows changed after the checkpoint, as they are sent, in the order of their times
-- and each row once, and so all of them when there are no more.
pub sends-changed :
    {W : Type 0} (send_sync_batch : SyncRequest → W → W × Reply SyncResponse) (empresa_id : String)
    (metadata : Option SyncSourceMetadata) (batch_size : ℕ) (vendas : List SourceVenda) (n : ℕ)
    (checkpoints : List (String × ℕ)) (w : W)
    → 1 ≤ batch_size
    → IsAccepting send_sync_batch empresa_id metadata batch_size vendas
    → is_strict_by updated (changed empresa_id (get (checkpoint_key empresa_id) checkpoints) vendas)
      ≡ true
    → sends send_sync_batch empresa_id metadata batch_size vendas n checkpoints w
      ≡ map build_payload_record (
          read (
            take
              (n * batch_size)
              (changed empresa_id (get (checkpoint_key empresa_id) checkpoints) vendas)))
sends-changed send_sync_batch empresa_id metadata zero vendas n checkpoints w big accepts strict =
    absurd (omega (arith, big))
sends-changed send_sync_batch empresa_id metadata (suc size) vendas n checkpoints w big accepts
      strict =
    sends-rows send_sync_batch empresa_id metadata size vendas accepts n checkpoints (w, []) strict
