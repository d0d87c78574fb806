-- ===== src/Clients/Callers.antt =====
-- Who gets commands: the caller that holds the token of the client's row.
use integrado_web_xd.Prelude.{
  subst, ℕ, ◌≡◌, refl, ◌∙◌, ap, arith, String, Bool, true, not, ◌&&◌, ◌||◌, Option, some, List, [],
  ◌∷◌, ◌==◌, eq_iff, keep, map, all, all-keep_self, all_weaken, is_sorted_by, sorted-sort_by,
  all-sort_by, on_if, on_option, leb,
}
use integrado_web_xd.Http.{Reply, accepted, http_error}
use integrado_web_xd.Access.{
  hash_api_key, verify_api_key, validate_empresa_id, validate_api_key_format,
}
use integrado_web_xd.Clients.{
  LocalClient, LocalClientCommand, Base, as_delivered, list_pending_for_client, get_by_id,
  is_pending_for,
}
use integrado_web_xd.Clients.Service.{
  is_expired, authenticate_client, get_authenticated_local_client, pull_commands,
}
use integrado_web_xd.Clients.Requests.{Headers, pull, delivered_to, caller, serve_pull, serve}

abbrev pub is_for : String → LocalClientCommand → Bool
is_for client_id c = c.client_id == client_id

all-as_delivered :
    (now : ℕ) (i : String) (cs : List LocalClientCommand)
    → all (is_for i) (map (as_delivered now) cs) ≡ all (is_for i) cs
all-as_delivered now i [] = refl
all-as_delivered now i (c ∷ cs) = ap (λ b. is_for i c && b) (all-as_delivered now i cs)

later-as_delivered :
    (now t : ℕ) (cs : List LocalClientCommand)
    → all (λ c. leb t c.created_at) (map (as_delivered now) cs) ≡ all (λ c. leb t c.created_at) cs
later-as_delivered now t [] = refl
later-as_delivered now t (c ∷ cs) = ap (λ b. leb t c.created_at && b) (later-as_delivered now t cs)

sorted-as_delivered :
    (now : ℕ) (cs : List LocalClientCommand)
    → is_sorted_by (λ c. c.created_at) (map (as_delivered now) cs)
      ≡ is_sorted_by (λ c. c.created_at) cs
sorted-as_delivered now [] = refl
sorted-as_delivered now (c ∷ cs) =
    ground (arith, later-as_delivered now c.created_at cs, sorted-as_delivered now cs)

for-list_pending :
    (i : String) (cs : List LocalClientCommand)
    → all (is_for i) (list_pending_for_client i cs) ≡ true
unfolding list_pending_for_client
for-list_pending i cs =
    all-sort_by (λ c. c.created_at) (is_for i) (keep (is_pending_for i) cs)
    ∙ all_weaken (is_pending_for i) (is_for i) (keep (is_pending_for i) cs)
        (λ c h. ground (arith, h)) (all-keep_self (is_pending_for i) cs)

sorted-list_pending :
    (i : String) (cs : List LocalClientCommand)
    → is_sorted_by (λ c. c.created_at) (list_pending_for_client i cs) ≡ true
unfolding list_pending_for_client
sorted-list_pending i cs = sorted-sort_by (λ c. c.created_at) (keep (is_pending_for i) cs)

module _ (sha256 : List ℕ → String) (last_sync_at : String → Option ℕ) where
  -- What an accepted caller has shown.
  abbrev pub IsHolder : String → String → String → List LocalClient → LocalClient → Type 0
  IsHolder client_id token empresa_id clients client =
      (get_by_id client_id clients ≡ some client)
      × (client.empresa_id ≡ empresa_id)
      × (hash_api_key sha256 token ≡ client.token_hash)

  authenticate_client-IsHolder :
      (now : ℕ) (client_id empresa_id token : String) (clients : List LocalClient)
      (client : LocalClient)
      → authenticate_client sha256 last_sync_at now client_id empresa_id token clients
        ≡ accepted client
      → IsHolder client_id token empresa_id clients client
  unfolding authenticate_client
  authenticate_client-IsHolder now client_id empresa_id token clients client =
      on_option P (get_by_id client_id clients) _ _ (λ n e. ground (arith, e))
        (λ c found.
          on_if P (not (c.empresa_id == empresa_id)) _ _ (λ t e. ground (arith, e))
            (λ own.
              on_if P (not (verify_api_key sha256 token c.token_hash)) _ _
                (λ t e. ground (arith, e))
                (λ fits.
                  on_if P (is_expired sha256 last_sync_at now c.token_expires_at) _ _
                    (λ t e. ground (arith, e))
                    (λ fresh e.
                      let same : c ≡ client = ground (arith, e) in
                      subst (IsHolder client_id token empresa_id clients) same (
                        found,
                        ground (arith, eq_iff c.empresa_id empresa_id),
                        ground (arith, eq_iff (hash_api_key sha256 token) c.token_hash),
                      )))))
    where
      P : Reply LocalClient → Type 0
      P r = r ≡ accepted client → IsHolder client_id token empresa_id clients client

  caller-IsHolder :
      (now : ℕ) (client_id token empresa_id : String) (clients : List LocalClient)
      (client : LocalClient)
      → get_authenticated_local_client sha256 last_sync_at now client_id token empresa_id clients
        ≡ accepted client
      → IsHolder client_id token empresa_id clients client
  unfolding get_authenticated_local_client
  caller-IsHolder now client_id token empresa_id clients client =
      on_if P (client_id == "" || token == "" || empresa_id == "") _ _ (λ t e. ground (arith, e))
        (λ f.
          on_if P (not (validate_empresa_id empresa_id) || not (validate_api_key_format token)) _ _
            (λ t e. ground (arith, e))
            (λ g e. authenticate_client-IsHolder now client_id empresa_id token clients client e))
    where
      P : Reply LocalClient → Type 0
      P r = r ≡ accepted client → IsHolder client_id token empresa_id clients client

  pull_commands-for :
      (now : ℕ) (client : LocalClient) (s : Base)
      → (all (is_for client.id) (pull_commands sha256 last_sync_at now client s).1 ≡ true)
        × (is_sorted_by (λ c. c.created_at) (pull_commands sha256 last_sync_at now client s).1
            ≡ true)
  unfolding pull_commands
  pull_commands-for now client s = (
    all-as_delivered now client.id (list_pending_for_client client.id s.commands)
        ∙ for-list_pending client.id s.commands,
    sorted-as_delivered now (list_pending_for_client client.id s.commands)
        ∙ sorted-list_pending client.id s.commands,
  )

module _ (sha256 : List ℕ → String) (last_sync_at : String → Option ℕ) (days : ℕ) where
  -- Commands go only to a caller whose headers name a client, its tenant, and a token with the
  -- digest of the client's row; they are commands for that client, the oldest first.
  pub serve-pull :
      (now : ℕ) (h : Headers) (s after : Base) (client : LocalClient)
      (commands : List LocalClientCommand)
      → serve sha256 last_sync_at days now (pull h) s ≡ (after, delivered_to client commands)
      → (get_by_id h.client_id s.clients ≡ some client)
        × (client.empresa_id ≡ h.empresa_id)
        × (hash_api_key sha256 h.client_token ≡ client.token_hash)
        × (all (is_for client.id) commands ≡ true)
        × (is_sorted_by (λ c. c.created_at) commands ≡ true)
  unfolding serve
  serve-pull now h s after client commands e =
      pull_lem (caller sha256 last_sync_at days now h s) refl e
    where
      Shown : LocalClient → List LocalClientCommand → Type 0
      Shown c cs =
          (get_by_id h.client_id s.clients ≡ some c)
          × (c.empresa_id ≡ h.empresa_id)
          × (hash_api_key sha256 h.client_token ≡ c.token_hash)
          × (all (is_for c.id) cs ≡ true)
          × (is_sorted_by (λ d. d.created_at) cs ≡ true)

      pull_lem :
          (r : Reply LocalClient)
          → caller sha256 last_sync_at days now h s ≡ r
          → serve_pull sha256 last_sync_at days now s r ≡ (after, delivered_to client commands)
          → Shown client commands
      pull_lem (http_error code detail) c k = ground (arith, ap (λ r. r.1) k)
      pull_lem (accepted d) c k =
          let holder =
            caller-IsHolder sha256 last_sync_at now h.client_id h.client_token h.empresa_id
              s.clients d c in
          let list = pull_commands-for sha256 last_sync_at now d s in
          let answer : delivered_to d (pull_commands sha256 last_sync_at now d s).1
              ≡ delivered_to client commands =
            ap (λ r. r.1) k in
          let same : d ≡ client = ground (arith, answer) in
          let sent : (pull_commands sha256 last_sync_at now d s).1 ≡ commands =
            ground (arith, answer) in
          subst (λ x. Shown x commands) same
            (subst (Shown d) sent (holder.0, holder.1, holder.2, list.0, list.1))
