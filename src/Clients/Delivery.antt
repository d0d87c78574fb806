-- ===== src/Clients/Delivery.antt =====
-- Where every command for a local client is: pending, delivered, or reported before it was delivered.
use integrado_web_xd.Prelude.{
  subst, ℕ, ◌+◌, ◌≡◌, refl, sym, ◌∙◌, ap, arith, String, Bool, not, ◌&&◌, Option, some, List, [],
  ◌∷◌, if◌then◌else◌, ◌==◌, eq_iff, keep, map, count, count-append, sort_by, count-sort_by, on_if,
  on_option,
}
use integrado_web_xd.Http.{Reply, accepted, http_error}
use integrado_web_xd.Clients.{
  LocalClient, LocalClientCommand, Base, completed, failed, is_pending, is_pending_for,
  as_delivered, mark_delivered, list_pending_for_client, mark_result, get_command, create_command,
  get_by_id,
}
use integrado_web_xd.Clients.Service.{
  register_client, heartbeat, pull_commands, record_command_result, enqueue, enqueue_config_update,
  enqueue_force_sync,
}
use integrado_web_xd.Clients.Requests.{
  Request, register, beat, pull, report, update_config, force_sync, Answer, delivered_to, queued,
  reported, answer_of, caller, serve_pull, serve_beat, serve_report, serve, serve_all,
}

abbrev pub is_named : String → LocalClientCommand → Bool
is_named k c = c.id == k

-- The pending commands of the id.
abbrev pub is_waiting : String → LocalClientCommand → Bool
is_waiting k c = is_named k c && is_pending c

abbrev pub one_if : Bool → ℕ
one_if b = if b then 1 else 0

-- How often the answer delivers the command, queues it, and takes it out of the queue by an early report.
abbrev pub times_delivered : String → Answer → ℕ
times_delivered k (delivered_to client commands) = count (is_named k) commands
times_delivered k _ = 0

abbrev pub times_queued : String → Answer → ℕ
times_queued k (queued c) = one_if (is_named k c)
times_queued k _ = 0

abbrev pub times_early : String → Answer → ℕ
times_early k (reported c) = one_if (is_waiting k c)
times_early k _ = 0

abbrev pub total : (Answer → ℕ) → List Answer → ℕ
total f [] = 0
total f (a ∷ rest) = f a + total f rest

count-mark_delivered :
    (now : ℕ) (k client_id : String) (cs : List LocalClientCommand)
    → count (is_waiting k) (mark_delivered now client_id cs)
        + count (is_named k) (keep (is_pending_for client_id) cs)
      ≡ count (is_waiting k) cs
unfolding mark_delivered
count-mark_delivered now k client_id [] = refl
count-mark_delivered now k client_id (c ∷ cs) =
    ground (arith, count-mark_delivered now k client_id cs)

count-as_delivered :
    (now : ℕ) (k : String) (cs : List LocalClientCommand)
    → count (is_named k) (map (as_delivered now) cs) ≡ count (is_named k) cs
count-as_delivered now k [] = refl
count-as_delivered now k (c ∷ cs) = ground (arith, count-as_delivered now k cs)

count-mark_result :
    (now : ℕ) (k id : String) (success : Bool) (result : String) (cs : List LocalClientCommand)
    (c : LocalClientCommand)
    → get_command id cs ≡ some c
    → count (is_waiting k) (mark_result now id (if success then completed else failed) result cs)
        + one_if (is_waiting k c)
      ≡ count (is_waiting k) cs
unfolding mark_result get_command
count-mark_result now k id success result [] c e = ground arith
count-mark_result now k id success result (d ∷ cs) c e =
    ground (arith, count-mark_result now k id success result cs c)

count-pull :
    (now : ℕ) (k client_id : String) (cs : List LocalClientCommand)
    → count (is_named k) (map (as_delivered now) (list_pending_for_client client_id cs))
      ≡ count (is_named k) (keep (is_pending_for client_id) cs)
unfolding list_pending_for_client
count-pull now k client_id cs =
    count-as_delivered now k (sort_by (λ c. c.created_at) (keep (is_pending_for client_id) cs))
    ∙ count-sort_by (λ c. c.created_at) (is_named k) (keep (is_pending_for client_id) cs)

-- What a request does with the commands of the id.
abbrev pub Accounts : String → Base → Base × Answer → Type 0
Accounts k s r =
    times_delivered k r.1 + count (is_waiting k) r.0.commands + times_early k r.1
    ≡ count (is_waiting k) s.commands + times_queued k r.1

id-get_command :
    (id : String) (cs : List LocalClientCommand) (c : LocalClientCommand)
    → get_command id cs ≡ some c
    → c.id ≡ id
unfolding get_command
id-get_command id [] c e = ground arith
id-get_command id (d ∷ cs) c e = ground (arith, id-get_command id cs c, eq_iff d.id id)

module _ (sha256 : List ℕ → String) (last_sync_at : String → Option ℕ) where
  pull-Accounts :
      (now : ℕ) (k : String) (s : Base) (client : LocalClient)
      → count (is_named k) (pull_commands sha256 last_sync_at now client s).1
          + count (is_waiting k) (pull_commands sha256 last_sync_at now client s).0.commands
        ≡ count (is_waiting k) s.commands
  unfolding pull_commands
  pull-Accounts now k s client = ground (
    arith,
    count-pull now k client.id s.commands,
    count-mark_delivered now k client.id s.commands,
  )

  report-Accounts :
      (now : ℕ) (k : String) (client : LocalClient) (id : String) (success : Bool)
      (result config status : String) (s : Base)
      → let r =
          record_command_result sha256 last_sync_at now client id
            (if success then completed else failed)
            result
            config
            status
            s in
        Accounts k s (r.0, answer_of reported r.1)
  unfolding record_command_result
  report-Accounts now k client id success result config status s =
      on_option P (get_command id s.commands) _ _ (λ n. omega arith)
        (λ c found.
          on_if P (not (c.client_id == client.id)) _ _ (λ t. omega arith)
            (λ f.
              let marked =
                subst
                  (λ i.
                    count (is_waiting k) (
                        mark_result now i (if success then completed else failed) result s.commands)
                      + one_if (is_waiting k c)
                    ≡ count (is_waiting k) s.commands)
                  (sym (id-get_command id s.commands c found))
                  (count-mark_result now k id success result s.commands c found) in
              omega (arith, marked)))
    where
      P : Base × Reply LocalClientCommand → Type 0
      P r = Accounts k s (r.0, answer_of reported r.1)

queued_once :
    (now : ℕ) (k id : String) (c : LocalClient) (command_type payload by : String)
    → count (is_waiting k) (create_command now id c command_type payload by ∷ [])
      ≡ one_if (is_named k (create_command now id c command_type payload by))
unfolding create_command
queued_once now k id c command_type payload by = ground arith

enqueue-Accounts :
    (now : ℕ) (k command_type id client_id payload by : String) (s : Base)
    → let r = enqueue command_type now id client_id payload by s in
      Accounts k s (r.0, answer_of queued r.1)
unfolding enqueue
enqueue-Accounts now k command_type id client_id payload by s =
    on_option P (get_by_id client_id s.clients) _ _ (λ n. omega arith)
      (λ c found.
        let new = create_command now id c command_type payload by in
        ground (
          arith,
          count-append (is_waiting k) s.commands (new ∷ []),
          queued_once now k id c command_type payload by,
        ))
  where
    P : Base × Reply LocalClientCommand → Type 0
    P r = Accounts k s (r.0, answer_of queued r.1)

commands-register :
    (sha256 : List ℕ → String) (last_sync_at : String → Option ℕ) (days now : ℕ)
    (empresa_id client_id hostname : String) (ip endpoint : Option String) (token : String)
    (expires : Option ℕ) (config status : String) (s : Base)
    → (register_client sha256 last_sync_at days now empresa_id client_id hostname ip endpoint token
        expires config status s).commands
      ≡ s.commands
unfolding register_client
commands-register sha256 last_sync_at days now empresa_id client_id hostname ip endpoint token
      expires config status s =
    refl

commands-heartbeat :
    (sha256 : List ℕ → String) (last_sync_at : String → Option ℕ) (now : ℕ) (c : LocalClient)
    (config status : String) (s : Base)
    → (heartbeat sha256 last_sync_at now c config status s).commands ≡ s.commands
unfolding heartbeat
commands-heartbeat sha256 last_sync_at now c config status s = refl

module _ (sha256 : List ℕ → String) (last_sync_at : String → Option ℕ) (expiration_days : ℕ) where
  -- One request: what it delivers, what is left pending, and what it reports early is what was
  -- pending with what it queued.
  serve-Accounts :
      (k : String) (now : ℕ) (r : Request) (s : Base)
      → Accounts k s (serve sha256 last_sync_at expiration_days now r s)
  unfolding serve enqueue_config_update enqueue_force_sync
  serve-Accounts k now
        (register empresa_id client_id hostname ip endpoint token expires config status) s =
      omega (
        arith,
        ap (count (is_waiting k)) (
            commands-register sha256 last_sync_at expiration_days now empresa_id client_id hostname
              ip endpoint token expires config status s),
      )
  serve-Accounts k now (beat headers config status) s =
      beat_lem (caller sha256 last_sync_at expiration_days now headers s)
    where
      beat_lem :
          (c : Reply LocalClient)
          → Accounts k s (serve_beat sha256 last_sync_at expiration_days now config status s c)
      beat_lem (accepted c) = omega (
        arith,
        ap (count (is_waiting k)) (commands-heartbeat sha256 last_sync_at now c config status s),
      )
      beat_lem (http_error code detail) = omega arith
  serve-Accounts k now (pull headers) s =
      pull_lem (caller sha256 last_sync_at expiration_days now headers s)
    where
      pull_lem :
          (c : Reply LocalClient)
          → Accounts k s (serve_pull sha256 last_sync_at expiration_days now s c)
      pull_lem (accepted c) = omega (arith, pull-Accounts sha256 last_sync_at now k s c)
      pull_lem (http_error code detail) = omega arith
  serve-Accounts k now (report headers id success result config status) s =
      report_lem (caller sha256 last_sync_at expiration_days now headers s)
    where
      report_lem :
          (c : Reply LocalClient)
          → Accounts k s (
              serve_report sha256 last_sync_at expiration_days now id success result config status s
                c)
      report_lem (accepted c) =
          report-Accounts sha256 last_sync_at now k c id success result config status s
      report_lem (http_error code detail) = omega arith
  serve-Accounts k now (update_config id client_id payload by) s =
      enqueue-Accounts now k "update_config" id client_id payload by s
  serve-Accounts k now (force_sync id client_id by) s =
      enqueue-Accounts now k "force_sync" id client_id "{}" by s

  -- No command is lost and none is delivered twice: for every id, over any requests, the deliveries and
  -- the pending commands at the end, with the reports that came before a delivery, are as many as the
  -- pending commands at the start and those queued.
  pub serve_all-Accounts :
      (k : String) (rs : List (ℕ × Request)) (s : Base)
      → let r = serve_all sha256 last_sync_at expiration_days rs s in
        total (times_delivered k) r.1
          + count (is_waiting k) r.0.commands
          + total (times_early k) r.1
        ≡ count (is_waiting k) s.commands + total (times_queued k) r.1
  unfolding serve_all
  serve_all-Accounts k [] s = omega arith
  serve_all-Accounts k (r ∷ rs) s = omega (
    arith,
    serve-Accounts k r.0 r.1 s,
    serve_all-Accounts k rs (serve sha256 last_sync_at expiration_days r.0 r.1 s).0,
  )
