-- ===== src/Clients/Tests.antt =====
-- A client with a command, another tenant that registers the client's id, and the theorems applied.
use integrado_web_xd.Prelude.{
  map, ℕ, ◌+◌, ◌≡◌, refl, String, true, Option, none, some, List, [], ◌∷◌, all, count, is_sorted_by,
  nat_eq, if◌then◌else◌,
}
use integrado_web_xd.Access.{hash_api_key}
use integrado_web_xd.Clients.{
  LocalClient, LocalClientCommand, Base, CommandStatus, pending, as_delivered, get_by_id,
}
use integrado_web_xd.Clients.Service.{get_authenticated_local_client}
use integrado_web_xd.Http.{http_error}
use integrado_web_xd.Clients.Requests.{
  Headers, Request, Answer, register, pull, report, force_sync, delivered_to, serve, serve_all,
}
use integrado_web_xd.Clients.Delivery.{
  is_waiting, times_delivered, times_queued, times_early, total, serve_all-Accounts,
}
use integrado_web_xd.Clients.Callers.{is_for, serve-pull}

-- The digest tells the texts that start with `a` from the others.
abbrev digest : List ℕ → String
digest [] = "empty"
digest (c ∷ cs) = if nat_eq c b'a' then "a" else "other"

abbrev no_time : String → Option ℕ
no_time _ = none

abbrev key_a : String
key_a = "aaaaaaaaaabbbbbbbbbbccccccccccdddddddddd"

abbrev key_b : String
key_b = "bbbbbbbbbbbbbbbbbbbbbbbbbbbbbbbbbbbbbbbb"

abbrev headers_a : Headers
headers_a = record { client_id = "c1"; client_token = key_a; empresa_id = "loja" }

abbrev headers_b : Headers
headers_b = record { client_id = "c1"; client_token = key_b; empresa_id = "outra" }

abbrev empty : Base
empty = record { clients = []; commands = []; logs = [] }

abbrev day : List (ℕ × Request)
day =
    (10, register "loja" "c1" "pc" none none key_a none "{}" "{}")
    ∷ (20, force_sync "k1" "c1" "admin")
    ∷ (30, pull headers_a)
    ∷ (40, report headers_a "k1" true "{}" "{}" "{}")
    ∷ (50, pull headers_a)
    ∷ []

delivered_once :
    let r = serve_all digest no_time 30 day empty in
    (total (times_delivered "k1") r.1 ≡ 1)
    × (total (times_queued "k1") r.1 ≡ 1)
    × (total (times_early "k1") r.1 ≡ 0)
    × (count (is_waiting "k1") r.0.commands ≡ 0)
unfolding serve_all integrado_web_xd.Clients.Service.enqueue_force_sync
    integrado_web_xd.Clients.Service.register_client
    integrado_web_xd.Clients.Service.get_authenticated_local_client
    integrado_web_xd.Clients.Service.pull_commands
    integrado_web_xd.Clients.Service.record_command_result
delivered_once = (refl, refl, refl, refl)

serve_all-Accounts_example :
    let r = serve_all digest no_time 30 day empty in
    total (times_delivered "k1") r.1
      + count (is_waiting "k1") r.0.commands
      + total (times_early "k1") r.1
    ≡ count (is_waiting "k1") empty.commands + total (times_queued "k1") r.1
serve_all-Accounts_example = serve_all-Accounts digest no_time 30 "k1" day empty

abbrev client : LocalClient
client = record {
  id = "c1";
  empresa_id = "loja";
  hostname = "pc";
  ip_address = none;
  endpoint_url = none;
  token_hash = "a";
  token_last_rotated_at = none;
  token_expires_at = some 100;
  status = "online";
  last_seen_at = none;
  last_sync_at = none;
  last_command_poll_at = none;
  last_config_json = "{}";
  last_status_json = "{}";
  metadata_json = "{}";
}

abbrev command : LocalClientCommand
command = record {
  id = "k1";
  client_id = "c1";
  empresa_id = "loja";
  command_type = "force_sync";
  payload_json = "{}";
  status = pending;
  requested_by = "admin";
  origin = "web";
  result_json = "{}";
  created_at = 20;
  delivered_at = none;
  executed_at = none;
}

abbrev queued_day : Base
queued_day = record { clients = client ∷ []; commands = command ∷ []; logs = [] }

pulled :
    (serve digest no_time 30 30 (pull headers_a) queued_day).1
    ≡ delivered_to client (as_delivered 30 command ∷ [])
unfolding serve get_authenticated_local_client integrado_web_xd.Clients.Service.pull_commands
pulled = refl

serve-pull_example :
    (get_by_id "c1" queued_day.clients ≡ some client)
    × (client.empresa_id ≡ "loja")
    × (hash_api_key digest key_a ≡ client.token_hash)
    × (all (is_for "c1") (as_delivered 30 command ∷ []) ≡ true)
    × (is_sorted_by (λ c. c.created_at) (as_delivered 30 command ∷ []) ≡ true)
unfolding serve get_authenticated_local_client integrado_web_xd.Clients.Service.pull_commands
serve-pull_example =
    serve-pull digest no_time 30 30 headers_a queued_day
      (serve digest no_time 30 30 (pull headers_a) queued_day).0 client
      (as_delivered 30 command ∷ []) refl

abbrev commands_of : Answer → List (String × String)
commands_of (delivered_to c cs) = map (λ d. (d.id, d.empresa_id)) cs
commands_of _ = []

-- Another tenant registers the client's id with its own token, and gets the command of the first.
taken_over :
    let taken =
      (serve digest no_time 30 28
        (register "outra" "c1" "pc" none none key_b none "{}" "{}")
        queued_day).0 in
    (get_authenticated_local_client digest no_time 29 "c1" key_a "loja" taken.clients
      ≡ http_error 401 "Local client credentials are invalid.")
    × (commands_of (serve digest no_time 30 30 (pull headers_b) taken).1 ≡ ("k1", "loja") ∷ [])
unfolding serve integrado_web_xd.Clients.Service.register_client get_authenticated_local_client
    integrado_web_xd.Clients.Service.pull_commands
taken_over = (refl, refl)
