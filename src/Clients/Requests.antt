-- ===== src/Clients/Requests.antt =====
-- The requests of backend/api/routes/remote_clients.py that change the tables, each one transaction.
-- The tenant that registers is the one `get_current_tenant` accepted; the schema of a result allows
-- `completed` and `failed` only.
use integrado_web_xd.Prelude.{ℕ, String, Bool, Option, List, [], ◌∷◌, if◌then◌else◌}
use integrado_web_xd.Http.{Reply, accepted, http_error}
use integrado_web_xd.Clients.{LocalClient, LocalClientCommand, Base, completed, failed}
use integrado_web_xd.Clients.Service.{
  register_client, get_authenticated_local_client, heartbeat, pull_commands, record_command_result,
  enqueue_config_update, enqueue_force_sync,
}

-- The headers of a local client.
pub record Headers : Type 0 where
  pub client_id : String
  pub client_token : String
  pub empresa_id : String

pub data Request : Type 0 where
  register :
      (empresa_id client_id hostname : String) (ip_address endpoint_url : Option String)
      (token : String) (token_expires_at : Option ℕ) (config_snapshot status_snapshot : String)
      → Request
  beat : (headers : Headers) (config_snapshot status_snapshot : String) → Request
  pull : (headers : Headers) → Request
  report :
      (headers : Headers) (command_id : String) (success : Bool)
      (result config_snapshot status_snapshot : String)
      → Request
  update_config : (id client_id payload requested_by : String) → Request
  force_sync : (id client_id requested_by : String) → Request

pub data Answer : Type 0 where
  delivered_to : (client : LocalClient) (commands : List LocalClientCommand) → Answer
  queued : (command : LocalClientCommand) → Answer
  reported : (command : LocalClientCommand) → Answer
  done : Answer
  refused : (status_code : ℕ) → Answer

abbrev pub answer_of : (LocalClientCommand → Answer) → Reply LocalClientCommand → Answer
answer_of f (accepted c) = f c
answer_of f (http_error code detail) = refused code

module _ (sha256 : List ℕ → String) (last_sync_at : String → Option ℕ) (expiration_days : ℕ) where
  abbrev pub caller : ℕ → Headers → Base → Reply LocalClient
  caller now h s =
      get_authenticated_local_client sha256 last_sync_at now h.client_id h.client_token h.empresa_id
        s.clients

  unfoldable pub serve_pull : ℕ → Base → Reply LocalClient → Base × Answer
  serve_pull now s (http_error code detail) = (s, refused code)
  serve_pull now s (accepted client) =
      let r = pull_commands sha256 last_sync_at now client s in (r.0, delivered_to client r.1)

  unfoldable pub serve_beat : ℕ → String → String → Base → Reply LocalClient → Base × Answer
  serve_beat now config_snapshot status_snapshot s (http_error code detail) = (s, refused code)
  serve_beat now config_snapshot status_snapshot s (accepted client) =
      (heartbeat sha256 last_sync_at now client config_snapshot status_snapshot s, done)

  unfoldable pub serve_report :
      ℕ → String → Bool → String → String → String → Base → Reply LocalClient → Base × Answer
  serve_report now command_id success result config_snapshot status_snapshot s
        (http_error code detail) =
      (s, refused code)
  serve_report now command_id success result config_snapshot status_snapshot s (accepted client) =
      let r =
        record_command_result sha256 last_sync_at now client command_id
          (if success then completed else failed) result config_snapshot status_snapshot s in
      (r.0, answer_of reported r.1)

  unfoldable pub serve : ℕ → Request → Base → Base × Answer
  unfolding serve_pull serve_beat serve_report
  serve now
        (register empresa_id client_id hostname ip_address endpoint_url token token_expires_at
          config_snapshot status_snapshot)
        s =
      (
        register_client sha256 last_sync_at expiration_days now empresa_id client_id hostname
            ip_address endpoint_url token token_expires_at config_snapshot status_snapshot s,
        done,
      )
  serve now (beat headers config_snapshot status_snapshot) s =
      serve_beat now config_snapshot status_snapshot s (caller now headers s)
  serve now (pull headers) s = serve_pull now s (caller now headers s)
  serve now (report headers command_id success result config_snapshot status_snapshot) s =
      serve_report now command_id success result config_snapshot status_snapshot s
        (caller now headers s)
  serve now (update_config id client_id payload requested_by) s =
      let r = enqueue_config_update now id client_id payload requested_by s in
      (r.0, answer_of queued r.1)
  serve now (force_sync id client_id requested_by) s =
      let r = enqueue_force_sync now id client_id requested_by s in (r.0, answer_of queued r.1)

  -- The requests in the order in which they are committed, each with its time.
  unfoldable pub serve_all : List (ℕ × Request) → Base → Base × List Answer
  unfolding serve
  serve_all [] s = (s, [])
  serve_all (r ∷ rs) s =
      let first = serve r.0 r.1 s in let rest = serve_all rs first.0 in (rest.0, first.1 ∷ rest.1)
