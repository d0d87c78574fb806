-- ===== src/Clients/Service.antt =====
-- backend/services/local_client_service.py, and the headers that backend/api/client_deps.py reads.
-- A header that is missing is the empty text.
use Prim.Native.String
use integrado_web_xd.Prelude.{
  ℕ, ◌+◌, ◌*◌, String, Bool, false, not, ◌||◌, Option, none, some, List, [], ◌∷◌, ◌++◌, map, leb,
  if◌then◌else◌, ◌==◌, or_else,
}
use integrado_web_xd.Http.{Reply, accepted, http_error}
use integrado_web_xd.Access.{
  hash_api_key, verify_api_key, validate_empresa_id, validate_api_key_format,
}
use integrado_web_xd.Clients.{
  LocalClient, LocalClientCommand, Base, CommandStatus, completed, get_by_id, upsert_registration,
  touch_client, touch_polled, create_command, get_command, list_pending_for_client, as_delivered,
  mark_delivered, mark_result, log_event,
}

abbrev pub days : ℕ → ℕ
days n = n * 86400000000

-- `... if execution_status == "completed" else ...`
abbrev pub execution_outcome : CommandStatus → String → String → String
execution_outcome completed fit other = fit
execution_outcome _ fit other = other

module _ (sha256 : List ℕ → String) (last_sync_at : String → Option ℕ) where
  -- The client is the row of the id, new or written over; `none` never happens.
  unfoldable pub register_client :
      ℕ
      → ℕ
      → String
      → String
      → String
      → Option String
      → Option String
      → String
      → Option ℕ
      → String
      → String
      → Base
      → Base
  unfolding upsert_registration get_by_id log_event
  register_client expiration_days now empresa_id client_id hostname ip_address endpoint_url
        raw_token token_expires_at config_snapshot status_snapshot s =
      let clients =
        upsert_registration last_sync_at now client_id empresa_id hostname ip_address endpoint_url
          (hash_api_key sha256 raw_token) (some now)
          (some (or_else token_expires_at (now + days expiration_days))) config_snapshot
          status_snapshot "{\"registered_via\": \"tenant_auth\"}" s.clients in
      record s {
        clients = clients;
        logs = elim (get_by_id client_id clients) [
          | none ↦ s.logs
          | some client ↦
              log_event now client "inbound" "client.register" "local_client" "success" s.logs
        ];
      }

  abbrev pub is_expired : ℕ → Option ℕ → Bool
  is_expired now none = false
  is_expired now (some expires_at) = leb expires_at now

  unfoldable pub authenticate_client :
      ℕ → String → String → String → List LocalClient → Reply LocalClient
  unfolding get_by_id
  authenticate_client now client_id empresa_id raw_token clients =
      elim (get_by_id client_id clients) [
        | none ↦ http_error 401 "Local client credentials are invalid."
        | some client ↦
            if not (client.empresa_id == empresa_id)
            then http_error 401 "Local client credentials are invalid."
            else if not (verify_api_key sha256 raw_token client.token_hash)
            then http_error 401 "Local client credentials are invalid."
            else if is_expired now client.token_expires_at
            then http_error 401 "Local client token expired."
            else accepted client
      ]

  unfoldable pub get_authenticated_local_client :
      ℕ → String → String → String → List LocalClient → Reply LocalClient
  unfolding authenticate_client validate_empresa_id validate_api_key_format
  get_authenticated_local_client now client_id client_token empresa_id clients =
      if client_id == "" || client_token == "" || empresa_id == ""
      then http_error 401 "Local client authentication headers are missing."
      else if not (validate_empresa_id empresa_id) || not (validate_api_key_format client_token)
      then http_error 401 "Local client credentials are invalid."
      else authenticate_client now client_id empresa_id client_token clients

  unfoldable pub heartbeat : ℕ → LocalClient → String → String → Base → Base
  unfolding touch_client log_event
  heartbeat now client config_snapshot status_snapshot s = record s {
    clients =
        touch_client last_sync_at now client.id config_snapshot status_snapshot "online" s.clients;
    logs = log_event now client "inbound" "client.heartbeat" "local_client" "success" s.logs;
  }

  unfoldable pub pull_commands : ℕ → LocalClient → Base → Base × List LocalClientCommand
  unfolding list_pending_for_client mark_delivered touch_polled log_event
  pull_commands now client s = (
    record s {
      clients = touch_polled now client.id s.clients;
      commands = mark_delivered now client.id s.commands;
      logs = log_event now client "outbound" "commands.pull" "local_client" "success" s.logs;
    },
    map (as_delivered now) (list_pending_for_client client.id s.commands),
  )

  -- The command is answered as it was found; the route answers with its id alone.
  unfoldable pub record_command_result :
      ℕ
      → LocalClient
      → String
      → CommandStatus
      → String
      → String
      → String
      → Base
      → Base × Reply LocalClientCommand
  unfolding get_command mark_result touch_client log_event
  record_command_result now client command_id execution_status result config_snapshot
        status_snapshot s =
      elim (get_command command_id s.commands) [
        | none ↦ (s, http_error 404 "Command not found for local client.")
        | some command ↦
            if not (command.client_id == client.id)
            then (s, http_error 404 "Command not found for local client.")
            else (
              record {
                clients =
                    touch_client last_sync_at now client.id config_snapshot status_snapshot
                      (execution_outcome execution_status "online" "error") s.clients;
                commands = mark_result now command.id execution_status result s.commands;
                logs =
                    log_event now client "inbound" (String.◌++◌ "command." command.command_type)
                      "local_client" (execution_outcome execution_status "success" "failure")
                      s.logs;
              },
              accepted command,
            )
      ]

-- `get_client`, then `create`; the payload of a forced synchronisation is empty.
unfoldable pub enqueue :
    String → ℕ → String → String → String → String → Base → Base × Reply LocalClientCommand
unfolding get_by_id create_command log_event
enqueue command_type now id client_id payload requested_by s =
    elim (get_by_id client_id s.clients) [
      | none ↦ (s, http_error 404 "Local client not found.")
      | some client ↦ (
        record s {
          commands =
              s.commands ++ create_command now id client command_type payload requested_by ∷ [];
          logs =
              log_event now client "outbound" (String.◌++◌ "command." command_type) "receiver_api"
                "success" s.logs;
        },
        accepted (create_command now id client command_type payload requested_by),
      )
    ]

unfoldable pub enqueue_config_update :
    ℕ → String → String → String → String → Base → Base × Reply LocalClientCommand
unfolding enqueue
enqueue_config_update = enqueue "update_config"

unfoldable pub enqueue_force_sync :
    ℕ → String → String → String → Base → Base × Reply LocalClientCommand
unfolding enqueue
enqueue_force_sync now id client_id requested_by =
    enqueue "force_sync" now id client_id "{}" requested_by
