-- ===== src/Clients.antt =====
-- The local clients of the tenants and the commands for them.
-- backend/models/local_client.py and local_client_command.py, with
-- backend/repositories/local_client_repository.py, local_client_command_repository.py and
-- local_client_log_repository.py. A snapshot is the JSON text that is stored for it, and `last_sync_at`,
-- the parameter, is the time that `_parse_datetime` reads from a status snapshot. Rows stand in order of
-- insertion. The writes of the log keep its columns but `detail_json`.
pub mod Service
pub mod Requests
pub mod Delivery
pub mod Callers
mod Tests
use integrado_web_xd.Prelude.{
  ℕ, String, Bool, true, false, not, ◌&&◌, Option, none, some, is_some, List, [], ◌∷◌, ◌++◌,
  if◌then◌else◌, ◌==◌, keep, first_where, update_where, update_first, sort_by,
}

pub record LocalClient : Type 0 where
  pub id : String
  pub empresa_id : String
  pub hostname : String
  pub ip_address : Option String
  pub endpoint_url : Option String
  pub token_hash : String
  pub token_last_rotated_at : Option ℕ
  pub token_expires_at : Option ℕ
  pub status : String
  pub last_seen_at : Option ℕ
  pub last_sync_at : Option ℕ
  pub last_command_poll_at : Option ℕ
  pub last_config_json : String
  pub last_status_json : String
  pub metadata_json : String

pub data CommandStatus : Type 0 where
  pending delivered completed failed : CommandStatus

pub record LocalClientCommand : Type 0 where
  pub id : String
  pub client_id : String
  pub empresa_id : String
  pub command_type : String
  pub payload_json : String
  pub status : CommandStatus
  pub requested_by : String
  pub origin : String
  pub result_json : String
  pub created_at : ℕ
  pub delivered_at : Option ℕ
  pub executed_at : Option ℕ

pub record LocalClientLog : Type 0 where
  pub client_id : String
  pub empresa_id : String
  pub direction : String
  pub event_type : String
  pub origin : String
  pub status : String
  pub created_at : ℕ

pub record Base : Type 0 where
  pub clients : List LocalClient
  pub commands : List LocalClientCommand
  pub logs : List LocalClientLog

abbrev pub has_id : String → LocalClient → Bool
has_id client_id c = c.id == client_id

unfoldable pub get_by_id : String → List LocalClient → Option LocalClient
get_by_id client_id = first_where (has_id client_id)

-- `upsert_registration`
unfoldable pub upsert_registration :
    (String → Option ℕ)
    → ℕ
    → String
    → String
    → String
    → Option String
    → Option String
    → String
    → Option ℕ
    → Option ℕ
    → String
    → String
    → String
    → List LocalClient
    → List LocalClient
unfolding get_by_id
upsert_registration last_sync_at now client_id empresa_id hostname ip_address endpoint_url
      token_hash rotated_at expires_at config_snapshot status_snapshot metadata clients =
    if is_some (get_by_id client_id clients)
    then update_first (has_id client_id)
        (λ c. record c {
          empresa_id = empresa_id;
          hostname = hostname;
          ip_address = ip_address;
          endpoint_url = endpoint_url;
          token_hash = token_hash;
          token_last_rotated_at = rotated_at;
          token_expires_at = expires_at;
          status = "online";
          last_seen_at = some now;
          last_config_json = config_snapshot;
          last_status_json = status_snapshot;
          metadata_json = metadata;
          last_sync_at = last_sync_at status_snapshot;
        })
        clients
    else clients
      ++ record {
        id = client_id;
        empresa_id = empresa_id;
        hostname = hostname;
        ip_address = ip_address;
        endpoint_url = endpoint_url;
        token_hash = token_hash;
        token_last_rotated_at = rotated_at;
        token_expires_at = expires_at;
        status = "online";
        last_seen_at = some now;
        last_sync_at = none;
        last_command_poll_at = none;
        last_config_json = config_snapshot;
        last_status_json = status_snapshot;
        metadata_json = metadata;
      }
        ∷ []

-- `touch_client` with the snapshots of the client, and with `command_polled`.
unfoldable pub touch_client :
    (String → Option ℕ)
    → ℕ
    → String
    → String
    → String
    → String
    → List LocalClient
    → List LocalClient
touch_client last_sync_at now client_id config_snapshot status_snapshot status =
    update_first (has_id client_id) (λ c. record c {
      last_seen_at = some now;
      last_config_json = config_snapshot;
      last_status_json = status_snapshot;
      last_sync_at = last_sync_at status_snapshot;
      status = status;
    })

unfoldable pub touch_polled : ℕ → String → List LocalClient → List LocalClient
touch_polled now client_id =
    update_first (has_id client_id) (λ c. record c {
      last_seen_at = some now;
      last_command_poll_at = some now;
      status = "online";
    })

abbrev pub is_pending : LocalClientCommand → Bool
is_pending c = elim c.status [ pending ↦ true | _ ↦ false ]

abbrev pub is_pending_for : String → LocalClientCommand → Bool
is_pending_for client_id c = c.client_id == client_id && is_pending c

-- `create` of the commands
unfoldable pub create_command :
    ℕ → String → LocalClient → String → String → String → LocalClientCommand
create_command now id client command_type payload requested_by = record {
  id = id;
  client_id = client.id;
  empresa_id = client.empresa_id;
  command_type = command_type;
  payload_json = payload;
  status = pending;
  requested_by = requested_by;
  origin = "web";
  result_json = "{}";
  created_at = now;
  delivered_at = none;
  executed_at = none;
}

unfoldable pub get_command : String → List LocalClientCommand → Option LocalClientCommand
get_command command_id = first_where (λ c. c.id == command_id)

unfoldable pub list_pending_for_client : String → List LocalClientCommand → List LocalClientCommand
list_pending_for_client client_id commands =
    sort_by (λ c. c.created_at) (keep (is_pending_for client_id) commands)

abbrev pub as_delivered : ℕ → LocalClientCommand → LocalClientCommand
as_delivered now c = record c { status = delivered; delivered_at = some now }

-- `mark_delivered` assigns to the objects that `list_pending_for_client` returned.
unfoldable pub mark_delivered : ℕ → String → List LocalClientCommand → List LocalClientCommand
mark_delivered now client_id = update_where (is_pending_for client_id) (as_delivered now)

unfoldable pub mark_result :
    ℕ → String → CommandStatus → String → List LocalClientCommand → List LocalClientCommand
mark_result now command_id status result =
    update_first (λ c. c.id == command_id)
      (λ c. record c { status = status; result_json = result; executed_at = some now })

unfoldable pub log_event :
    ℕ → LocalClient → String → String → String → String → List LocalClientLog → List LocalClientLog
log_event now client direction event_type origin status logs =
    logs
    ++ record {
      client_id = client.id;
      empresa_id = client.empresa_id;
      direction = direction;
      event_type = event_type;
      origin = origin;
      status = status;
      created_at = now;
    }
      ∷ []
