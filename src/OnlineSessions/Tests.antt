-- ===== src/OnlineSessions/Tests.antt =====
-- The online sessions at concrete inputs.
use over_vpn.Base.{
  ℕ, Bool, true, false, List, [], ◌∷◌, filter, Option, none, some, Text, codes, pos, ok, ◌≡◌, inl,
  refl, arith, All,
}
use over_vpn.Schema.{sing_box, xray, User, active, no_reset}
use over_vpn.OnlineSessions.{
  OnlineClient, ClientSnapshot, SessionRow, Registry, InboundRow, AssignmentRow,
  seen_connection_ids,
}
use over_vpn.OnlineSessions.Run.{Collected, collect, is_open, is_seen}
use over_vpn.OnlineSessions.Sweep.{SweepSettings, Swept, sweep, is_stale, sweep_twice}
use over_vpn.OnlineSessions.Current.{open_are_seen}

abbrev user : User
user = record {
  id = codes "u";
  username = codes "u";
  status = active;
  status_reason = none;
  expire_at = none;
  data_limit_bytes = none;
  used_upload_bytes = pos 0;
  used_download_bytes = pos 0;
  accounting_epoch = pos 0;
  traffic_reset_at = none;
  reset_strategy = no_reset;
  next_reset_at = none;
  device_limit = none;
  identity_limit_hold_until = none;
  needs_apply = false;
  revision = 1;
  disabled_at = none;
  deleted_at = none;
}

abbrev registry : Registry
registry = record {
  users = user ∷ [];
  inbounds = record { id = codes "i"; tag = codes "t"; engine = sing_box; enabled = true } ∷ [];
  assignments =
      record {
        user_id = codes "u";
        inbound_id = codes "x";
        active = true;
        inbound_engine = xray;
        inbound_enabled = true;
      }
      ∷ [];
}

abbrev client : OnlineClient
client = record {
  connection_id = codes "c";
  engine = xray;
  panel_user_id = some (codes "u");
  inbound_tag = none;
  ip_address = some (codes "9");
  device = none;
  connected_at = some 7;
  upload_bytes = some (codes "-1");
  download_bytes = some (codes "5");
}

abbrev stranger : OnlineClient
stranger = record client { connection_id = codes "d"; panel_user_id = none }

abbrev snapshot : ClientSnapshot
snapshot = record {
  captured_at = 10;
  clients = client ∷ stranger ∷ [];
  partial = false;
  warnings = [];
}

abbrev row : Text → SessionRow
row key = record {
  session_key = key;
  engine = xray;
  user_id = codes "u";
  inbound_id = codes "x";
  ip_address = some (codes "9");
  device_id = some (codes "ip:9");
  upload_bytes = some (pos 3);
  download_bytes = none;
  connected_at = 7;
  last_seen_at = 8;
  disconnected_at = none;
}

abbrev before : List SessionRow
before = row (codes "c") ∷ row (codes "e") ∷ []

abbrev after : List SessionRow
after =
    record (row (codes "c")) { last_seen_at = 10; download_bytes = some (pos 5) }
    ∷ record (row (codes "e")) { disconnected_at = some 10 }
    ∷ []

abbrev counted : Collected
counted = record { resolved = 1; unresolved = 1; invalid = 0; disconnected = 1 }

collects : collect registry snapshot true before ≡ ok (counted, after)
unfolding collect over_vpn.OnlineSessions.Run.collect_clients
    over_vpn.OnlineSessions.Run.collect_client over_vpn.OnlineSessions.resolve over_vpn.Base.text_eq
    over_vpn.OnlineSessions.parse_session_bytes over_vpn.Accounting.parse_nonnegative_int64
    over_vpn.OnlineSessions.ip_of over_vpn.OnlineSessions.upsert
    over_vpn.OnlineSessions.Run.close_unseen over_vpn.OnlineSessions.device_of
collects = refl

open_are_seen_example :
    (out : Collected × List SessionRow) × (collect registry snapshot true before ≡ ok out)
    × All (λ r. is_open r ≡ true → is_seen (seen_connection_ids snapshot) r ≡ true) out.1
open_are_seen_example = open_are_seen registry snapshot before refl

abbrev settings : SweepSettings
settings = record { timeout_ms = 5; retention_days = 1 }

abbrev closed : List SessionRow
closed = record (row (codes "c")) { disconnected_at = some 100 } ∷ []

abbrev one_swept : Swept
one_swept = record { disconnected = 1; pruned = 0 }

sweeps : sweep settings 100 true (row (codes "c") ∷ []) ≡ ok (one_swept, closed)
unfolding sweep over_vpn.OnlineSessions.Sweep.close_stale over_vpn.OnlineSessions.Sweep.delete_old
sweeps = refl

sweep_twice_example :
    (filter (is_stale 95) closed ≡ [])
    × (sweep settings 100 true closed ≡ ok (record { disconnected = 0; pruned = 0 }, closed))
sweep_twice_example = sweep_twice settings 100 (row (codes "c") ∷ []) closed one_swept sweeps
