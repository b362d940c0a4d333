-- ===== src/Master/Proxy/Tests.antt =====
-- internal/master/proxy.go: the relay and its sessions on concrete messages.
use dockation.Prelude.{ℕ, String, ◌≡◌, ◌≢◌, refl, true, false, none, some, List, [], ◌∷◌, ◌++◌}
use dockation.Prelude.Dict.{lookup, insert, delete}
use dockation.Proto.Transfers.{
  ProxyData, ProxyDataType, ProxyRole, volume_chunk, handshake_payload, close_payload,
  ProxyHandshake,
}
use dockation.Proto.{WorkerStatus}
use dockation.Master.Registry.{WorkerInfo, Registry, get_by_auth_token}
use dockation.Master.Proxy.Channels.{
  ProxyManager, new_proxy_manager, open_proxy_channel, authenticate, join_channel,
  get_or_create_channel, on_channel, register_stream, ProxyChannel,
}
use dockation.Master.Proxy.Relaying.{
  message, eof, relay_source_to_target, relay_round, closed, data_size,
}
use dockation.Master.Proxy.Faithful.{relay_complete, passing}
use dockation.Master.Proxy.Sessions.{
  Event, opens, starts, source_receives, target_receives, finishes, target_gives_up, run, step,
  get_channel, modify, start_relay, source_round, target_round, finish, cleanup_channel,
  active_channels,
}
use dockation.Master.Proxy.Stuck.{abandons, cancelled_early}

abbrev worker : String → String → WorkerInfo
worker id token = record {
  id = id;
  name = id;
  hostname = "";
  grpc_address = "";
  tls_fingerprint = "";
  labels = [];
  version = "";
  status = WorkerStatus.idle;
  auth_token = token;
  registered_at = 0;
  last_heartbeat = 0;
  last_inventory = 0;
  containers = [];
  images = [];
  volumes = [];
  networks = [];
  system_resources = none;
  stream = none;
}

abbrev two_workers : Registry
two_workers = record {
  workers = ("w1", worker "w1" "t1") ∷ ("w2", worker "w2" "t2") ∷ [];
  timeout = 30;
}

abbrev hello : String → String → ProxyRole → ProxyData
hello id token role = record {
  migration_id = "mig-1";
  worker_id = id;
  data_type = ProxyDataType.handshake;
  payload = handshake_payload (record { role = role; target_worker_id = ""; auth_token = token });
}

abbrev chunk : List ℕ → ProxyData
chunk bytes = record {
  migration_id = "mig-1";
  worker_id = "";
  data_type = ProxyDataType.volume;
  payload = volume_chunk (record {
    volume_id = "v";
    offset = 0;
    contents = bytes;
    checksum = "";
    total_size = 0;
    is_final = false;
  });
}

abbrev bye : ProxyData
bye = record {
  migration_id = "mig-1";
  worker_id = "";
  data_type = ProxyDataType.close;
  payload = close_payload (record { success = true; error = "" });
}

abbrev session : List Event
session =
    opens two_workers (hello "w1" "t1" ProxyRole.source) 1
    ∷ opens two_workers (hello "w2" "t2" ProxyRole.target) 2
    ∷ starts 0
    ∷ source_receives 0 (message (chunk (1 ∷ 2 ∷ 3 ∷ [])) none)
    ∷ source_receives 0 (message bye none)
    ∷ target_receives 0 eof
    ∷ finishes 0
    ∷ []

-- A whole session leaves no channel.
session_ends : active_channels (run new_proxy_manager session) ≡ 0
unfolding run step open_proxy_channel authenticate join_channel get_or_create_channel on_channel
    register_stream modify start_relay source_round target_round finish cleanup_channel relay_round
    data_size active_channels new_proxy_manager get_by_auth_token lookup insert delete
session_ends = refl

relay_complete_example :
    relay_source_to_target
      (passing (chunk (1 ∷ 2 ∷ []) ∷ chunk (3 ∷ []) ∷ []) ++ message bye (some "gone") ∷ eof ∷ [])
    ≡ record {
      bytes = 3;
      forwarded = chunk (1 ∷ 2 ∷ []) ∷ chunk (3 ∷ []) ∷ bye ∷ [];
      ended_by = some closed;
    }
unfolding data_size
relay_complete_example =
    relay_complete (chunk (1 ∷ 2 ∷ []) ∷ chunk (3 ∷ []) ∷ []) bye (some "gone") (eof ∷ [])
      (refl, (refl, tt)) refl

joins :
    (open_proxy_channel two_workers new_proxy_manager (hello "w1" "t1" ProxyRole.source) 1).0 ≡ none
unfolding open_proxy_channel authenticate join_channel get_or_create_channel on_channel
    register_stream new_proxy_manager get_by_auth_token lookup
joins = refl

abbrev target_comes_late : List Event
target_comes_late =
    opens two_workers (hello "w2" "t2" ProxyRole.target) 2 ∷ target_gives_up 0 ∷ finishes 0 ∷ []

abbrev abandoned : ProxyManager
abandoned = run new_proxy_manager (
    abandons new_proxy_manager two_workers (hello "w1" "t1" ProxyRole.source) 1 "stop"
    ++ target_comes_late)

cancelled_early_example :
    ((ch : ProxyChannel) × (get_channel abandoned "mig-1" ≡ some ch) × (ch.cancelled ≡ true))
    × ((open_proxy_channel two_workers abandoned (hello "w1" "t1" ProxyRole.source) 3).0 ≢ none)
unfolding new_proxy_manager lookup
cancelled_early_example =
    let handshake : ProxyHandshake = record {
      role = ProxyRole.source;
      target_worker_id = "";
      auth_token = "t1";
    } in
    cancelled_early two_workers new_proxy_manager (hello "w1" "t1" ProxyRole.source) 1 "stop"
      target_comes_late two_workers (hello "w1" "t1" ProxyRole.source) 3 (refl, (λ k ch e. cc))
      (refl, (handshake, refl, refl)) joins (refl, (handshake, refl, refl))
