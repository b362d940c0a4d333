-- ===== src/Master/Proxy/Channels.antt =====
-- internal/master/proxy.go: the channels of migrations, and how workers join them.
-- A handler of OpenProxyChannel keeps a pointer to its channel, also after the channel has left the
-- map: the channels are a store, and the map holds their places. What a handler is doing is a field of
-- the channel.
use dockation.Prelude.{
  ℕ, String, Bool, true, false, not, Option, none, some, List, [], ◌∷◌, ◌++◌, length, get_elem?,
  set, str_eq, if◌then◌else◌, is_some,
}
use dockation.Prelude.Dict.{Dict, lookup, insert}
use dockation.Proto.Transfers.{
  ProxyData, ProxyDataType, ProxyRole, ProxyPayload, ProxyHandshake, volume_chunk, layer_blob,
  container_chunk, ack_payload, handshake_payload, close_payload, unset,
}
use dockation.Master.Registry.{WorkerInfo, Registry, get_by_auth_token}

-- What the source's handler and the target's handler of a channel are doing.
pub data Handler : Type 0 where
  absent waiting relaying returned : Handler

-- The two goroutines of relayLoop: not started, running or ended each, and followed by the cleanup.
pub data Relay : Type 0 where
  idle cleaned : Relay
  running : Bool → Bool → Relay

pub record ProxyChannel : Type 0 where
  pub migration_id : String
  pub source_stream : Option ℕ
  pub target_stream : Option ℕ
  pub source_ready : Bool
  pub target_ready : Bool
  pub bytes_relayed : ℕ
  pub cancelled : Bool
  pub source_handler : Handler
  pub target_handler : Handler
  pub relay : Relay

pub record ProxyManager : Type 0 where
  pub store : List ProxyChannel
  pub channels : Dict ℕ

unfoldable pub new_proxy_manager : ProxyManager
new_proxy_manager = record { store = []; channels = [] }

pub data ProxyError : Type 0 where
  receive_failed : String → ProxyError
  not_a_handshake no_payload invalid_token id_mismatch : ProxyError
  source_registered target_registered : String → ProxyError
  unknown_role : ℕ → ProxyError

abbrev pub new_channel : String → ProxyChannel
new_channel migration_id = record {
  migration_id = migration_id;
  source_stream = none;
  target_stream = none;
  source_ready = false;
  target_ready = false;
  bytes_relayed = 0;
  cancelled = false;
  source_handler = absent;
  target_handler = absent;
  relay = idle;
}

unfoldable pub get_or_create_channel : ProxyManager → String → ℕ × ProxyManager
get_or_create_channel pm migration_id = elim (lookup migration_id pm.channels) [
  | some c ↦ (c, pm)
  | none ↦
      let c = length pm.store in
      (
        c,
        record pm {
          store = pm.store ++ new_channel migration_id ∷ [];
          channels = insert migration_id c pm.channels;
        },
      )
]

-- Step 3 of OpenProxyChannel: the stream is stored, and its ready channel closed.
unfoldable pub register_stream : ProxyRole → ℕ → ProxyChannel → Option ProxyError × ProxyChannel
register_stream ProxyRole.source stream ch =
    if is_some ch.source_stream then (some (source_registered ch.migration_id), ch) else (
      none,
      record ch { source_stream = some stream; source_ready = true; source_handler = waiting },
    )
register_stream ProxyRole.target stream ch =
    if is_some ch.target_stream then (some (target_registered ch.migration_id), ch) else (
      none,
      record ch { target_stream = some stream; target_ready = true; target_handler = waiting },
    )
register_stream (ProxyRole.unknown n) stream ch = (some (unknown_role n), ch)

-- channel := channels[c]; its new value is stored back.
unfoldable pub on_channel {ℓ} :
    {A : Type ℓ} → A → (ProxyChannel → A × ProxyChannel) → ℕ → ProxyManager → A × ProxyManager
on_channel missing f c pm = elim (get_elem? pm.store c) [
  | none ↦ (missing, pm)
  | some ch ↦ let (a, ch') = f ch in (a, record pm { store = set pm.store c ch' })
]

abbrev pub is_handshake : ProxyDataType → Bool
is_handshake ProxyDataType.handshake = true
is_handshake _ = false

abbrev pub get_handshake : ProxyPayload → Option ProxyHandshake
get_handshake (handshake_payload h) = some h
get_handshake (volume_chunk _) = none
get_handshake (layer_blob _) = none
get_handshake (container_chunk _) = none
get_handshake (ack_payload _) = none
get_handshake (close_payload _) = none
get_handshake unset = none

abbrev pub same_worker : WorkerInfo → String → Bool
same_worker w id = str_eq w.id id

-- Steps 2 and 3, for an authenticated worker.
unfoldable pub join_channel :
    ProxyManager → String → ProxyRole → ℕ → Option ProxyError × ProxyManager
join_channel pm migration_id role stream =
    let (c, pm') = get_or_create_channel pm migration_id in
    on_channel none (register_stream role stream) c pm'

unfoldable pub authenticate :
    Registry → ProxyManager → ProxyData → ProxyHandshake → ℕ → Option ProxyError × ProxyManager
authenticate r pm msg handshake stream = elim (get_by_auth_token r handshake.auth_token) [
  | none ↦ (some invalid_token, pm)
  | some w ↦
      if same_worker w msg.worker_id
      then join_channel pm msg.migration_id handshake.role stream
      else (some id_mismatch, pm)
]

-- OpenProxyChannel up to its first wait, on the message that its stream's first Recv returns.
unfoldable pub open_proxy_channel :
    Registry → ProxyManager → ProxyData → ℕ → Option ProxyError × ProxyManager
open_proxy_channel r pm msg stream =
    if not (is_handshake msg.data_type)
    then (some not_a_handshake, pm)
    else elim (get_handshake msg.payload) [
      | none ↦ (some no_payload, pm)
      | some handshake ↦ authenticate r pm msg handshake stream
    ]
