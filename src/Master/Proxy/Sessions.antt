-- ===== src/Master/Proxy/Sessions.antt =====
-- internal/master/proxy.go: the goroutines of the proxy, one step after the other, in any order.
-- A step that its goroutine cannot make in the state that it meets changes nothing. The cancellation
-- that relayLoop makes when a loop fails is part of the round that fails.
use dockation.Prelude.{
  ℕ, ◌+◌, String, Bool, true, false, ◌&&◌, ◌||◌, Option, none, some, List, [], ◌∷◌, ◌++◌, get_elem?,
  set, if◌then◌else◌, length,
}
use dockation.Prelude.Dict.{lookup, delete}
use dockation.Proto.Transfers.{ProxyData, ProxyDataType, close_payload}
use dockation.Master.Registry.{Registry}
use dockation.Master.Proxy.Channels.{
  Handler, absent, waiting, relaying, returned, Relay, idle, cleaned, running, ProxyChannel,
  ProxyManager, open_proxy_channel,
}
use dockation.Master.Proxy.Relaying.{
  Incoming, Relayed, RelayEnd, cancelled, ended, receive_error, send_error, stopped, closed,
  relay_round, data_size,
}

abbrev is_waiting : Handler → Bool
is_waiting waiting = true
is_waiting absent = false
is_waiting relaying = false
is_waiting returned = false

abbrev is_present : Handler → Bool
is_present waiting = true
is_present relaying = true
is_present absent = false
is_present returned = false

-- The source's handler has waited for both streams, and starts the two loops.
unfoldable pub start_relay : ProxyChannel → ProxyChannel
start_relay ch =
    if is_waiting ch.source_handler && (ch.source_ready && ch.target_ready)
    then record ch { source_handler = relaying; relay = running true true }
    else ch

-- A handler that waits, or watches the loops, sees that the context is done.
abbrev pub gives_up : Bool → Handler → Handler
gives_up done h = if done && is_present h then returned else h

abbrev pub source_returns : ProxyChannel → ProxyChannel
source_returns ch = record ch { source_handler = gives_up ch.cancelled ch.source_handler }

abbrev pub target_returns : ProxyChannel → ProxyChannel
target_returns ch = record ch { target_handler = gives_up ch.cancelled ch.target_handler }

-- After an end of the stream the other loop goes on; a close or an error cancels the channel.
abbrev cancels : Option RelayEnd → Bool
cancels none = false
cancels (some closed) = true
cancels (some (stopped ended)) = false
cancels (some (stopped cancelled)) = true
cancels (some (stopped (receive_error e))) = true
cancels (some (stopped (send_error e))) = true

abbrev goes_on : Option RelayEnd → Bool
goes_on none = true
goes_on (some e) = false

abbrev source_relayed : Bool → Relayed → ProxyChannel → ProxyChannel
source_relayed target r ch = record ch {
  bytes_relayed = ch.bytes_relayed + r.bytes;
  cancelled = ch.cancelled || cancels r.ended_by;
  relay = running (goes_on r.ended_by) target;
}

abbrev target_relayed : Bool → Relayed → ProxyChannel → ProxyChannel
target_relayed source r ch = record ch {
  cancelled = ch.cancelled || cancels r.ended_by;
  relay = running source (goes_on r.ended_by);
}

-- A round of a loop; its context is done exactly if the channel is cancelled.
abbrev source_round_in : Relay → Incoming → ProxyChannel → ProxyChannel
source_round_in idle i ch = ch
source_round_in cleaned i ch = ch
source_round_in (running false target) i ch = ch
source_round_in (running true target) i ch =
    source_relayed target
      (relay_round data_size (if ch.cancelled then Incoming.context_done else i)) ch

abbrev target_round_in : Relay → Incoming → ProxyChannel → ProxyChannel
target_round_in idle i ch = ch
target_round_in cleaned i ch = ch
target_round_in (running source false) i ch = ch
target_round_in (running source true) i ch =
    target_relayed source
      (relay_round (λ msg. 0) (if ch.cancelled then Incoming.context_done else i)) ch

unfoldable pub source_round : Incoming → ProxyChannel → ProxyChannel
source_round i ch = source_round_in ch.relay i ch

unfoldable pub target_round : Incoming → ProxyChannel → ProxyChannel
target_round i ch = target_round_in ch.relay i ch

abbrev pub cancel : ProxyChannel → ProxyChannel
cancel ch = record ch { cancelled = true }

-- A change of the channel that a pointer leads to.
unfoldable pub modify : (ProxyChannel → ProxyChannel) → ℕ → ProxyManager → ProxyManager
modify f c pm = elim (get_elem? pm.store c) [
  | none ↦ pm
  | some ch ↦ record pm { store = set pm.store c (f ch) }
]

unfoldable pub cleanup_channel : String → ProxyManager → ProxyManager
cleanup_channel migration_id pm = elim (lookup migration_id pm.channels) [
  | none ↦ pm
  | some c ↦ record (modify cancel c pm) { channels = delete migration_id pm.channels }
]

abbrev pub clean : ProxyChannel → ProxyChannel
clean ch = record ch { relay = cleaned }

-- Both loops have ended.
abbrev pub finish_relay : Relay → String → ℕ → ProxyManager → ProxyManager
finish_relay (running false false) migration_id c pm =
    cleanup_channel migration_id (modify clean c pm)
finish_relay (running false true) migration_id c pm = pm
finish_relay (running true target) migration_id c pm = pm
finish_relay idle migration_id c pm = pm
finish_relay cleaned migration_id c pm = pm

unfoldable pub finish : ℕ → ProxyManager → ProxyManager
finish c pm = elim (get_elem? pm.store c) [
  | none ↦ pm
  | some ch ↦ finish_relay ch.relay ch.migration_id c pm
]

unfoldable pub get_channel : ProxyManager → String → Option ProxyChannel
get_channel pm migration_id = elim (lookup migration_id pm.channels) [
  | none ↦ none
  | some c ↦ get_elem? pm.store c
]

unfoldable pub active_channels : ProxyManager → ℕ
active_channels pm = length pm.channels

abbrev close_message : String → String → ProxyData
close_message migration_id reason = record {
  migration_id = migration_id;
  worker_id = "";
  data_type = ProxyDataType.close;
  payload = close_payload (record { success = false; error = reason });
}

abbrev send_to : ProxyData → Option ℕ → List (ℕ × ProxyData)
send_to msg none = []
send_to msg (some stream) = (stream, msg) ∷ []

-- CancelChannel: whether the channel is found, the sends, and the manager after it.
unfoldable pub cancel_channel :
    ProxyManager → String → String → Bool × List (ℕ × ProxyData) × ProxyManager
cancel_channel pm migration_id reason = elim (lookup migration_id pm.channels) [
  | none ↦ (false, [], pm)
  | some c ↦ elim (get_elem? pm.store c) [
    | none ↦ (false, [], pm)
    | some ch ↦
        let msg = close_message migration_id reason in
        (
          true,
          send_to msg ch.source_stream ++ send_to msg ch.target_stream,
          record pm { store = set pm.store c (cancel ch) },
        )
  ]
]

pub data Event : Type 0 where
  opens : Registry → ProxyData → ℕ → Event
  starts source_gives_up target_gives_up finishes : ℕ → Event
  source_receives target_receives : ℕ → Incoming → Event
  cancels_channel : String → String → Event

unfoldable pub step : ProxyManager → Event → ProxyManager
step pm (opens r msg stream) = (open_proxy_channel r pm msg stream).1
step pm (starts c) = modify start_relay c pm
step pm (source_gives_up c) = modify source_returns c pm
step pm (target_gives_up c) = modify target_returns c pm
step pm (finishes c) = finish c pm
step pm (source_receives c i) = modify (source_round i) c pm
step pm (target_receives c i) = modify (target_round i) c pm
step pm (cancels_channel id reason) = (cancel_channel pm id reason).2

unfoldable pub run : ProxyManager → List Event → ProxyManager
unfolding step
run pm [] = pm
run pm (e ∷ es) = run (step pm e) es
