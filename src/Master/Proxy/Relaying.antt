-- ===== src/Master/Proxy/Relaying.antt =====
-- internal/master/proxy.go: the two loops that relay messages between the streams of a channel.
-- Each round of a loop looks whether the context is done, and if not, receives. What came in is the
-- argument of a round, a message with what the other stream's Send of it will return.
use dockation.Prelude.{
  ℕ, ◌+◌, String, Bool, true, false, Option, none, some, List, [], ◌∷◌, ◌++◌, length,
}
use dockation.Proto.Transfers.{
  ProxyData, ProxyDataType, ProxyPayload, volume_chunk, layer_blob, container_chunk,
}

-- What a round meets: a context that is done, or what Recv returns.
pub data Incoming : Type 0 where
  context_done eof : Incoming
  fails : String → Incoming
  message : ProxyData → Option String → Incoming

pub data RelayError : Type 0 where
  cancelled ended : RelayError
  receive_error send_error : String → RelayError

-- Why a loop has returned: with an error, or with nil after a close message.
pub data RelayEnd : Type 0 where
  stopped : RelayError → RelayEnd
  closed : RelayEnd

-- What a round or a loop has done: how many bytes it has counted, what it has sent on, and how it has
-- ended, unless it goes on.
pub record Relayed : Type 0 where
  pub bytes : ℕ
  pub forwarded : List ProxyData
  pub ended_by : Option RelayEnd

abbrev pub is_close : ProxyDataType → Bool
is_close ProxyDataType.close = true
is_close _ = false

abbrev volume_size : ProxyPayload → ℕ
volume_size (volume_chunk chunk) = length chunk.contents
volume_size _ = 0

abbrev image_size : ProxyPayload → ℕ
image_size (layer_blob blob) = length blob.contents
image_size _ = 0

abbrev container_size : ProxyPayload → ℕ
container_size (container_chunk chunk) = length chunk.state_data
container_size _ = 0

-- The payload counts only if it is of the kind that the type says.
unfoldable pub data_size : ProxyData → ℕ
data_size msg = elim msg.data_type [
  | ProxyDataType.handshake ↦ 0
  | ProxyDataType.volume ↦ volume_size msg.payload
  | ProxyDataType.image ↦ image_size msg.payload
  | ProxyDataType.container ↦ container_size msg.payload
  | ProxyDataType.ack ↦ 0
  | ProxyDataType.close ↦ 0
]

abbrev stops : RelayError → Relayed
stops e = record { bytes = 0; forwarded = []; ended_by = some (stopped e) }

-- A message that is not a close, by what the Send of it returns.
abbrev pub pass_on : ℕ → ProxyData → Option String → Relayed
pass_on size msg none = record { bytes = size; forwarded = msg ∷ []; ended_by = none }
pass_on size msg (some e) = record {
  bytes = 0;
  forwarded = msg ∷ [];
  ended_by = some (stopped (send_error e));
}

-- A close is forwarded, whatever the Send returns, and ends the loop.
abbrev pub close_on : ProxyData → Relayed
close_on msg = record { bytes = 0; forwarded = msg ∷ []; ended_by = some closed }

-- One round of relaySourceToTarget, where `size` is what a message counts for, or of
-- relayTargetToSource, where no message counts.
unfoldable pub relay_round : (ProxyData → ℕ) → Incoming → Relayed
relay_round size context_done = stops cancelled
relay_round size eof = stops ended
relay_round size (fails e) = stops (receive_error e)
relay_round size (message msg sent) = elim (is_close msg.data_type) [
  | true ↦ close_on msg
  | false ↦ pass_on (size msg) msg sent
]

abbrev after_end : Option RelayEnd → Relayed → Relayed → Relayed
after_end (some e) first rest = first
after_end none first rest = record {
  bytes = first.bytes + rest.bytes;
  forwarded = first.forwarded ++ rest.forwarded;
  ended_by = rest.ended_by;
}

-- A round, and the rest of the loop unless the round ends it.
abbrev pub followed_by : Relayed → Relayed → Relayed
followed_by first rest = after_end first.ended_by first rest

-- A loop over what its rounds meet; without an end where they are not enough to end it.
unfoldable pub relay_loop : (ProxyData → ℕ) → List Incoming → Relayed
relay_loop size [] = record { bytes = 0; forwarded = []; ended_by = none }
relay_loop size (i ∷ is) = let rest = relay_loop size is in followed_by (relay_round size i) rest

unfoldable pub relay_source_to_target : List Incoming → Relayed
unfolding data_size
relay_source_to_target is = relay_loop data_size is

unfoldable pub relay_target_to_source : List Incoming → Relayed
relay_target_to_source is = relay_loop (λ msg. 0) is
