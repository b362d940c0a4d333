-- ===== src/Worker/Executor/Acks.antt =====
-- internal/worker/executor.go: the target's loop in proxy mode, and the set of active migrations.
use dockation.Prelude.{
  ℕ, String, ◌≡◌, refl, ap, ◌∙◌, Bool, true, false, Option, none, some, List, [], ◌∷◌, ◌++◌, map,
  arith, eq_iff,
}
use dockation.Prelude.Dict.{Dict, lookup, insert, delete, lookup-insert, lookup-delete}
use dockation.Proto.Transfers.{
  VolumeChunk, ProxyData, ProxyClose, ProxyDataType, ProxyPayload, volume_chunk, layer_blob,
  container_chunk, ack_payload, handshake_payload, close_payload, unset,
}
use dockation.Master.Proxy.Relaying.{Incoming, message, relay_source_to_target}
use dockation.Master.Proxy.Faithful.{AllPass, passing, relay_complete}

-- What a round of executeTargetViaProxy meets.
pub data Received : Type 0 where
  context_done eof : Received
  failed : String → Received
  received : ProxyData → Received

abbrev pub ack : String → ℕ → ProxyData
ack id offset = record {
  migration_id = id;
  worker_id = "";
  data_type = ProxyDataType.ack;
  payload = ack_payload (record { offset = offset; success = true; error = ""; progress = 0 });
}

abbrev ack_volume : String → ProxyPayload → List ProxyData
ack_volume id (volume_chunk chunk) = ack id chunk.offset ∷ []
ack_volume id (layer_blob _) = []
ack_volume id (container_chunk _) = []
ack_volume id (ack_payload _) = []
ack_volume id (handshake_payload _) = []
ack_volume id (close_payload _) = []
ack_volume id unset = []

abbrev ack_image : String → ProxyPayload → List ProxyData
ack_image id (layer_blob blob) = ack id blob.offset ∷ []
ack_image id (volume_chunk _) = []
ack_image id (container_chunk _) = []
ack_image id (ack_payload _) = []
ack_image id (handshake_payload _) = []
ack_image id (close_payload _) = []
ack_image id unset = []

abbrev has_close : ProxyPayload → Bool
has_close (close_payload _) = true
has_close (volume_chunk _) = false
has_close (layer_blob _) = false
has_close (container_chunk _) = false
has_close (ack_payload _) = false
has_close (handshake_payload _) = false
has_close unset = false

-- A message: what the target sends back, and whether it ends the loop. What Send returns is ignored.
unfoldable pub answer : String → ProxyData → List ProxyData × Bool
answer id msg = elim msg.data_type [
  | ProxyDataType.volume ↦ (ack_volume id msg.payload, false)
  | ProxyDataType.image ↦ (ack_image id msg.payload, false)
  | ProxyDataType.close ↦ ([], has_close msg.payload)
  | ProxyDataType.handshake ↦ ([], false)
  | ProxyDataType.container ↦ ([], false)
  | ProxyDataType.ack ↦ ([], false)
]

abbrev unless_ended : List ProxyData × Bool → List ProxyData → List ProxyData
unless_ended (sent, true) rest = sent
unless_ended (sent, false) rest = sent ++ rest

-- What the loop of executeTargetViaProxy sends, over what its rounds meet.
unfoldable pub target_loop : String → List Received → List ProxyData
target_loop id [] = []
target_loop id (context_done ∷ rs) = []
target_loop id (eof ∷ rs) = []
target_loop id (failed e ∷ rs) = []
target_loop id (received msg ∷ rs) =
    let rest = target_loop id rs in unless_ended (answer id msg) rest

-- activeMigrations, where a number stands for a CancelFunc.
unfoldable pub begin_migration : String → ℕ → Dict ℕ → Dict ℕ
begin_migration id cancel active = insert id cancel active

unfoldable pub end_migration : String → Dict ℕ → Dict ℕ
end_migration id active = delete id active

-- Cancel: the function that it calls.
unfoldable pub cancel : String → Dict ℕ → Option ℕ
cancel id active = lookup id active

-- An execution that starts while another one with its ID is under way takes the other's place, and the
-- first of the two to end takes the entry away: the one that still runs can no longer be cancelled.
pub cancel-overlap :
    (id : String) (first second : ℕ) (active : Dict ℕ)
    → (cancel id (begin_migration id second (begin_migration id first active)) ≡ some second)
      × (cancel id (end_migration id (begin_migration id second (begin_migration id first active)))
          ≡ none)
unfolding cancel begin_migration end_migration
cancel-overlap id first second active = (
  rw (lookup-insert id id second (insert id first active)) (ground (arith, eq_iff id id)),
  rw (lookup-delete id id (insert id second (insert id first active)))
      (ground (arith, eq_iff id id)),
)

-- What ProxyVolumeStream's Send makes of a chunk.
abbrev pub volume_data : String → String → VolumeChunk → ProxyData
volume_data id worker chunk = record {
  migration_id = id;
  worker_id = worker;
  data_type = ProxyDataType.volume;
  payload = volume_chunk chunk;
}

abbrev pub close_data : String → String → ProxyClose → ProxyData
close_data id worker close = record {
  migration_id = id;
  worker_id = worker;
  data_type = ProxyDataType.close;
  payload = close_payload close;
}

module _ (id worker : String) (close : ProxyClose) where
  acks-chunks :
      (chunks : List VolumeChunk)
      → target_loop id
          (map received (map (volume_data id worker) chunks ++ close_data id worker close ∷ []))
        ≡ map (λ c. ack id c.offset) chunks
  unfolding target_loop answer
  acks-chunks [] = refl
  acks-chunks (c ∷ cs) = ap (◌∷◌ (ack id c.offset)) (acks-chunks cs)

  chunks-AllPass : (chunks : List VolumeChunk) → AllPass (map (volume_data id worker) chunks)
  chunks-AllPass [] = tt
  chunks-AllPass (c ∷ cs) = (refl, chunks-AllPass cs)

  -- Chunks that a source sends through the proxy, and then a close, each being sent on without an
  -- error, are acknowledged by the target one by one, in their order, each at its own offset and as a
  -- success, whatever their data and checksums; and the target's loop ends there.
  proxied_acks :
      (chunks : List VolumeChunk) (sent : Option String) (later : List Incoming)
      → target_loop id (
          map received
            (relay_source_to_target (
              passing (map (volume_data id worker) chunks)
              ++ message (close_data id worker close) sent ∷ later)).forwarded)
        ≡ map (λ c. ack id c.offset) chunks
  proxied_acks chunks sent later =
      ap (λ r. target_loop id (map received r.forwarded))
        (relay_complete (map (volume_data id worker) chunks) (close_data id worker close) sent later
          (chunks-AllPass chunks) refl)
      ∙ acks-chunks chunks
