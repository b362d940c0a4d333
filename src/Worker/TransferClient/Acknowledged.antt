-- ===== src/Worker/TransferClient/Acknowledged.antt =====
-- internal/worker/transfer_client.go with executor.go and internal/master/proxy.go: chunks sent through the
-- proxy, each answered before the next is sent, as transferVolume does.
use dockation.Prelude.{
  ℕ, ◌+◌, ◌≡◌, refl, ap, ◌∙◌, Bool, true, false, none, List, [], ◌∷◌, ◌++◌, map, length, arith,
}
use dockation.Proto.Transfers.{VolumeChunk, ProxyData}
use dockation.Master.Proxy.Channels.{Relay, idle, cleaned, running, ProxyChannel}
use dockation.Master.Proxy.Relaying as Relaying
use dockation.Master.Proxy.Relaying.{Incoming, message, relay_round, data_size}
use dockation.Master.Proxy.Sessions.{source_round, target_round}
use dockation.Worker.Executor.Acks.{answer}
use dockation.Worker.TransferClient.{
  ProxyTransferClient, ProxyStream, opens, open_stream, close_client, send_chunk, arrives, Answer,
  acks, recv,
}

abbrev source_live : Relay → Bool
source_live idle = false
source_live cleaned = false
source_live (running source target) = source

abbrev target_live : Relay → Bool
target_live idle = false
target_live cleaned = false
target_live (running source target) = target

-- What a loop sends on in a round: nothing if it has ended or finds its context done.
abbrev sent_on : Bool → Bool → Incoming → List ProxyData
sent_on false done i = []
sent_on true true i = (relay_round data_size Relaying.context_done).forwarded
sent_on true false i = (relay_round data_size i).forwarded

-- A message through the channel: what comes out, and the channel after the round.
abbrev pub to_target : ProxyChannel → ProxyData → List ProxyData × ProxyChannel
to_target ch msg = (
  sent_on (source_live ch.relay) ch.cancelled (message msg none),
  source_round (message msg none) ch,
)

abbrev pub to_source : ProxyChannel → ProxyData → List ProxyData × ProxyChannel
to_source ch msg = (
  sent_on (target_live ch.relay) ch.cancelled (message msg none),
  target_round (message msg none) ch,
)

abbrev pub all_to_source : ProxyChannel → List ProxyData → List ProxyData × ProxyChannel
all_to_source ch [] = ([], ch)
all_to_source ch (msg ∷ msgs) =
    let (out, ch') = to_source ch msg in
    let (more, ch'') = all_to_source ch' msgs in (out ++ more, ch'')

-- The rounds of the target's loop on what has come to it.
abbrev pub replies : ProxyTransferClient → List ProxyData → List ProxyData
replies c [] = []
replies c (msg ∷ msgs) = (answer c.migration_id msg).0 ++ replies c msgs

-- Send, the relay, the target, the relay, and Recv.
abbrev pub exchange :
    ProxyTransferClient → ProxyStream → ProxyChannel → VolumeChunk → Answer × ProxyChannel
exchange c s ch chunk =
    let (arrived, ch') = to_target ch (send_chunk s chunk) in
    let (back, ch'') = all_to_source ch' (replies c arrived) in ((recv (map arrives back)).0, ch'')

abbrev pub exchanges :
    ProxyTransferClient → ProxyStream → ProxyChannel → List VolumeChunk → List Answer × ProxyChannel
exchanges c s ch [] = ([], ch)
exchanges c s ch (chunk ∷ chunks) =
    let (a, ch') = exchange c s ch chunk in
    let (rest, ch'') = exchanges c s ch' chunks in (a ∷ rest, ch'')

-- The messages of a closing client.
abbrev pub all_to_target : ProxyChannel → List ProxyData → ProxyChannel
all_to_target ch [] = ch
all_to_target ch (msg ∷ msgs) = all_to_target (to_target ch msg).1 msgs

abbrev pub success_at : VolumeChunk → Answer
success_at chunk = acks (record { offset = chunk.offset; success = true; error = ""; progress = 0 })

abbrev pub total_length : List VolumeChunk → ℕ
total_length [] = 0
total_length (chunk ∷ chunks) = length chunk.contents + total_length chunks

-- A channel whose two loops relay.
abbrev pub relays : ProxyChannel → ℕ → ProxyChannel
relays ch n = record ch { bytes_relayed = n; cancelled = false; relay = running true true }

exchange_lem :
    (c : ProxyTransferClient) (s : ProxyStream) (ch : ProxyChannel) (n : ℕ) (chunk : VolumeChunk)
    → exchange c s (relays ch n) chunk ≡ (success_at chunk, relays ch (n + length chunk.contents))
unfolding source_round target_round relay_round data_size send_chunk answer recv
exchange_lem c s ch n chunk = refl

exchanges_lem :
    (c : ProxyTransferClient) (s : ProxyStream) (ch : ProxyChannel) (n : ℕ)
    (chunks : List VolumeChunk)
    → exchanges c s (relays ch n) chunks
      ≡ (map success_at chunks, relays ch (n + total_length chunks))
exchanges_lem c s ch n [] = let zero : n ≡ n + 0 = omega arith in ap (λ k. ([], relays ch k)) zero
exchanges_lem c s ch n (chunk ∷ chunks) =
    let m = length chunk.contents in
    let assoc : n + m + total_length chunks ≡ n + (m + total_length chunks) = omega arith in
    let first = exchange_lem c s ch n chunk in
    let rest = exchanges_lem c s ch (n + m) chunks in
    ap
      (λ (out : Answer × ProxyChannel).
        let (answers, ch') = exchanges c s out.1 chunks in (out.0 ∷ answers, ch'))
      first
    ∙ ap (λ (out : List Answer × ProxyChannel). (success_at chunk ∷ out.0, out.1)) rest
    ∙ ap (λ k. (map success_at (chunk ∷ chunks), relays ch k)) assoc

live-relays :
    (ch : ProxyChannel)
    → ch.cancelled ≡ false
    → ch.relay ≡ running true true
    → ch ≡ relays ch ch.bytes_relayed
live-relays ch live both =
    ap (λ r. record ch { relay = r }) both
    ∙ ap (λ b. record ch { relay = running true true; cancelled = b }) live

closing_cancels :
    (c : ProxyTransferClient) (ch : ProxyChannel) (n : ℕ)
    → c.closed ≡ false
    → (all_to_target (relays ch n) (close_client c).1).cancelled ≡ true
unfolding close_client source_round relay_round
closing_cancels c ch n live = rw (close_client, live) refl

-- A client that is not closed opens a stream on a channel whose two loops relay, and sends chunks on it,
-- taking the answer to each before it sends the next. If no Send fails and nothing else comes in between,
-- each chunk gets its answer from the target, at its offset and as a success, whatever its data and
-- checksum are; the channel counts the bytes of all of them and stays live. Only the close of the
-- client, after the last answer, cancels the channel.
pub chunks_acknowledged :
    (c : ProxyTransferClient) (ch : ProxyChannel) (chunks : List VolumeChunk)
    → c.closed ≡ false
    → ch.cancelled ≡ false
    → ch.relay ≡ running true true
    → (s : ProxyStream) × (open_stream c ≡ opens s)
      × (let (answers, ch') = exchanges c s ch chunks in
          (answers ≡ map success_at chunks)
          × (ch'.bytes_relayed ≡ ch.bytes_relayed + total_length chunks)
          × (ch'.cancelled ≡ false)
          × ((all_to_target ch' (close_client c).1).cancelled ≡ true))
unfolding open_stream
chunks_acknowledged c ch chunks unclosed live both =
    let s : ProxyStream = record { migration_id = c.migration_id; worker_id = c.worker_id } in
    let n = ch.bytes_relayed in
    let out =
      ap (λ ch'. exchanges c s ch' chunks) (live-relays ch live both)
      ∙ exchanges_lem c s ch n chunks in
    let end = ap (λ (o : List Answer × ProxyChannel). o.1) out in
    (
      s,
      rw (open_stream, unclosed) refl,
      (
        ap (λ (o : List Answer × ProxyChannel). o.0) out,
        ap (λ (e : ProxyChannel). e.bytes_relayed) end,
        ap (λ (e : ProxyChannel). e.cancelled) end,
        ap (λ e. (all_to_target e (close_client c).1).cancelled) end
            ∙ closing_cancels c ch (n + total_length chunks) unclosed,
      ),
    )
