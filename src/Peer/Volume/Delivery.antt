-- ===== src/Peer/Volume/Delivery.antt =====
-- internal/peer/grpc.go: what SendVolume's loop leaves at the receiver.
use mathlib.Core.List.{append-nil, append_assoc}
use dockation.Prelude.{
  ℕ, zero, suc, ◌+◌, ◌≤◌, ◌<◌, String, ◌≡◌, refl, ap, sym, ◌∙◌, Bool, true, false, none, List, [],
  ◌++◌, arith, length, length-append,
}
use dockation.Peer.Chunks.{Chunk, Accept, ChunkReader, ChunkWriter, chunk, read_chunk, write_chunk}
use dockation.Peer.Chunks.Reading.{ReadCase, whole, final, at_end, broken, read_chunk_lem}
use dockation.Peer.Chunks.Writing.{advanced, write_chunk_iff}
use dockation.Peer.Transfer.{TransferManager}
use dockation.Peer.Volume.{
  VolumeChunk, Receiver, acknowledged, first_chunk, to_message, receive_chunk, SendResult, sent,
  Session, checkpointed, after_reply, after_read, send_loop,
}

-- The io.Writer takes all that it is given.
abbrev pub TakesAll : Accept → Type 0
TakesAll accept = (old new : List ℕ) → accept old new ≡ (length new, none)

-- The two sides agree where the stream is, and the sender's stream will end in EOF.
abbrev pub InStep : Session → Type 0
InStep s =
    (0 < s.source.chunk_size)
    × (s.source.reader.failure ≡ none)
    × (s.source.offset ≡ s.receiver.writer.expected_offset)

-- The receiver's writer has taken `contents` since it was `old`.
abbrev pub HasTaken : List ℕ → Receiver → Receiver → Type 0
HasTaken contents old r =
    (r.writer.written ≡ old.writer.written ++ contents)
    × (r.writer.expected_offset ≡ old.writer.expected_offset + length contents)
    × (r.received_bytes ≡ old.received_bytes + length contents)

read_eq :
    (checksum : List ℕ → String) (cr : ChunkReader) (c : Chunk)
    → (read_chunk checksum cr).0 ≡ chunk c
    → read_chunk checksum cr ≡ (chunk c, (read_chunk checksum cr).1)
read_eq checksum cr c e i = (e i, (read_chunk checksum cr).1)

taken_nothing : (xs : List ℕ) (r : Receiver) → xs ≡ [] → HasTaken xs r r
taken_nothing xs r e = rw e (sym (append-nil r.writer.written), omega arith, omega arith)

taken_more :
    (xs ys zs : List ℕ) (r r' r'' : Receiver)
    → zs ≡ xs ++ ys
    → HasTaken xs r r'
    → HasTaken ys r' r''
    → HasTaken zs r r''
taken_more xs ys zs r r' r'' e h k = (
  k.0
      ∙ (ap (λ w. w ++ ys) h.0
          ∙ (append_assoc r.writer.written xs ys ∙ ap (λ w. r.writer.written ++ w) (sym e))),
  rw e (omega (arith, h.1, k.1, length-append xs ys)),
  rw e (omega (arith, h.2, k.2, length-append xs ys)),
)

first_chunk_writer :
    (r : Receiver) (c : VolumeChunk)
    → ((first_chunk r c).writer ≡ r.writer) × ((first_chunk r c).received_bytes ≡ r.received_bytes)
unfolding first_chunk
first_chunk_writer r c = ground arith

module _ (checksum : List ℕ → String) (accept : Accept) (takes_all : TakesAll accept) where
  -- A round in which the chunk continues the stream.
  write_next :
      (w : ChunkWriter) (c : Chunk)
      → c.offset ≡ w.expected_offset
      → checksum c.contents ≡ c.checksum
      → write_chunk checksum accept w c ≡ (none, advanced checksum accept w c)
  write_next w c here sum =
      (write_chunk_iff checksum accept w (advanced checksum accept w c) c).1
        ((here, sum), takes_all w.written c.contents, refl)

  receive_next :
      (volume_id : String) (total : ℕ) (c : Chunk) (r : Receiver)
      → c.offset ≡ r.writer.expected_offset
      → checksum c.contents ≡ c.checksum
      → (r' : Receiver) × (receive_chunk checksum accept r (to_message volume_id total c)
          ≡ (acknowledged (c.offset + length c.contents), r'))
        × HasTaken c.contents r r'
  unfolding receive_chunk
  receive_next volume_id total c r here sum =
      let m = to_message volume_id total c in
      let f = first_chunk r m in
      let (e, n) = first_chunk_writer r m in
      let c' = record c { size = length c.contents } in
      let r' = record f {
        writer = advanced checksum accept f.writer c';
        received_bytes = f.received_bytes + length c.contents;
      } in
      (
        r',
        rw (write_next f.writer c' (here ∙ sym (ap (λ w. w.expected_offset) e)) sum) refl,
        (
          ap (λ w. w.written ++ c.contents) e,
          ap (λ w. w.expected_offset + length c.contents) e,
          ap (λ n. n + length c.contents) n,
        ),
      )

-- A run that ends well: all that was left to read has been taken.
abbrev pub Delivers : Session → SendResult × Session → Type 0
Delivers s out = (out.0 ≡ sent) × HasTaken s.source.reader.rest s.receiver out.1.receiver

module _ (checksum : List ℕ → String) (accept : Accept) (takes_all : TakesAll accept)
    (can_save : Bool) (clock : ℕ → ℕ) (id volume_id : String) (total : ℕ) where
  last_reply :
      (c : Chunk) (source : ChunkReader) (tm : TransferManager)
      (continue : Session → SendResult × Session) (n : ℕ) (r : Receiver)
      → c.is_final ≡ true
      → after_reply checksum accept can_save clock id volume_id total c source tm continue
          (acknowledged n, r)
        ≡ (sent, checkpointed checksum accept can_save clock id volume_id total c source r tm)
  unfolding after_reply
  last_reply c source tm continue n r last = rw last refl

  round_final :
      (s : Session) (continue : Session → SendResult × Session) (c : Chunk)
      → InStep s
      → (read_chunk checksum s.source).0 ≡ chunk c
      → c.offset ≡ s.source.offset
      → checksum c.contents ≡ c.checksum
      → c.is_final ≡ true
      → c.contents ≡ s.source.reader.rest
      → Delivers s (
          after_read checksum accept can_save clock id volume_id total s continue
            (read_chunk checksum s.source))
  unfolding after_read
  round_final s continue c inv e here sum last all =
      let (r, reply, taken) =
        receive_next checksum accept takes_all volume_id total c s.receiver (here ∙ inv.2) sum in
      rw
        (
          read_eq checksum s.source c e,
          reply,
          last_reply c (read_chunk checksum s.source).1 s.manager continue
              (c.offset + length c.contents) r last,
        )
        (refl, rw (sym all) taken)

  round_more :
      (s : Session) (continue : Session → SendResult × Session) (c : Chunk)
      → InStep s
      → (read_chunk checksum s.source).0 ≡ chunk c
      → c.offset ≡ s.source.offset
      → checksum c.contents ≡ c.checksum
      → c.is_final ≡ false
      → (r : Receiver) × HasTaken c.contents s.receiver r
        × (after_read checksum accept can_save clock id volume_id total s continue
              (read_chunk checksum s.source)
            ≡ continue (
                checkpointed checksum accept can_save clock id volume_id total c
                  (read_chunk checksum s.source).1
                  r
                  s.manager))
  unfolding after_read after_reply
  round_more s continue c inv e here sum more =
      let (r, reply, taken) =
        receive_next checksum accept takes_all volume_id total c s.receiver (here ∙ inv.2) sum in
      (r, taken, rw (read_eq checksum s.source c e, reply, more) refl)

  step_result :
      (fuel : ℕ) (s : Session)
      → InStep s
      → length s.source.reader.rest ≤ fuel
      → ((s' : Session)
          → InStep s'
          → length s'.source.reader.rest < fuel
          → Delivers s' (send_loop checksum accept can_save clock id volume_id total fuel s'))
      → ReadCase checksum s.source (read_chunk checksum s.source)
      → Delivers s (send_loop checksum accept can_save clock id volume_id total (suc fuel) s)
  unfolding send_loop after_read
  step_result fuel s inv enough rest (at_end e f out) =
      rw out (refl, taken_nothing s.source.reader.rest s.receiver e)
  step_result fuel s inv enough rest (final b bs e short f out0 out1) =
      round_final s (send_loop checksum accept can_save clock id volume_id total fuel) _ inv out0
        refl refl refl (sym e)
  step_result fuel s inv enough rest (broken err f short out) = ground arith
  step_result fuel s inv enough rest (whole contents tail e size out0 out1) =
      let c : Chunk = record {
        offset = s.source.offset;
        contents = contents;
        checksum = checksum contents;
        size = length contents;
        is_final = false;
      } in
      let source = (read_chunk checksum s.source).1 in
      let (r, taken, step) =
        round_more s (send_loop checksum accept can_save clock id volume_id total fuel) c inv out0
          refl refl refl in
      let s' =
        checkpointed checksum accept can_save clock id volume_id total c source r s.manager in
      let left = ap (λ cr. cr.reader.rest) out1 in
      let size' = ap (λ cr. cr.chunk_size) out1 in
      let offset' = ap (λ cr. cr.offset) out1 in
      let ready : InStep s' = (
        omega (arith, size', inv.0),
        ap (λ cr. cr.reader.failure) out1 ∙ inv.1,
        omega (arith, offset', taken.1, inv.2),
      ) in
      let shorter : length source.reader.rest < fuel =
        omega
          (arith, ap length left, ap length e, length-append contents tail, size, inv.0, enough) in
      let done = rest s' ready shorter in
      rw step (
        done.0,
        taken_more contents source.reader.rest s.source.reader.rest s.receiver r
            (send_loop checksum accept can_save clock id volume_id total fuel s').1.receiver
            (e ∙ ap (λ w. contents ++ w) (sym left)) taken done.1,
      )

  -- Where the writer takes all that it is given, and both sides agree on the offset, SendVolume's loop
  -- ends with all that was left of the source: the receiver has appended exactly these bytes, and has
  -- counted them. Fuel above the number of bytes left is enough.
  pub send_loop-Delivers :
      (fuel : ℕ) (s : Session)
      → InStep s
      → length s.source.reader.rest < fuel
      → Delivers s (send_loop checksum accept can_save clock id volume_id total fuel s)
  send_loop-Delivers zero s inv enough = ground arith
  send_loop-Delivers (suc fuel) s inv enough =
      step_result fuel s inv (omega arith) (send_loop-Delivers fuel)
        (read_chunk_lem checksum s.source inv.0)
