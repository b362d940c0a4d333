-- ===== src/Peer/Volume/Complete.antt =====
-- internal/peer/grpc.go: what SendVolume leaves when it ends.
use dockation.Prelude.{ℕ, ◌<◌, String, ◌≡◌, refl, ap, ◌∙◌, Bool, none, some, List, arith, length}
use dockation.Prelude.Dict.{lookup, insert, lookup-insert_self}
use dockation.Peer.Chunks.{Accept, Reader, new_chunk_reader, new_chunk_writer}
use dockation.Peer.Chunks.Reading.{new_chunk_reader_bounds}
use dockation.Peer.Transfer.{
  created, Transfer, TransferManager, volume, completed, active, get_transfer, create_transfer,
  generate_transfer_id, new_transfer, complete_transfer, dynamic_chunk_size,
}
use dockation.Peer.Transfer.Resume.{known_ends, EndCase, known, unknown}
use dockation.Peer.Volume.{
  Session, SendResult, sent, new_receiver, finish, send_loop, send_volume, activated, start_loop,
}
use dockation.Peer.Volume.Delivery.{TakesAll, InStep, send_loop-Delivers}
use dockation.Peer.Volume.Known.{IsKnown, send_loop-IsKnown}

-- The transfer is marked completed, and no checkpoint file of it is left.
abbrev pub IsCompleted : String → TransferManager → Type 0
IsCompleted id tm =
    ((t : Transfer) × (get_transfer tm id ≡ some t) × (t.status ≡ completed))
    × (lookup id tm.files ≡ none)

known-IsCompleted :
    (tm : TransferManager) (id : String) (can_save : Bool) (now : ℕ)
    → IsKnown id tm
    → EndCase tm id "" can_save now
    → IsCompleted id (complete_transfer tm id can_save now).1
known-IsCompleted tm id can_save now (t, e, named) (unknown none_there done failed) = ground arith
known-IsCompleted tm id can_save now it (known t e done no_file others failed kept) =
    (done, no_file)

module _ (checksum : List ℕ → String) (accept : Accept) (can_save : Bool) (clock : ℕ → ℕ)
    (id : String) (now : ℕ) where
  finish_sent :
      (out : SendResult × Session)
      → out.0 ≡ sent
      → IsKnown id out.1.manager
      → (let out' = finish checksum accept can_save clock id now out in
          (out'.0 ≡ sent) × (out'.1.receiver ≡ out.1.receiver) × IsCompleted id out'.1.manager)
  unfolding finish
  finish_sent (r, s) e (t, there, named) = rw e (
    refl,
    refl,
    known-IsCompleted s.manager id can_save now (t, there, named)
        (known_ends s.manager id "" t can_save now there named),
  )

module _ (checksum : List ℕ → String) (accept : Accept) (takes_all : TakesAll accept)
    (can_save : Bool) (clock : ℕ → ℕ) (fuel : ℕ) (volume_id : String) (reader : Reader)
    (total now : ℕ) (t : Transfer) (tm : TransferManager) where
  start_loop_lem :
      reader.failure ≡ none
      → length reader.rest < fuel
      → (let out =
            start_loop checksum accept can_save clock fuel volume_id reader total now
              (created t, tm) in
          (out.0 ≡ sent)
          × (out.1.receiver.writer.written ≡ reader.rest)
          × (out.1.receiver.received_bytes ≡ length reader.rest)
          × IsCompleted t.id out.1.manager)
  unfolding new_receiver new_chunk_reader new_chunk_writer get_transfer
  start_loop_lem ends enough =
      let cr = new_chunk_reader reader (dynamic_chunk_size t) total in
      let s : Session = record {
        source = cr;
        receiver = new_receiver;
        manager = activated checksum accept can_save clock t tm;
      } in
      let bounds = new_chunk_reader_bounds reader (dynamic_chunk_size t) total in
      let ready : InStep s = (omega (arith, bounds.0), ends, refl) in
      let done =
        send_loop-Delivers checksum accept takes_all can_save clock t.id volume_id total fuel s
          ready enough in
      let stands : IsKnown t.id s.manager =
        (record t { status = active }, lookup-insert_self t.id _ tm.active_transfers, refl) in
      let out = send_loop checksum accept can_save clock t.id volume_id total fuel s in
      let left =
        send_loop-IsKnown checksum accept can_save clock t.id volume_id total fuel s stands in
      let end = finish_sent checksum accept can_save clock t.id now out done.0 left in
      (
        end.0,
        ap (λ r. r.writer.written) end.1 ∙ done.1.0,
        omega (arith, ap (λ r. r.received_bytes) end.1, done.1.2),
        end.2,
      )

-- SendVolume with a transfer ID that is new ends without an error where the source ends in EOF and the
-- receiving writer takes all that it is given: the receiver's file is then the source, byte for byte,
-- all of it has been counted, and the sender's transfer is completed without a checkpoint file. Fuel
-- above the number of bytes is enough.
pub send_volume_delivers :
    (checksum : List ℕ → String) (accept : Accept) (can_save : Bool) (clock : ℕ → ℕ)
    (digest : String → String) (fuel : ℕ) (tm : TransferManager) (volume_id : String)
    (reader : Reader) (total : ℕ) (readable : Bool) (now : ℕ)
    → TakesAll accept
    → reader.failure ≡ none
    → get_transfer tm (generate_transfer_id digest volume volume_id now) ≡ none
    → length reader.rest < fuel
    → (let out =
          send_volume checksum accept can_save clock digest fuel tm volume_id reader total readable
            now in
        (out.0 ≡ sent)
        × (out.1.receiver.writer.written ≡ reader.rest)
        × (out.1.receiver.received_bytes ≡ length reader.rest)
        × IsCompleted (generate_transfer_id digest volume volume_id now) out.1.manager)
unfolding send_volume create_transfer get_transfer new_transfer
send_volume_delivers checksum accept can_save clock digest fuel tm volume_id reader total readable
      now takes_all ends fresh enough =
    let id = generate_transfer_id digest volume volume_id now in
    let t = new_transfer id volume volume_id "peer" total now in
    rw (send_volume, create_transfer, fresh)
      (start_loop_lem checksum accept takes_all can_save clock fuel volume_id reader total now t
        (record tm { active_transfers = insert id t tm.active_transfers }) ends enough)
