-- ===== src/Peer/Tests.antt =====
-- internal/peer/transfer.go and grpc.go: the theorems at concrete streams and transfers.
use dockation.Prelude.{
  ℕ, String, ◌≡◌, ◌≢◌, refl, true, false, none, some, List, [], ◌∷◌, arith, length, eq_iff,
}
use dockation.Prelude.Decimal.{decimal}
use dockation.Prelude.Dict.{lookup}
use dockation.Peer.Chunks.{Chunk, Reader, ChunkReader, Accept, ChunkWriter, default_chunk_size}
use dockation.Peer.Transfer.{
  Transfer, TransferManager, TransferStatus, active, paused, pending, volume, generate_transfer_id,
  new_transfer_manager, cancel_transfer, resume_transfer, get_transfer, type_string,
}
use dockation.Peer.Transfer.Progress.{
  Inv, Call, creates, checkpoints, cancels, run, run-Inv, new_transfer_manager-Inv,
}
use dockation.Peer.Transfer.Resume.{SameProgress, resume-cancel}
use dockation.Peer.Volume.{sent, send_volume}
use dockation.Peer.Volume.Complete.{IsCompleted, send_volume_delivers}

-- A checksum for the examples.
abbrev sum : List ℕ → String
sum [] = ""
sum (b ∷ bs) = "x"

abbrev whole : Accept
whole old new = (length new, none)

abbrev stream : List ℕ → Reader
stream bs = record { rest = bs; failure = none }

abbrev reader : ChunkReader
reader = record { reader = stream (1 ∷ 2 ∷ 3 ∷ []); chunk_size = 2; offset = 0; total_size = 3 }

abbrev writer : ChunkWriter
writer = record { written = 9 ∷ []; offset = 1; expected_offset = 1 }

abbrev piece : ℕ → String → Chunk
piece offset checksum = record {
  offset = offset;
  contents = 1 ∷ 2 ∷ [];
  checksum = checksum;
  size = 2;
  is_final = false;
}

abbrev transfer : TransferStatus → Transfer
transfer status = record {
  id = "t-1";
  transfer_type = volume;
  source_id = "data";
  dest_peer = "peer";
  total_bytes = 10;
  transferred_bytes = 4;
  chunk_size = default_chunk_size;
  start_time = 1;
  last_chunk_time = 2;
  last_checkpoint = 2;
  checkpoints = record { offset = 4; checksum = "x"; timestamp = 2; verified = true } ∷ [];
  status = status;
  error = "";
}

abbrev manager : TransferManager
manager = record { active_transfers = ("t-1", transfer active) ∷ []; files = []; cancelled = [] }

stored : get_transfer manager "t-1" ≡ some (transfer active)
unfolding get_transfer lookup
stored = refl

named : (t : Transfer) → get_transfer manager "t-1" ≡ some t → t.id ≡ "t-1"
unfolding get_transfer lookup
named t e = cc

-- A digest for the examples.
abbrev same : String → String
same s = s

abbrev calls : List (ℕ × Call)
calls =
    (1, creates volume "data" "peer" 10 true)
    ∷ (2, checkpoints "t-1" 4 "x" true)
    ∷ (3, cancels "t-1" true)
    ∷ []

run-Inv_example : Inv (run same (new_transfer_manager []) calls)
run-Inv_example = run-Inv same (new_transfer_manager []) calls new_transfer_manager-Inv

resume-cancel_example :
    (t' : Transfer) × (let tm' = (cancel_transfer manager "t-1" true 5).1 in
      let (u, tm'') = resume_transfer tm' t' true 6 in
      (get_transfer tm' "t-1" ≡ some t')
      × (t'.status ≡ paused)
      × SameProgress u (transfer active)
      × (u.status ≡ pending)
      × (get_transfer tm'' "t-1" ≡ some u)
      × (lookup "t-1" tm''.cancelled ≡ none))
resume-cancel_example = resume-cancel manager "t-1" (transfer active) 5 6 stored refl

abbrev paused_manager : TransferManager
paused_manager = record {
  active_transfers =
      (
        generate_transfer_id same volume "data" 1,
        record (transfer paused) { id = generate_transfer_id same volume "data" 1 },
      )
      ∷ [];
  files = [];
  cancelled = [];
}

only_one :
    (id : String)
    → id ≢ generate_transfer_id same volume "data" 1
    → get_transfer paused_manager id ≡ none
unfolding get_transfer lookup
only_one id ne = ground (arith, eq_iff (generate_transfer_id same volume "data" 1) id)

fresh : get_transfer manager (generate_transfer_id same volume "data" 7) ≡ none
unfolding get_transfer lookup generate_transfer_id type_string decimal
fresh = refl

send_volume_delivers_example :
    let out =
      send_volume sum whole true
        (λ n. n)
        same
        4
        manager
        "data"
        (stream (1 ∷ 2 ∷ 3 ∷ []))
        3
        true
        7 in
    (out.0 ≡ sent)
    × (out.1.receiver.writer.written ≡ 1 ∷ 2 ∷ 3 ∷ [])
    × (out.1.receiver.received_bytes ≡ 3)
    × IsCompleted (generate_transfer_id same volume "data" 7) out.1.manager
send_volume_delivers_example =
    send_volume_delivers sum whole true (λ n. n) same 4 manager "data" (stream (1 ∷ 2 ∷ 3 ∷ [])) 3
      true 7 (λ old new. refl) refl fresh (omega arith)
