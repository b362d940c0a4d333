-- ===== src/Peer/Volume/Known.antt =====
-- internal/peer/grpc.go: SendVolume's loop never loses the transfer that it sends.
use dockation.Prelude.{
  ℕ, zero, suc, ◌+◌, String, ◌≡◌, Bool, true, false, some, List, if◌then◌else◌, ◌==◌, ◌%◌,
  Bool-cases, inl, inr, length,
}
use dockation.Prelude.Dict.{lookup-insert_self}
use dockation.Peer.Chunks.{
  Chunk, Accept, ChunkReader, ReadResult, chunk, end_of_file, failed_read, read_chunk,
}
use dockation.Peer.Transfer.{
  Transfer, TransferManager, get_transfer, add_checkpoint, save_checkpoint, on_transfer,
  with_checkpoint, store, checkpoint_batch_size,
}
use dockation.Peer.Volume.{
  Receiver, Reply, acknowledged, rejected, SendResult, Session, checkpointed, after_reply,
  after_read, send_loop,
}

-- The manager has the transfer, under its own ID.
abbrev pub IsKnown : String → TransferManager → Type 0
IsKnown id tm = (t : Transfer) × (get_transfer tm id ≡ some t) × (t.id ≡ id)

store-IsKnown :
    (id : String) (p : Transfer × TransferManager) → p.0.id ≡ id → IsKnown id (store id p)
unfolding get_transfer
store-IsKnown id (t, tm) named = (t, lookup-insert_self id t tm.active_transfers, named)

branch-IsKnown :
    (id : String) (b can_save : Bool) (tm : TransferManager) (t : Transfer) (now : ℕ)
    → t.id ≡ id
    → IsKnown id (if b then store id (save_checkpoint tm t can_save now) else store id (t, tm))
unfolding save_checkpoint
branch-IsKnown id true true tm t now named = store-IsKnown id _ named
branch-IsKnown id true false tm t now named = store-IsKnown id (t, tm) named
branch-IsKnown id false can_save tm t now named = store-IsKnown id (t, tm) named

add_checkpoint-IsKnown :
    (tm : TransferManager) (id : String) (offset : ℕ) (sum : String) (can_save : Bool) (now : ℕ)
    → IsKnown id tm
    → IsKnown id (add_checkpoint tm id offset sum can_save now).1
unfolding add_checkpoint get_transfer
add_checkpoint-IsKnown tm id offset sum can_save now (t, e, named) =
    rw (e, on_transfer)
      (branch-IsKnown id
        (length (with_checkpoint offset sum now t).checkpoints % checkpoint_batch_size == 0)
        can_save tm (with_checkpoint offset sum now t) now named)

module _ (checksum : List ℕ → String) (accept : Accept) (can_save : Bool) (clock : ℕ → ℕ)
    (id volume_id : String) (total : ℕ) where
  after_reply-IsKnown :
      (c : Chunk) (source : ChunkReader) (tm : TransferManager)
      (continue : Session → SendResult × Session) (r : Reply × Receiver)
      → IsKnown id tm
      → ((s' : Session) → IsKnown id s'.manager → IsKnown id (continue s').1.manager)
      → IsKnown id
          (after_reply checksum accept can_save clock id volume_id total c source tm continue
            r).1.manager
  unfolding after_reply
  after_reply-IsKnown c source tm continue (rejected e, r) known next = known
  after_reply-IsKnown c source tm continue (acknowledged n, r) known next =
      let known' =
        add_checkpoint-IsKnown tm id (c.offset + c.size) c.checksum can_save (clock c.offset)
          known in
      elim (Bool-cases c.is_final) [
        | inl e ↦ rw e known'
        | inr e ↦ rw e (
            next (checkpointed checksum accept can_save clock id volume_id total c source r tm)
              known')
      ]

  after_read-IsKnown :
      (s : Session) (continue : Session → SendResult × Session) (r : ReadResult × ChunkReader)
      → IsKnown id s.manager
      → ((s' : Session) → IsKnown id s'.manager → IsKnown id (continue s').1.manager)
      → IsKnown id
          (after_read checksum accept can_save clock id volume_id total s continue r).1.manager
  unfolding after_read
  after_read-IsKnown s continue (end_of_file, source) known next = known
  after_read-IsKnown s continue (failed_read e, source) known next = known
  after_read-IsKnown s continue (chunk c, source) known next =
      after_reply-IsKnown c source s.manager continue _ known next

  pub send_loop-IsKnown :
      (fuel : ℕ) (s : Session)
      → IsKnown id s.manager
      → IsKnown id (send_loop checksum accept can_save clock id volume_id total fuel s).1.manager
  unfolding send_loop
  send_loop-IsKnown zero s known = known
  send_loop-IsKnown (suc fuel) s known =
      after_read-IsKnown s (send_loop checksum accept can_save clock id volume_id total fuel)
        (read_chunk checksum s.source) known (send_loop-IsKnown fuel)
