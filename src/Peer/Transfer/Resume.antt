-- ===== src/Peer/Transfer/Resume.antt =====
-- internal/peer/transfer.go: stopping a transfer and going on with it.
use text.Mathlib.TextLemmas.{append_cancel_left}
use dockation.Prelude.{
  ℕ, String, ◌≡◌, ◌≢◌, refl, sym, ◌∙◌, Bool, true, false, none, some, inl, inr, Option-cases,
}
use dockation.Prelude.Decimal.{decimal-injective}
use dockation.Prelude.Dict.{
  lookup, insert, lookup-insert_self, lookup-insert_eq, lookup-insert_ne, lookup-delete_eq,
  lookup-delete_ne,
}
use dockation.Peer.Transfer.{
  Transfer, TransferManager, TransferType, created, pending, paused, completed, failed,
  new_transfer, generate_transfer_id, resume_transfer, create_transfer, save_checkpoint,
  on_transfer, complete_transfer, fail_transfer, cancel_transfer, get_transfer, transfer_not_found,
}

-- What a pause and a resume leave alone.
abbrev pub SameProgress : Transfer → Transfer → Type 0
SameProgress a b =
    (a.id ≡ b.id)
    × (a.source_id ≡ b.source_id)
    × (a.dest_peer ≡ b.dest_peer)
    × (a.total_bytes ≡ b.total_bytes)
    × (a.transferred_bytes ≡ b.transferred_bytes)
    × (a.chunk_size ≡ b.chunk_size)
    × (a.checkpoints ≡ b.checkpoints)

cancelled_state :
    (tm : TransferManager) (id : String) (t : Transfer) (now : ℕ)
    → get_transfer tm id ≡ some t
    → cancel_transfer tm id true now ≡ (
      none,
      record {
        active_transfers =
            insert id (record t { status = paused; last_checkpoint = now }) tm.active_transfers;
        files = insert t.id (record t { status = paused }) tm.files;
        cancelled = insert id true tm.cancelled;
      },
    )
unfolding get_transfer cancel_transfer
cancelled_state tm id t now e = rw (e, on_transfer) refl

-- A transfer that is cancelled while its checkpoint can be saved, and then resumed while the file
-- can be read, is pending again, with the progress that it had: its bytes, its checkpoints and its
-- chunk size; and its context is no longer cancelled.
pub resume-cancel :
    (tm : TransferManager) (id : String) (t : Transfer) (now later : ℕ)
    → get_transfer tm id ≡ some t
    → t.id ≡ id
    → (t' : Transfer) × (let tm' = (cancel_transfer tm id true now).1 in
        let (u, tm'') = resume_transfer tm' t' true later in
        (get_transfer tm' id ≡ some t')
        × (t'.status ≡ paused)
        × SameProgress u t
        × (u.status ≡ pending)
        × (get_transfer tm'' id ≡ some u)
        × (lookup id tm''.cancelled ≡ none))
unfolding resume_transfer get_transfer
resume-cancel tm id t now later e named =
    let t' = record t { status = paused; last_checkpoint = now } in
    (
      t',
      rw
          (
            cancelled_state tm id t now e,
            lookup-insert_self t.id (record t { status = paused }) tm.files,
          )
          (
            lookup-insert_self id _ tm.active_transfers,
            refl,
            (refl, refl, refl, refl, refl, refl, refl),
            refl,
            lookup-insert_eq t.id id _ _ named,
            lookup-delete_eq t.id id _ named,
          ),
    )

-- How completing and failing a transfer end.
pub data EndCase (tm : TransferManager) (id error : String) (can_save : Bool) (now : ℕ)
    : Type 0 where
  unknown :
      get_transfer tm id ≡ none
      → complete_transfer tm id can_save now ≡ (some (transfer_not_found id), tm)
      → fail_transfer tm id error can_save now ≡ (some (transfer_not_found id), tm)
      → EndCase tm id error can_save now
  known :
      (t : Transfer)
      → get_transfer tm id ≡ some t
      → ((u : Transfer) × (get_transfer (complete_transfer tm id can_save now).1 id ≡ some u)
          × (u.status ≡ completed))
      → lookup id (complete_transfer tm id can_save now).1.files ≡ none
      → ((k : String)
          → k ≢ id
          → lookup k (complete_transfer tm id can_save now).1.files ≡ lookup k tm.files)
      → ((u : Transfer) × (get_transfer (fail_transfer tm id error can_save now).1 id ≡ some u)
          × (u.status ≡ failed)
          × (u.error ≡ error))
      → (can_save ≡ true
          → lookup id (fail_transfer tm id error can_save now).1.files
            ≡ some (record t { status = failed; error = error }))
      → EndCase tm id error can_save now

pub known_ends :
    (tm : TransferManager) (id error : String) (t : Transfer) (can_save : Bool) (now : ℕ)
    → get_transfer tm id ≡ some t
    → t.id ≡ id
    → EndCase tm id error can_save now
unfolding get_transfer complete_transfer fail_transfer save_checkpoint
known_ends tm id error t true now e named =
    known t e (rw (e, on_transfer) (_, lookup-insert_self id _ _, refl))
      (rw (e, on_transfer) (lookup-delete_eq id id _ refl))
      (λ k ne.
        rw (e, on_transfer)
          (lookup-delete_ne id k _ ne
            ∙ lookup-insert_ne t.id k _ tm.files (λ same. ne (same ∙ named))))
      (rw (e, on_transfer) (_, lookup-insert_self id _ _, refl, refl))
      (λ h. rw (e, on_transfer) (lookup-insert_eq t.id id _ tm.files named))
known_ends tm id error t false now e named =
    known t e (rw (e, on_transfer) (_, lookup-insert_self id _ _, refl))
      (rw (e, on_transfer) (lookup-delete_eq id id _ refl))
      (λ k ne. rw (e, on_transfer) (lookup-delete_ne id k _ ne))
      (rw (e, on_transfer) (_, lookup-insert_self id _ _, refl, refl)) (λ h. cc)

-- Completing a known transfer marks it completed and leaves no checkpoint file for it, whether or not
-- the last save succeeds, and no other file changes. Failing it marks it failed with the error, and
-- keeps its file, so marked, where the save succeeds. Either reports an unknown transfer, and then
-- changes nothing. The transfers stand under their own IDs.
pub transfer_ends :
    (tm : TransferManager) (id error : String) (can_save : Bool) (now : ℕ)
    → ((t : Transfer) → get_transfer tm id ≡ some t → t.id ≡ id)
    → EndCase tm id error can_save now
unfolding get_transfer complete_transfer fail_transfer
transfer_ends tm id error can_save now named = elim (Option-cases (lookup id tm.active_transfers)) [
  | inl e ↦ unknown e (rw (e, on_transfer) refl) (rw (e, on_transfer) refl)
  | inr (t, e) ↦ known_ends tm id error t can_save now e (named t e)
]

module _ (digest : String → String) (injective : (a b : String) → digest a ≡ digest b → a ≡ b) where
  generate_transfer_id-injective :
      (k : TransferType) (source : String) (n1 n2 : ℕ)
      → generate_transfer_id digest k source n1 ≡ generate_transfer_id digest k source n2
      → n1 ≡ n2
  unfolding generate_transfer_id
  generate_transfer_id-injective k source n1 n2 e = decimal-injective n1 n2 (
      append_cancel_left "-" _ _ (
        append_cancel_left source _ _ (
          append_cancel_left "-" _ _
            (append_cancel_left _ _ _ (injective _ _ (append_cancel_left "transfer-" _ _ e))))))

  -- A transfer is never taken up again by asking for it later: where the manager has one transfer,
  -- made for a source, asking for the same source at another time makes a new transfer from byte 0
  -- with another ID, also if the first is paused with a checkpoint; the digests do not collide.
  pub create_transfer_later :
      (tm : TransferManager) (k : TransferType) (source dest : String) (total : ℕ) (readable : Bool)
      (n1 n2 : ℕ)
      → n1 ≢ n2
      → ((id : String) → id ≢ generate_transfer_id digest k source n1 → get_transfer tm id ≡ none)
      → (create_transfer digest tm k source dest total readable n2).0
        ≡ created (new_transfer (generate_transfer_id digest k source n2) k source dest total n2)
  unfolding create_transfer get_transfer
  create_transfer_later tm k source dest total readable n1 n2 ne only =
      let other =
        only (generate_transfer_id digest k source n2)
          (λ e. ne (sym (generate_transfer_id-injective k source n2 n1 e))) in
      rw (other, create_transfer) refl
