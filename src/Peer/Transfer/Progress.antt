-- ===== src/Peer/Transfer/Progress.antt =====
-- internal/peer/transfer.go: the bytes that a transfer counts are the offset of its last checkpoint,
-- in the manager and in every file, through all calls.
use dockation.Prelude.{
  ℕ, ◌%◌, String, ◌≡◌, refl, sym, Bool, true, false, Option, none, some, List, [], ◌∷◌, ◌++◌, inl,
  inr, arith, str_eq, eq_iff, ◌==◌, length, Option-cases, Bool-cases,
}
use dockation.Prelude.Dict.{Dict, lookup, insert, delete, lookup-insert, lookup-delete}
use dockation.Peer.Transfer.{
  Transfer, TransferManager, TransferType, TransferStatus, Checkpoint, pending, active, paused,
  completed, failed, new_transfer_manager, generate_transfer_id, restored, resume_transfer,
  create_transfer, create_existing, save_checkpoint, store, with_checkpoint, on_transfer,
  add_checkpoint, complete_transfer, fail_transfer, cancel_transfer, checkpoint_batch_size,
}

-- The offset of the last checkpoint, or 0.
abbrev pub last_offset : ℕ → List Checkpoint → ℕ
last_offset n [] = n
last_offset n (c ∷ cs) = last_offset c.offset cs

abbrev pub IsConsistent : String → Transfer → Type 0
IsConsistent id t = (t.id ≡ id) × (t.transferred_bytes ≡ last_offset 0 t.checkpoints)

abbrev pub AllConsistent : Dict Transfer → Type 0
AllConsistent m = (k : String) (t : Transfer) → lookup k m ≡ some t → IsConsistent k t

pub record Inv (tm : TransferManager) : Type 0 where
  pub running : AllConsistent tm.active_transfers
  pub saved : AllConsistent tm.files

last_offset-snoc :
    (n : ℕ) (cs : List Checkpoint) (c : Checkpoint) → last_offset n (cs ++ c ∷ []) ≡ c.offset
last_offset-snoc n [] c = refl
last_offset-snoc n (d ∷ cs) c = last_offset-snoc d.offset cs c

AllConsistent-insert :
    (id : String) (t : Transfer) (m : Dict Transfer)
    → AllConsistent m
    → IsConsistent id t
    → AllConsistent (insert id t m)
AllConsistent-insert id t m all h k s e = elim (Bool-cases (str_eq id k)) [
  | inl hit ↦
      let same : id ≡ k = (eq_iff id k).0 hit in
      let here : t ≡ s = ground (arith, lookup-insert id k t m) in rw (← here, ← same) h
  | inr miss ↦ all k s (ground (arith, lookup-insert id k t m))
]

AllConsistent-delete :
    (id : String) (m : Dict Transfer) → AllConsistent m → AllConsistent (delete id m)
AllConsistent-delete id m all k s e = all k s (ground (arith, lookup-delete id k m))

store-Inv :
    (id : String) (t : Transfer) (tm : TransferManager)
    → Inv tm
    → IsConsistent id t
    → Inv (store id (t, tm))
store-Inv id t tm v h = record {
  running = AllConsistent-insert id t tm.active_transfers v.running h;
  saved = v.saved;
}

save-Inv :
    (id : String) (t : Transfer) (tm : TransferManager) (can_save : Bool) (now : ℕ)
    → Inv tm
    → IsConsistent id t
    → Inv (store id (save_checkpoint tm t can_save now))
unfolding save_checkpoint
save-Inv id t tm true now v h = record {
  running =
      AllConsistent-insert id (record t { last_checkpoint = now }) tm.active_transfers v.running h;
  saved = AllConsistent-insert t.id t tm.files v.saved (refl, h.1);
}
save-Inv id t tm false now v h = store-Inv id t tm v h

on_transfer-Inv :
    (id : String) (tm : TransferManager) (f : Transfer → TransferManager)
    → Inv tm
    → ((t : Transfer) → IsConsistent id t → Inv (f t))
    → Inv (on_transfer id tm f).1
on_transfer-Inv id tm f v keeps = elim (Option-cases (lookup id tm.active_transfers)) [
  | inl e ↦ rw (e, on_transfer) v
  | inr (t, e) ↦ rw (e, on_transfer) (keeps t (v.running id t e))
]

pub add_checkpoint-Inv :
    (tm : TransferManager) (id : String) (offset : ℕ) (checksum : String) (can_save : Bool)
    (now : ℕ)
    → Inv tm
    → Inv (add_checkpoint tm id offset checksum can_save now).1
unfolding add_checkpoint
add_checkpoint-Inv tm id offset checksum can_save now v = on_transfer-Inv id tm _ v λ t h.
    let t' = with_checkpoint offset checksum now t in
    let ok : IsConsistent id t' = (h.0, sym (last_offset-snoc 0 t.checkpoints _)) in
    elim (Bool-cases (length t'.checkpoints % checkpoint_batch_size == 0)) [
      | inl full ↦ rw full (save-Inv id t' tm can_save now v ok)
      | inr part ↦ rw part (store-Inv id t' tm v ok)
    ]

pub complete_transfer-Inv :
    (tm : TransferManager) (id : String) (can_save : Bool) (now : ℕ)
    → Inv tm
    → Inv (complete_transfer tm id can_save now).1
unfolding complete_transfer
complete_transfer-Inv tm id can_save now v = on_transfer-Inv id tm _ v λ t h.
    let w = save-Inv id (record t { status = completed }) tm can_save now v h in
    record { running = w.running; saved = AllConsistent-delete id _ w.saved }

pub fail_transfer-Inv :
    (tm : TransferManager) (id error : String) (can_save : Bool) (now : ℕ)
    → Inv tm
    → Inv (fail_transfer tm id error can_save now).1
unfolding fail_transfer
fail_transfer-Inv tm id error can_save now v =
    on_transfer-Inv id tm _ v
      λ t h. save-Inv id (record t { status = failed; error = error }) tm can_save now v h

pub cancel_transfer-Inv :
    (tm : TransferManager) (id : String) (can_save : Bool) (now : ℕ)
    → Inv tm
    → Inv (cancel_transfer tm id can_save now).1
unfolding cancel_transfer
cancel_transfer-Inv tm id can_save now v = on_transfer-Inv id tm _ v λ t h.
    save-Inv id (record t { status = paused })
      (record tm { cancelled = insert id true tm.cancelled }) can_save now
      (record { running = v.running; saved = v.saved }) h

restored-Consistent :
    (readable : Bool) (o : Option Transfer) (id : String) (t : Transfer)
    → IsConsistent id t
    → ((s : Transfer) → o ≡ some s → IsConsistent id s)
    → IsConsistent id (restored readable o t)
restored-Consistent readable none id t h k = h
restored-Consistent true (some s) id t h k = k s refl
restored-Consistent false (some s) id t h k = (h.0, refl)

resume_transfer-Inv :
    (tm : TransferManager) (id : String) (t : Transfer) (readable : Bool) (now : ℕ)
    → Inv tm
    → IsConsistent id t
    → Inv (resume_transfer tm t readable now).1
unfolding resume_transfer
resume_transfer-Inv tm id t readable now v h =
    let saved = lookup t.id tm.files in
    let c = restored-Consistent readable saved t.id t (refl, h.1) (v.saved t.id) in
    record {
      running =
          AllConsistent-insert t.id
            (record (restored readable saved t) { status = pending; last_chunk_time = now })
            tm.active_transfers v.running c;
      saved = v.saved;
    }

create_existing-Inv :
    (tm : TransferManager) (id : String) (t : Transfer) (s : TransferStatus) (readable : Bool)
    (now : ℕ)
    → Inv tm
    → IsConsistent id t
    → Inv (create_existing tm t s readable now).1
create_existing-Inv tm id t active readable now v h = v
create_existing-Inv tm id t completed readable now v h = v
create_existing-Inv tm id t _ readable now v h = resume_transfer-Inv tm id t readable now v h

module _ (digest : String → String) where
  create_transfer-Inv :
      (tm : TransferManager) (transfer_type : TransferType) (source_id dest_peer : String)
      (total : ℕ) (readable : Bool) (now : ℕ)
      → Inv tm
      → Inv (create_transfer digest tm transfer_type source_id dest_peer total readable now).1
  unfolding create_transfer
  create_transfer-Inv tm transfer_type source_id dest_peer total readable now v =
      let id = generate_transfer_id digest transfer_type source_id now in
      elim (Option-cases (lookup id tm.active_transfers)) [
        | inl e ↦
            rw (e, create_transfer)
              (record {
                running = AllConsistent-insert id _ tm.active_transfers v.running (refl, refl);
                saved = v.saved;
              })
        | inr (t, e) ↦
            rw (e, create_transfer)
              (create_existing-Inv tm id t t.status readable now v (v.running id t e))
      ]

-- The calls that change the manager, each at its time, with what the disk does.
pub data Call : Type 0 where
  creates : TransferType → String → String → ℕ → Bool → Call
  checkpoints : String → ℕ → String → Bool → Call
  completes : String → Bool → Call
  fails : String → String → Bool → Call
  cancels : String → Bool → Call

unfoldable pub step : (String → String) → TransferManager → ℕ × Call → TransferManager
step digest tm (now, creates k s d n readable) = (create_transfer digest tm k s d n readable now).1
step digest tm (now, checkpoints id offset checksum can_save) =
    (add_checkpoint tm id offset checksum can_save now).1
step digest tm (now, completes id can_save) = (complete_transfer tm id can_save now).1
step digest tm (now, fails id error can_save) = (fail_transfer tm id error can_save now).1
step digest tm (now, cancels id can_save) = (cancel_transfer tm id can_save now).1

unfoldable pub run : (String → String) → TransferManager → List (ℕ × Call) → TransferManager
unfolding step
run digest tm [] = tm
run digest tm (c ∷ cs) = run digest (step digest tm c) cs

step-Inv :
    (digest : String → String) (tm : TransferManager) (c : ℕ × Call)
    → Inv tm
    → Inv (step digest tm c)
unfolding step
step-Inv digest tm (now, creates k s d n readable) v =
    create_transfer-Inv digest tm k s d n readable now v
step-Inv digest tm (now, checkpoints id offset checksum can_save) v =
    add_checkpoint-Inv tm id offset checksum can_save now v
step-Inv digest tm (now, completes id can_save) v = complete_transfer-Inv tm id can_save now v
step-Inv digest tm (now, fails id error can_save) v = fail_transfer-Inv tm id error can_save now v
step-Inv digest tm (now, cancels id can_save) v = cancel_transfer-Inv tm id can_save now v

-- Through any calls, whatever the disk does, every transfer of the manager and every checkpoint file
-- stands under its own ID and counts as transferred exactly the offset of its last checkpoint, or 0
-- before the first, so that a resumed transfer goes on from a checkpoint; it holds for the manager that the calls begin with.
pub run-Inv :
    (digest : String → String) (tm : TransferManager) (cs : List (ℕ × Call))
    → Inv tm
    → Inv (run digest tm cs)
unfolding run
run-Inv digest tm [] v = v
run-Inv digest tm (c ∷ cs) v = run-Inv digest (step digest tm c) cs (step-Inv digest tm c v)

pub new_transfer_manager-Inv : Inv (new_transfer_manager [])
unfolding new_transfer_manager lookup
new_transfer_manager-Inv = record { running = λ k t e. cc; saved = λ k t e. cc }
