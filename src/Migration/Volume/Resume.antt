-- ===== src/Migration/Volume/Resume.antt =====
-- internal/migration/volume.go: a migration that is cancelled and resumed.
use mathlib.Core.Path.{subst}
use dockation.Prelude.{
  ℕ, zero, suc, ◌+◌, ◌-◌, String, ◌≡◌, refl, ap, ◌∙◌, Bool, false, none, some, List, ◌++◌, arith,
  Bool-cases, inl, inr,
}
use dockation.Migration.Volume.{
  VolumeCheckpoint, Report, Run, transfer_chunk, report_of, reports, transfer_chunks, verified,
  chunk_count, volume_size, first_checkpoint, cold_migrate, resume_transfer,
}

-- A context that is never done.
abbrev pub never : ℕ → Bool
never i = false

-- A run whose reports come after others.
abbrev pub after : List Report → Run → Run
after rs (error, cp, more) = (error, cp, rs ++ more)

-- The chunks that are left, from a checkpoint.
abbrev remaining : String → VolumeCheckpoint → Run
remaining checksum cp =
    transfer_chunks checksum never (cp.total_chunks - cp.chunks_completed) cp.chunks_completed cp

abbrev Continues : String → Run → Run → Type 0
Continues checksum (none, cp, rs) whole = (none, cp, rs) ≡ whole
Continues checksum (some e, cp, rs) whole = after rs (remaining checksum cp) ≡ whole

Continues-reports :
    (checksum : String) (r : Report) (run whole : Run)
    → Continues checksum run whole
    → Continues checksum (reports r run) (reports r whole)
Continues-reports checksum r (none, cp, rs) whole h = ap (reports r) h
Continues-reports checksum r (some e, cp, rs) whole h = ap (reports r) h

chunks-Continues :
    (checksum : String) (done : ℕ → Bool) (n i : ℕ) (cp : VolumeCheckpoint)
    → cp.chunks_completed ≡ i
    → cp.total_chunks ≡ i + n
    → Continues checksum
        (transfer_chunks checksum done n i cp)
        (transfer_chunks checksum never n i cp)
unfolding transfer_chunks transfer_chunk
chunks-Continues checksum done zero i cp here total = refl
chunks-Continues checksum done (suc n) i cp here total = elim (Bool-cases (done i)) [
  | inl stop ↦
      let left : cp.total_chunks - cp.chunks_completed ≡ suc n = omega (arith, here, total) in
      rw stop (
        ap (λ k. transfer_chunks checksum never k cp.chunks_completed cp) left
        ∙ ap (λ j. transfer_chunks checksum never (suc n) j cp) here)
  | inr go ↦ rw go (
      Continues-reports checksum (report_of i (transfer_chunk checksum i cp)) _ _ (
        chunks-Continues checksum done n (suc i) (transfer_chunk checksum i cp) (omega arith)
          (omega (arith, total))))
]

verified-some :
    (run : Run) (e : String) (cp : VolumeCheckpoint) (rs : List Report)
    → verified run ≡ (some e, cp, rs)
    → run ≡ (some e, cp, rs)
verified-some (none, cp', rs') e cp rs h = absurd (let error = ap (λ (r : Run). r.0) h in cc)
verified-some (some e', cp', rs') e cp rs h = h

after-verified : (rs : List Report) (run : Run) → after rs (verified run) ≡ verified (after rs run)
after-verified rs (none, cp, more) = refl
after-verified rs (some e, cp, more) = refl

-- A cold migration that is cancelled before some chunk, and is resumed from the checkpoint that it has then,
-- comes to what the migration that is never cancelled comes to: the same checkpoint at the end, with every
-- chunk's checksum, no error, and the same reports, in the same order and each once.
pub resume_transfer_lem :
    (checksum : String) (done : ℕ → Bool) (name e : String) (cp : VolumeCheckpoint)
    (rs : List Report)
    → cold_migrate checksum done name ≡ (some e, cp, rs)
    → after rs (resume_transfer checksum never cp) ≡ cold_migrate checksum never name
unfolding cold_migrate resume_transfer
resume_transfer_lem checksum done name e cp rs h =
    let total = chunk_count volume_size in
    let first = first_checkpoint name total in
    let stopped = verified-some (transfer_chunks checksum done total 0 first) e cp rs h in
    let whole = transfer_chunks checksum never total 0 first in
    let continued =
      subst (λ run. Continues checksum run whole) stopped
        (chunks-Continues checksum done total 0 first refl (omega arith)) in
    after-verified rs (remaining checksum cp) ∙ ap verified continued
