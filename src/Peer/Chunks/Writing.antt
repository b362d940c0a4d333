-- ===== src/Peer/Chunks/Writing.antt =====
-- internal/peer/transfer.go: what WriteChunk checks before and after it writes.
use dockation.Prelude.{
  ℕ, ◌+◌, String, ◌≡◌, ◌≢◌, sym, ◌∙◌, ◌⊎◌, inl, inr, Option, none, some, List, ◌++◌, ◌↔◌, arith,
  ◌==◌, eq_iff, length, Bool-cases, take-length,
}
use dockation.Peer.Chunks.{
  Chunk, Accept, ChunkWriter, WriteError, after_write, write_chunk, offset_mismatch,
  checksum_mismatch,
}

-- The chunk continues the stream and carries the checksum of its data.
abbrev pub IsNext : (List ℕ → String) → ChunkWriter → Chunk → Type 0
IsNext checksum cw c = (c.offset ≡ cw.expected_offset) × (checksum c.contents ≡ c.checksum)

module _ (checksum : List ℕ → String) (accept : Accept) (cw : ChunkWriter) (c : Chunk) where
  abbrev pub advanced : ChunkWriter
  advanced = record {
    written = cw.written ++ c.contents;
    offset = cw.offset + length c.contents;
    expected_offset = cw.expected_offset + length c.contents;
  }

  after_write_ok :
      (r : ℕ × Option String) (cw' : ChunkWriter)
      → after_write checksum accept c cw r ≡ (none, cw')
      → (r ≡ (length c.contents, none)) × (cw' ≡ advanced)
  unfolding after_write
  after_write_ok (n, some e) cw' h = ground arith
  after_write_ok (n, none) cw' h = ground (arith, take-length c.contents)

  after_write_all : after_write checksum accept c cw (length c.contents, none) ≡ (none, advanced)
  unfolding after_write
  after_write_all = ground (arith, take-length c.contents)

  next_tests :
      IsNext checksum cw c
      → write_chunk checksum accept cw c
        ≡ after_write checksum accept c cw (accept cw.written c.contents)
  unfolding write_chunk
  next_tests next = ground (arith, eq_iff (checksum c.contents) c.checksum)

  is_next :
      (cw' : ChunkWriter) → write_chunk checksum accept cw c ≡ (none, cw') → IsNext checksum cw c
  unfolding write_chunk
  is_next cw' h = ground (arith, eq_iff (checksum c.contents) c.checksum)

-- WriteChunk succeeds exactly if the chunk continues the stream, its checksum is that of its data,
-- and the writer takes all of the data without an error. It has then appended the data, and both
-- offsets have moved on by its length.
pub write_chunk_iff :
    (checksum : List ℕ → String) (accept : Accept) (cw cw' : ChunkWriter) (c : Chunk)
    → (write_chunk checksum accept cw c ≡ (none, cw')) ↔ (
        IsNext checksum cw c
        × (accept cw.written c.contents ≡ (length c.contents, none))
        × (cw' ≡ advanced checksum accept cw c))
write_chunk_iff checksum accept cw cw' c = (
  (λ h.
      let next = is_next checksum accept cw c cw' h in
      let done =
        after_write_ok checksum accept cw c (accept cw.written c.contents) cw'
          (sym (next_tests checksum accept cw c next) ∙ h) in
      (next, done.0, done.1)),
  (λ h.
      next_tests checksum accept cw c h.0 ∙ (rw (h.1, h.2) (after_write_all checksum accept cw c))),
)

-- A chunk that does not continue the stream, or whose checksum is not that of its data, is refused
-- before anything is written: the writer is as it was.
pub write_chunk_refused :
    (checksum : List ℕ → String) (accept : Accept) (cw : ChunkWriter) (c : Chunk)
    → (c.offset ≢ cw.expected_offset) ⊎ (checksum c.contents ≢ c.checksum)
    → (e : WriteError) × (write_chunk checksum accept cw c ≡ (some e, cw))
unfolding write_chunk
write_chunk_refused checksum accept cw c (inl bad) =
    (offset_mismatch cw.expected_offset c.offset, ground arith)
write_chunk_refused checksum accept cw c (inr bad) =
    elim (Bool-cases (c.offset == cw.expected_offset)) [
      | inl t ↦ (
        checksum_mismatch c.offset c.checksum (checksum c.contents),
        ground (arith, eq_iff (checksum c.contents) c.checksum),
      )
      | inr f ↦ (offset_mismatch cw.expected_offset c.offset, ground arith)
    ]
