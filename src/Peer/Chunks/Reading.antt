-- ===== src/Peer/Chunks/Reading.antt =====
-- internal/peer/transfer.go: what a chunk that is read says of the stream.
use dockation.Prelude.{
  ℕ, ◌+◌, ◌≤◌, ◌<◌, String, ◌≡◌, refl, sym, inl, inr, true, false, Option, none, some, List, [],
  ◌∷◌, ◌++◌, arith, leb, length, take, drop, Bool-cases, take-append-drop, length-take,
}
use dockation.Peer.Chunks.{
  Reader, ChunkReader, ReadResult, chunk, end_of_file, failed_read, read_chunk, new_chunk_reader,
  min_chunk_size, max_chunk_size,
}

-- A new reader's chunk size lies between the two limits, whatever size is asked for, and is the one
-- asked for where that lies between them.
pub new_chunk_reader_bounds :
    (reader : Reader) (size total : ℕ)
    → let cr = new_chunk_reader reader size total in
      (min_chunk_size ≤ cr.chunk_size)
      × (cr.chunk_size ≤ max_chunk_size)
      × (min_chunk_size ≤ size → size ≤ max_chunk_size → cr.chunk_size ≡ size)
unfolding new_chunk_reader
new_chunk_reader_bounds reader size total = (ground arith, ground arith, λ lo hi. ground arith)

-- What one call of ReadChunk returns, by what is left of the stream.
pub data ReadCase (checksum : List ℕ → String) (cr : ChunkReader) (out : ReadResult × ChunkReader)
    : Type 0 where
  whole :
      (contents rest : List ℕ)
      → cr.reader.rest ≡ contents ++ rest
      → length contents ≡ cr.chunk_size
      → out.0
        ≡ chunk (record {
          offset = cr.offset;
          contents = contents;
          checksum = checksum contents;
          size = length contents;
          is_final = false;
        })
      → out.1 ≡ record cr {
        reader = record cr.reader { rest = rest };
        offset = cr.offset + length contents;
      }
      → ReadCase checksum cr out
  final :
      (b : ℕ) (bs : List ℕ)
      → cr.reader.rest ≡ b ∷ bs
      → length cr.reader.rest < cr.chunk_size
      → cr.reader.failure ≡ none
      → out.0
        ≡ chunk (record {
          offset = cr.offset;
          contents = b ∷ bs;
          checksum = checksum (b ∷ bs);
          size = length (b ∷ bs);
          is_final = true;
        })
      → out.1 ≡ record cr {
        reader = record cr.reader { rest = [] };
        offset = cr.offset + length (b ∷ bs);
      }
      → ReadCase checksum cr out
  at_end :
      cr.reader.rest ≡ []
      → cr.reader.failure ≡ none
      → out ≡ (end_of_file, cr)
      → ReadCase checksum cr out
  broken :
      (e : String)
      → cr.reader.failure ≡ some e
      → length cr.reader.rest < cr.chunk_size
      → out.0 ≡ failed_read e
      → ReadCase checksum cr out

module _ (checksum : List ℕ → String) (cr : ChunkReader) (positive : 0 < cr.chunk_size) where
  read_whole : cr.chunk_size ≤ length cr.reader.rest → ReadCase checksum cr (read_chunk checksum cr)
  unfolding read_chunk
  read_whole fits =
      let size = length-take cr.chunk_size cr.reader.rest fits in
      whole (take cr.chunk_size cr.reader.rest) (drop cr.chunk_size cr.reader.rest)
        (sym (take-append-drop cr.chunk_size cr.reader.rest)) size (ground arith) (ground arith)

  read_short :
      (xs : List ℕ) (f : Option String)
      → cr.reader.rest ≡ xs
      → cr.reader.failure ≡ f
      → length cr.reader.rest < cr.chunk_size
      → ReadCase checksum cr (read_chunk checksum cr)
  unfolding read_chunk
  read_short [] none e g short = at_end e g (ground arith)
  read_short (b ∷ bs) none e g short = final b bs e short g (ground arith) (ground arith)
  read_short xs (some err) e g short = broken err g short (ground arith)

-- ReadChunk returns the next chunk-size bytes as a chunk that is not marked final where there are so
-- many; else what is left, marked final, if that is not empty; else the end of the stream. A stream
-- that ends in an error gives that error in the last two cases. The chunk has the reader's offset,
-- its own length and checksum, and the reader moves on by its length; the chunk size is not zero.
pub read_chunk_lem :
    (checksum : List ℕ → String) (cr : ChunkReader)
    → 0 < cr.chunk_size
    → ReadCase checksum cr (read_chunk checksum cr)
read_chunk_lem checksum cr positive =
    elim (Bool-cases (leb cr.chunk_size (length cr.reader.rest))) [
      | inl fits ↦ read_whole checksum cr positive (ground arith)
      | inr short ↦
          read_short checksum cr positive cr.reader.rest cr.reader.failure refl refl (ground arith)
    ]
