-- ===== src/Peer/Chunks.antt =====
-- internal/peer/transfer.go: ChunkReader and ChunkWriter.
-- A byte stream is the list of bytes that it has still to give, and how it ends: by EOF, or by an
-- error. A sink is what has been written, and an argument `accept` that stands for io.Writer: for
-- what was written so far and new data, how many bytes are taken and the error, if any. The text
-- form of the xxhash64 of some data, a third-party function, is the argument `checksum`. Offsets are
-- int64 in the code; they are bounded by the size of the data, and do not wrap here.
pub mod Reading
pub mod Writing
use dockation.Prelude.{
  ℕ, zero, suc, ◌+◌, ◌*◌, String, Bool, true, false, not, Option, none, some, List, [], ◌∷◌, ◌++◌,
  ltb, leb, ◌==◌, str_eq, if◌then◌else◌, length, take, drop,
}

abbrev pub min_chunk_size : ℕ
min_chunk_size = 256 * 1024

abbrev pub default_chunk_size : ℕ
default_chunk_size = 1024 * 1024

abbrev pub max_chunk_size : ℕ
max_chunk_size = 4 * 1024 * 1024

pub record Chunk : Type 0 where
  pub offset : ℕ
  pub contents : List ℕ
  pub checksum : String
  pub size : ℕ
  pub is_final : Bool

-- An io.Reader; `failure` is the error that it ends with, and `none` stands for io.EOF.
pub record Reader : Type 0 where
  pub rest : List ℕ
  pub failure : Option String

-- The error of io.ReadFull: nil, io.EOF, io.ErrUnexpectedEOF, or the reader's own.
pub data ReadError : Type 0 where
  nil eof unexpected_eof : ReadError
  other : String → ReadError

abbrev pub short_read : List ℕ → Option String → ReadError
short_read [] none = eof
short_read (b ∷ bs) none = unexpected_eof
short_read _ (some e) = other e

-- io.ReadFull into a buffer of `size` bytes: the bytes read, the error, and what is left.
unfoldable pub read_full : ℕ → Reader → List ℕ × ReadError × Reader
read_full size r =
    if leb size (length r.rest)
    then (take size r.rest, nil, record r { rest = drop size r.rest })
    else (r.rest, short_read r.rest r.failure, record r { rest = [] })

pub record ChunkReader : Type 0 where
  pub reader : Reader
  pub chunk_size : ℕ
  pub offset : ℕ
  pub total_size : ℕ

unfoldable pub clamp_chunk_size : ℕ → ℕ
clamp_chunk_size size =
    let raised = if ltb size min_chunk_size then min_chunk_size else size in
    if ltb max_chunk_size raised then max_chunk_size else raised

unfoldable pub new_chunk_reader : Reader → ℕ → ℕ → ChunkReader
unfolding clamp_chunk_size
new_chunk_reader reader chunk_size total_size = record {
  reader = reader;
  chunk_size = clamp_chunk_size chunk_size;
  offset = 0;
  total_size = total_size;
}

pub data ReadResult : Type 0 where
  chunk : Chunk → ReadResult
  end_of_file : ReadResult
  failed_read : String → ReadResult

abbrev pub ends : ReadError → Bool
ends eof = true
ends unexpected_eof = true
ends _ = false

module _ (checksum : List ℕ → String) where
  read_result : ℕ → List ℕ → ReadError → ReadResult
  read_result offset contents (other e) = failed_read e
  read_result offset contents error =
      if length contents == 0
      then end_of_file
      else chunk (record {
        offset = offset;
        contents = contents;
        checksum = checksum contents;
        size = length contents;
        is_final = ends error;
      })

  abbrev read_size : ReadResult → ℕ
  read_size (chunk c) = c.size
  read_size _ = 0

  unfoldable pub read_chunk : ChunkReader → ReadResult × ChunkReader
  unfolding read_result read_full
  read_chunk cr =
      let (contents, error, reader) = read_full cr.chunk_size cr.reader in
      let result = read_result cr.offset contents error in
      (result, record cr { reader = reader; offset = cr.offset + read_size result })

-- An io.Writer: how many bytes of the data it takes after what it has, and its error.
abbrev pub Accept : Type 0
Accept = List ℕ → List ℕ → ℕ × Option String

pub record ChunkWriter : Type 0 where
  pub written : List ℕ
  pub offset : ℕ
  pub expected_offset : ℕ

unfoldable pub new_chunk_writer : ℕ → ChunkWriter
new_chunk_writer start_offset = record {
  written = [];
  offset = start_offset;
  expected_offset = start_offset;
}

pub data WriteError : Type 0 where
  offset_mismatch : ℕ → ℕ → WriteError
  checksum_mismatch : ℕ → String → String → WriteError
  failed_write : ℕ → String → WriteError
  incomplete_write : ℕ → ℕ → ℕ → WriteError

module _ (checksum : List ℕ → String) (accept : Accept) where
  -- The last steps of WriteChunk: what the writer returned, and the advance.
  after_write : Chunk → ChunkWriter → ℕ × Option String → Option WriteError × ChunkWriter
  after_write c cw (n, some e) =
      (some (failed_write c.offset e), record cw { written = cw.written ++ take n c.contents })
  after_write c cw (n, none) =
      let cw' = record cw { written = cw.written ++ take n c.contents } in
      if not (n == length c.contents)
      then (some (incomplete_write c.offset n (length c.contents)), cw')
      else (none, record cw' { offset = cw.offset + n; expected_offset = cw.expected_offset + n })

  unfoldable pub write_chunk : ChunkWriter → Chunk → Option WriteError × ChunkWriter
  unfolding after_write
  write_chunk cw c =
      if not (c.offset == cw.expected_offset)
      then (some (offset_mismatch cw.expected_offset c.offset), cw)
      else if not (str_eq (checksum c.contents) c.checksum)
      then (some (checksum_mismatch c.offset c.checksum (checksum c.contents)), cw)
      else after_write c cw (accept cw.written c.contents)
