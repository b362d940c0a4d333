-- ===== src/Server/LogStream.antt =====
-- internal/server/websocket.go: stripDockerLogHeader. A byte is a number below 256, so that the shifted
-- bytes of a size do not overlap and their bitwise or is a sum.
pub mod Frames
mod Tests
use dockation.Prelude.{
  ℕ, zero, suc, ◌+◌, ◌*◌, ◌^◌, ◌==◌, Bool, true, false, not, ◌&&◌, ◌||◌, Option, none, some, List,
  [], ◌∷◌, ◌++◌, length, take, drop, get_elem?, if◌then◌else◌, ltb,
}

abbrev pub byte : ℕ → List ℕ → ℕ
byte i bytes = elim (get_elem? bytes i) [ none ↦ 0 | some b ↦ b ]

unfoldable pub frame_size : List ℕ → ℕ
frame_size bytes =
    byte 4 bytes * 2 ^ 24 + byte 5 bytes * 2 ^ 16 + byte 6 bytes * 2 ^ 8 + byte 7 bytes

-- What is left of the data, and the result.
abbrev pub Stripped : Type 0
Stripped = List ℕ × List ℕ

-- A round of the loop, with the size that is read first; `next` is the rounds after it.
abbrev pub strip_round : (List ℕ → List ℕ → Stripped) → List ℕ → List ℕ → ℕ → Stripped
strip_round next bytes result size =
    if ltb (length bytes) 8
    then (bytes, result)
    else if size == 0 || ltb (length bytes) (8 + size)
    then (bytes, result ++ bytes)
    else next (drop (8 + size) bytes) (result ++ take size (drop 8 bytes))

-- Every round but the last takes bytes from the data, so that its length is enough fuel.
unfoldable pub strip_loop : ℕ → List ℕ → List ℕ → Stripped
strip_loop zero bytes result = (bytes, result)
strip_loop (suc n) bytes result =
    strip_round (λ bytes' result'. strip_loop n bytes' result') bytes result (frame_size bytes)

abbrev pub unless_empty : Stripped → List ℕ
unless_empty (bytes, []) = bytes
unless_empty (bytes, b ∷ result) = b ∷ result

unfoldable pub strip_docker_log_header : List ℕ → List ℕ
strip_docker_log_header bytes = unless_empty (strip_loop (length bytes) bytes [])
