-- ===== src/Server/LogStream/Frames.antt =====
-- internal/server/websocket.go: what comes out of Docker's frames.
use native.Mathlib.Nat.{zero-add, suc-add}
use mathlib.Core.List.{append-nil, append_assoc}
use dockation.Prelude.{
  ℕ, zero, suc, ◌+◌, ◌-◌, ◌*◌, ◌/◌, ◌%◌, ◌^◌, ◌≤◌, ◌<◌, ◌==◌, ◌≡◌, refl, sym, ap, ◌∙◌, true, false,
  ◌||◌, List, [], ◌∷◌, ◌++◌, length, take, drop, arith, ltb, length-take_le, take-length_append,
  drop-length_append, length-append,
}
use dockation.Server.LogStream.{
  frame_size, Stripped, strip_round, strip_loop, unless_empty, strip_docker_log_header,
}

-- A frame of Docker's multiplexed stream: a byte for the stream, three zeros, the payload's size in four
-- bytes with the highest first, and the payload.
pub record Frame : Type 0 where
  pub stream_type : ℕ
  pub payload : List ℕ

abbrev pub encode_size : ℕ → List ℕ → List ℕ
encode_size n payload = n / 2 ^ 24 % 256 ∷ n / 2 ^ 16 % 256 ∷ n / 2 ^ 8 % 256 ∷ n % 256 ∷ payload

abbrev pub encode : Frame → List ℕ
encode f = f.stream_type ∷ 0 ∷ 0 ∷ 0 ∷ encode_size (length f.payload) f.payload

abbrev pub encode_all : List Frame → List ℕ
encode_all [] = []
encode_all (f ∷ fs) = encode f ++ encode_all fs

abbrev pub payloads : List Frame → List ℕ
payloads [] = []
payloads (f ∷ fs) = f.payload ++ payloads fs

-- Its payload is not empty, and its size fits in four bytes.
abbrev pub IsFrame : Frame → Type 0
IsFrame f = (0 < length f.payload) × (length f.payload < 2 ^ 32)

abbrev pub AllFrames : List Frame → Type 0
AllFrames [] = Unit
AllFrames (f ∷ fs) = IsFrame f × AllFrames fs

size_bytes :
    (n : ℕ)
    → n < 2 ^ 32
    → (n / 2 ^ 24 % 256) * 2 ^ 24
        + (n / 2 ^ 16 % 256) * 2 ^ 16
        + (n / 2 ^ 8 % 256) * 2 ^ 8
        + n % 256
      ≡ n
size_bytes n h = omega arith

frame_size-encode :
    (f : Frame) (rest : List ℕ)
    → length f.payload < 2 ^ 32
    → frame_size (encode f ++ rest) ≡ length f.payload
unfolding frame_size
frame_size-encode f rest h = size_bytes (length f.payload) h

drop-eight :
    (a b c d e f g h : ℕ) (n : ℕ) (rest : List ℕ)
    → drop (8 + n) (a ∷ b ∷ c ∷ d ∷ e ∷ f ∷ g ∷ h ∷ rest) ≡ drop n rest
drop-eight a b c d e f g h n rest =
    let eight : 8 + n ≡ suc (suc (suc (suc (suc (suc (suc (suc n))))))) = omega arith in
    ap (λ k. drop k (a ∷ b ∷ c ∷ d ∷ e ∷ f ∷ g ∷ h ∷ rest)) eight

-- The three ways that a round goes.
round_taken :
    (next : List ℕ → List ℕ → Stripped) (bytes result : List ℕ) (size : ℕ)
    → ltb (length bytes) 8 ≡ false
    → (size == 0 || ltb (length bytes) (8 + size)) ≡ false
    → strip_round next bytes result size
      ≡ next (drop (8 + size) bytes) (result ++ take size (drop 8 bytes))
round_taken next bytes result size long whole = rw (long, whole) refl

round_short :
    (next : List ℕ → List ℕ → Stripped) (bytes result : List ℕ) (size : ℕ)
    → ltb (length bytes) 8 ≡ true
    → strip_round next bytes result size ≡ (bytes, result)
round_short next bytes result size short = rw short refl

round_cut :
    (next : List ℕ → List ℕ → Stripped) (bytes result : List ℕ) (size : ℕ)
    → ltb (length bytes) 8 ≡ false
    → (size == 0 || ltb (length bytes) (8 + size)) ≡ true
    → strip_round next bytes result size ≡ (bytes, result ++ bytes)
round_cut next bytes result size long cut = rw (long, cut) refl

-- A round on a whole frame, with the right size.
round_frame :
    (next : List ℕ → List ℕ → Stripped) (f : Frame) (rest result : List ℕ)
    → 0 < length f.payload
    → strip_round next (encode f ++ rest) result (length f.payload)
      ≡ next rest (result ++ f.payload)
round_frame next f rest result some_bytes =
    let long : ltb (length (encode f ++ rest)) 8 ≡ false = ground arith in
    let total = length-append f.payload rest in
    let whole : (length f.payload == 0 || ltb (length (encode f ++ rest)) (8 + length f.payload))
        ≡ false =
      ground (arith, total) in
    let n = length f.payload in
    round_taken next (encode f ++ rest) result n long whole
    ∙ ap (λ d. next d (result ++ take n (f.payload ++ rest)))
        (drop-eight f.stream_type 0 0 0 (n / 2 ^ 24 % 256) (n / 2 ^ 16 % 256) (n / 2 ^ 8 % 256)
            (n % 256) n (f.payload ++ rest)
          ∙ drop-length_append f.payload rest)
    ∙ ap (λ t. next rest (result ++ t)) (take-length_append f.payload rest)

-- A whole frame at the front is taken off.
strip_frame :
    (n : ℕ) (f : Frame) (rest result : List ℕ)
    → IsFrame f
    → strip_loop (suc n) (encode f ++ rest) result ≡ strip_loop n rest (result ++ f.payload)
unfolding strip_loop
strip_frame n f rest result (some_bytes, fits) =
    ap (strip_round (λ bytes' result'. strip_loop n bytes' result') (encode f ++ rest) result)
      (frame_size-encode f rest fits)
    ∙ round_frame (λ bytes' result'. strip_loop n bytes' result') f rest result some_bytes

-- Whole frames at the front are taken off.
strip_frames :
    (fs : List Frame) (n : ℕ) (rest result : List ℕ)
    → AllFrames fs
    → strip_loop (length fs + n) (encode_all fs ++ rest) result
      ≡ strip_loop n rest (result ++ payloads fs)
strip_frames [] n rest result ok =
    ap (λ k. strip_loop k rest result) (zero-add n)
    ∙ ap (strip_loop n rest) (sym (append-nil result))
strip_frames (f ∷ fs) n rest result (ok, all) =
    ap (λ k. strip_loop k ((encode f ++ encode_all fs) ++ rest) result) (suc-add (length fs) n)
    ∙ ap (λ bytes. strip_loop (suc (length fs + n)) bytes result)
        (append_assoc (encode f) (encode_all fs) rest)
    ∙ strip_frame (length fs + n) f (encode_all fs ++ rest) result ok
    ∙ strip_frames fs n rest (result ++ f.payload) all
    ∙ ap (strip_loop n rest) (append_assoc result f.payload (payloads fs))

length-encode_all : (fs : List Frame) → length fs ≤ length (encode_all fs)
length-encode_all [] = omega arith
length-encode_all (f ∷ fs) =
    let rest = length-encode_all fs in omega (arith, rest, length-append (encode f) (encode_all fs))

-- The fuel that the frames leave.
fuel_left :
    (fs : List Frame) (tail : List ℕ)
    → (n : ℕ) × (length (encode_all fs ++ tail) ≡ length fs + (length tail + n))
fuel_left fs tail =
    let le = length-encode_all fs in
    let sum = length-append (encode_all fs) tail in
    (length (encode_all fs) - length fs, omega (arith, le, sum))

strip_short :
    (n : ℕ) (tail result : List ℕ) → length tail < 8 → strip_loop n tail result ≡ (tail, result)
unfolding strip_loop
strip_short zero tail result h = refl
strip_short (suc n) tail result h =
    round_short (λ bytes' result'. strip_loop n bytes' result') tail result (frame_size tail)
      (ground arith)

unless_empty-some :
    (bytes result : List ℕ) → 0 < length result → unless_empty (bytes, result) ≡ result
unless_empty-some bytes [] h = absurd (omega arith)
unless_empty-some bytes (b ∷ result) h = refl

-- Of one or more whole frames, whose payloads are not empty, exactly the payloads come out, in their order;
-- if fewer than eight bytes of another frame follow them, these are lost.
pub strip-encode_all :
    (f : Frame) (fs : List Frame) (tail : List ℕ)
    → AllFrames (f ∷ fs)
    → length tail < 8
    → strip_docker_log_header (encode_all (f ∷ fs) ++ tail) ≡ payloads (f ∷ fs)
unfolding strip_docker_log_header
strip-encode_all f fs tail all h =
    let (n, fuel) = fuel_left (f ∷ fs) tail in
    let bytes = encode_all (f ∷ fs) ++ tail in
    let sizes = length-append f.payload (payloads fs) in
    ap (λ k. unless_empty (strip_loop k bytes [])) fuel
    ∙ ap unless_empty (strip_frames (f ∷ fs) (length tail + n) tail [] all)
    ∙ ap unless_empty (strip_short (length tail + n) tail (payloads (f ∷ fs)) h)
    ∙ unless_empty-some tail (payloads (f ∷ fs))
        (let some_bytes = all.0.0 in omega (arith, sizes, some_bytes))

-- A frame of which only the first j bytes of the payload are there.
abbrev pub cut : Frame → ℕ → List ℕ
cut f j = f.stream_type ∷ 0 ∷ 0 ∷ 0 ∷ encode_size (length f.payload) (take j f.payload)

strip_cut_frame :
    (n : ℕ) (f : Frame) (j : ℕ) (result : List ℕ)
    → IsFrame f
    → j < length f.payload
    → strip_loop (suc n) (cut f j) result ≡ (cut f j, result ++ cut f j)
unfolding strip_loop frame_size
strip_cut_frame n f j result (some_bytes, fits) h =
    let taken = length-take_le j f.payload in
    ap (strip_round (λ bytes' result'. strip_loop n bytes' result') (cut f j) result)
      (size_bytes (length f.payload) fits)
    ∙ round_cut (λ bytes' result'. strip_loop n bytes' result') (cut f j) result (length f.payload)
        (ground arith) (ground (arith, taken))

-- If a read ends within the payload of a frame, the frame comes out with its header: after the payloads of
-- the frames before it, as the eight bytes and the part of the payload that is there.
pub strip_cut :
    (fs : List Frame) (f : Frame) (j : ℕ)
    → AllFrames fs
    → IsFrame f
    → j < length f.payload
    → strip_docker_log_header (encode_all fs ++ cut f j) ≡ payloads fs ++ cut f j
unfolding strip_docker_log_header
strip_cut fs f j all ok h =
    let (n, fuel) = fuel_left fs (cut f j) in
    let bytes = encode_all fs ++ cut f j in
    let k = 7 + length (take j f.payload) + n in
    let fuel' : length bytes ≡ length fs + suc k = omega (arith, fuel) in
    ap (λ m. unless_empty (strip_loop m bytes [])) fuel'
    ∙ ap unless_empty (strip_frames fs (suc k) (cut f j) [] all)
    ∙ ap unless_empty (strip_cut_frame k f j (payloads fs) ok h)
    ∙ unless_empty-some (cut f j) (payloads fs ++ cut f j)
        (let sizes = length-append (payloads fs) (cut f j) in omega (arith, sizes))
