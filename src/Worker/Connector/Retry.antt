-- ===== src/Worker/Connector/Retry.antt =====
-- internal/worker/connector.go: the retries end at the first attempt that succeeds.
use Prim.Native.String.{◌++◌ as str_append}
use native.Mathlib.Nat.{mul_assoc, pow-suc}
use mathlib.Core.Path.{subst}
use dockation.Prelude.{
  ℕ, zero, suc, ◌*◌, ◌^◌, ◌≤◌, ◌<◌, String, ◌≡◌, ◌≢◌, ◌⊎◌, refl, sym, ap, ◌∙◌, true, false, Option,
  none, some, List, [], ◌∷◌, ◌++◌, length, arith, leb, if◌then◌else◌, str_eq, eq_iff, Bool-cases,
  Option-cases, inl, inr,
}
use dockation.Proto.{RegistrationResponse}
use dockation.Worker.Connector.{
  Connector, Loop, heartbeats, inventories, receives, Retried, Answer, ok, err, Attempt, Try,
  connects, do_connect, set_credentials, start_loops, retry_round, retry_loop, connect_with_retry,
  waits, next_backoff,
}

-- An attempt at which nothing fails, with the response and the stream that it gets.
abbrev pub Opens : Attempt → RegistrationResponse → ℕ → Type 0
Opens a resp s =
    (a.dialled ≡ none)
    × (a.fingerprint ≢ "")
    × (a.registered ≡ ok resp)
    × (resp.success ≡ true)
    × (a.opened ≡ ok s)

abbrev pub Fails : Attempt → Type 0
Fails a = (resp : RegistrationResponse) (s : ℕ) → Opens a resp s → ⊥

abbrev pub opened : RegistrationResponse → ℕ → Connector → Connector
opened resp s c = record (set_credentials resp c) { stream = some s; connected = true }

pub do_connect-Opens :
    (c : Connector) (a : Attempt) (resp : RegistrationResponse) (s : ℕ)
    → Opens a resp s
    → do_connect c a ≡ (none, opened resp s c)
unfolding do_connect
do_connect-Opens c a resp s (d, f, r, success, o) = elim (Bool-cases (str_eq a.fingerprint "")) [
  | inl empty ↦ absurd (f ((eq_iff a.fingerprint "").0 empty))
  | inr full ↦ rw (do_connect, d, full, r, success, o) refl
]

-- What an attempt that fails keeps.
abbrev pub Kept : Connector → Connector → Type 0
Kept c c' = (c'.config ≡ c.config) × (c'.loops ≡ c.loops) × (c'.reconnecting ≡ c.reconnecting)

abbrev pub Failed : Connector → Attempt → Type 0
Failed c a = (e : String) × (c' : Connector) × (do_connect c a ≡ (some e, c')) × Kept c c'

Answer-cases : {A : Type 0} (x : Answer A) → ((a : A) × (x ≡ ok a)) ⊎ ((e : String) × (x ≡ err e))
Answer-cases (ok a) = inl (a, refl)
Answer-cases (err e) = inr (e, refl)

-- Every attempt opens a stream or fails.
pub attempt-cases :
    (c : Connector) (a : Attempt)
    → ((resp : RegistrationResponse) × (s : ℕ) × Opens a resp s) ⊎ Failed c a
unfolding do_connect set_credentials
attempt-cases c a = elim (Option-cases a.dialled) [
  | inr (e, d) ↦
      inr (str_append "failed to dial master: " e, c, rw (do_connect, d) refl, (refl, refl, refl))
  | inl d ↦ elim (Bool-cases (str_eq a.fingerprint "")) [
    | inl empty ↦ inr (
      "failed to get fingerprint: certificate not initialized",
      c,
      rw (do_connect, d, empty) refl,
      (refl, refl, refl),
    )
    | inr full ↦ elim (Answer-cases a.registered) [
      | inr (e, r) ↦ inr (
        str_append "registration failed: " e,
        c,
        rw (do_connect, d, full, r) refl,
        (refl, refl, refl),
      )
      | inl (resp, r) ↦ elim (Bool-cases resp.success) [
        | inr bad ↦ inr (
          str_append "registration rejected: " resp.error,
          c,
          rw (do_connect, d, full, r, bad) refl,
          (refl, refl, refl),
        )
        | inl good ↦ elim (Answer-cases a.opened) [
          | inr (e, o) ↦ inr (
            str_append "failed to open stream: " e,
            set_credentials resp c,
            rw (do_connect, d, full, r, good, o) refl,
            (refl, refl, refl),
          )
          | inl (s, o) ↦
              inl (resp, s, (d, (λ f. ground (arith, eq_iff a.fingerprint "")), r, good, o))
        ]
      ]
    ]
  ]
]

pub do_connect-loops : (c : Connector) (a : Attempt) → (do_connect c a).1.loops ≡ c.loops
unfolding set_credentials
do_connect-loops c a = elim (attempt-cases c a) [
  | inl (resp, s, opens) ↦
      ap (λ (r : Option String × Connector). r.1.loops) (do_connect-Opens c a resp s opens)
  | inr (e, c', call, kept) ↦ ap (λ (r : Option String × Connector). r.1.loops) call ∙ kept.1
]

do_connect-Fails : (c : Connector) (a : Attempt) → Fails a → Failed c a
do_connect-Fails c a fails = elim (attempt-cases c a) [
  | inl (resp, s, opens) ↦ absurd (fails resp s opens)
  | inr f ↦ f
]

-- The smaller of two numbers.
abbrev pub minimum : ℕ → ℕ → ℕ
minimum a b = if leb a b then a else b

minimum-twice : (x m : ℕ) → minimum (minimum x m * 2) m ≡ minimum (x * 2) m
minimum-twice x m = ground arith

minimum-le : (x m : ℕ) → minimum x m ≤ m
minimum-le x m = ground arith

next_backoff-minimum : (b m : ℕ) → b ≤ m → m < 2 ^ 62 → next_backoff b m ≡ minimum (b * 2) m
next_backoff-minimum b m h k = ground arith

-- The waits from the i-th on, for n of them.
abbrev pub exponential : ℕ → ℕ → ℕ → ℕ → List ℕ
exponential b m i zero = []
exponential b m i (suc n) = minimum (b * 2 ^ i) m ∷ exponential b m (suc i) n

next-exponential :
    (b m i : ℕ) → m < 2 ^ 62 → next_backoff (minimum (b * 2 ^ i) m) m ≡ minimum (b * 2 ^ suc i) m
next-exponential b m i k =
    next_backoff-minimum (minimum (b * 2 ^ i) m) m (minimum-le (b * 2 ^ i) m) k
    ∙ minimum-twice (b * 2 ^ i) m
    ∙ ap (λ x. minimum x m) (mul_assoc b (2 ^ i) 2 ∙ sym (ap (◌*◌ b) (pow-suc 2 i)))

-- Rounds that fail, while nothing is cancelled.
abbrev pub AllFail : List Try → Type 0
AllFail [] = Unit
AllFail (t ∷ ts) = (t.done_before ≡ false) × (t.done_waiting ≡ false) × Fails t.attempt × AllFail ts

-- How a connector is connected: its credentials, its stream and its loops.
abbrev pub IsOn : RegistrationResponse → ℕ → List Loop → Connector → Type 0
IsOn resp s loops c =
    (c.worker_id ≡ resp.worker_id)
    × (c.auth_token ≡ resp.auth_token)
    × (c.stream ≡ some s)
    × (c.connected ≡ true)
    × (c.loops
        ≡ loops
          ++ heartbeats c.heartbeat_interval ∷ inventories c.inventory_interval ∷ receives ∷ [])

abbrev Arrives : RegistrationResponse → ℕ → List Loop → List ℕ → Retried → Type 0
Arrives resp s loops ws r = (r.0 ≡ connects) × (r.1 ≡ ws) × IsOn resp s loops r.2

-- A round that fails, and the rounds after it.
failing_round :
    (t : Try) (ts : List Try) (x m : ℕ) (c : Connector)
    → (failed : Failed c t.attempt) → t.done_before ≡ false
    → t.done_waiting ≡ false
    → retry_loop x m (t ∷ ts) c
      ≡ waits x false failed.1 (retry_loop (next_backoff x m) m ts failed.1)
unfolding retry_loop
failing_round t ts x m c failed before after =
    ap
      (λ (r : Option String × Connector).
        retry_round x t c r (retry_loop (next_backoff x m) m ts r.1))
      failed.2
    ∙ rw (before, after) refl

last_round :
    (t : Try) (ts : List Try) (x m : ℕ) (c : Connector) (resp : RegistrationResponse) (s : ℕ)
    → t.done_before ≡ false
    → Opens t.attempt resp s
    → retry_loop x m (t ∷ ts) c ≡ (connects, [], start_loops (opened resp s c))
unfolding retry_loop
last_round t ts x m c resp s before opens =
    ap
      (λ (r : Option String × Connector).
        retry_round x t c r (retry_loop (next_backoff x m) m ts r.1))
      (do_connect-Opens c t.attempt resp s opens)
    ∙ rw before refl

opened-IsOn :
    (resp : RegistrationResponse) (s : ℕ) (c : Connector)
    → IsOn resp s c.loops (start_loops (opened resp s c))
unfolding set_credentials
opened-IsOn resp s c = (refl, refl, refl, refl, refl)

Arrives-waits :
    (resp : RegistrationResponse) (s x : ℕ) (c : Connector) (loops : List Loop) (ws : List ℕ)
    (r : Retried)
    → Arrives resp s loops ws r
    → Arrives resp s loops (x ∷ ws) (waits x false c r)
Arrives-waits resp s x c loops ws r (tried, same, on) = (tried, ap (◌∷◌ x) same, on)

module _ (last : Try) (more : List Try) (resp : RegistrationResponse) (s b m : ℕ)
    (now : last.done_before ≡ false) (opens : Opens last.attempt resp s) (k : m < 2 ^ 62) where
  arrives :
      (failing : List Try) (i : ℕ) (c : Connector)
      → AllFail failing
      → Arrives resp s c.loops
          (exponential b m i (length failing))
          (retry_loop (minimum (b * 2 ^ i) m) m (failing ++ last ∷ more) c)
  arrives [] i c h =
      subst (Arrives resp s c.loops [])
        (sym (last_round last more (minimum (b * 2 ^ i) m) m c resp s now opens))
        (refl, refl, opened-IsOn resp s c)
  arrives (t ∷ ts) i c (before, after, fails, h) =
      let failed = do_connect-Fails c t.attempt fails in
      let x = minimum (b * 2 ^ i) m in
      let ws = exponential b m (suc i) (length ts) in
      let ts' = ts ++ last ∷ more in
      let rest =
        subst (λ y. Arrives resp s failed.1.loops ws (retry_loop y m ts' failed.1))
          (sym (next-exponential b m i k)) (arrives ts (suc i) failed.1 h) in
      let rest' =
        subst (λ loops. Arrives resp s loops ws (retry_loop (next_backoff x m) m ts' failed.1))
          failed.3.1 rest in
      subst (Arrives resp s c.loops (x ∷ ws)) (sym (failing_round t ts' x m c failed before after))
        (Arrives-waits resp s x failed.1 c.loops ws (retry_loop (next_backoff x m) m ts' failed.1)
          rest')

-- If nothing is cancelled and the configured interval is at most the configured maximum, which is less
-- than 2^62, the retries go on over every failure, of the dial, the registration or the stream, and end
-- at the first attempt that opens a stream. The waits before it grow from the interval by doubling, up
-- to the maximum. Then the worker has the ID and the token of that attempt's registration,
-- is connected on its stream, and has one more of each of the three loops.
pub connect_with_retry_lem :
    (c : Connector) (failing : List Try) (last : Try) (more : List Try)
    (resp : RegistrationResponse) (s : ℕ)
    → AllFail failing
    → last.done_before ≡ false
    → Opens last.attempt resp s
    → c.config.reconnect_interval ≤ c.config.max_reconnect_interval
    → c.config.max_reconnect_interval < 2 ^ 62
    → let (tried, ws, c') = connect_with_retry c (failing ++ last ∷ more) in
      (tried ≡ connects)
      × (ws
          ≡ exponential c.config.reconnect_interval c.config.max_reconnect_interval 0
              (length failing))
      × IsOn resp s c.loops c'
unfolding connect_with_retry
connect_with_retry_lem c failing last more resp s h now opens le k =
    let b = c.config.reconnect_interval in
    let m = c.config.max_reconnect_interval in
    let first : minimum (b * 2 ^ 0) m ≡ b = ground arith in
    subst
      (λ backoff.
        Arrives resp s c.loops (exponential b m 0 (length failing))
          (retry_loop backoff m (failing ++ last ∷ more) c))
      first (arrives last more resp s b m now opens k failing 0 c h)
