-- ===== src/Peer/RateLimit/Window.antt =====
-- internal/peer/pairing.go: how many attempts pass within a minute.
use dockation.Prelude.{
  ℕ, zero, suc, ◌+◌, ◌≤◌, ◌<◌, String, ◌≡◌, refl, Bool, true, false, Option, none, some, List, [],
  ◌∷◌, ◌⊎◌, inl, inr, arith,
}
use dockation.Prelude.Dict.{Dict, lookup, insert, lookup-insert_self}
use dockation.Peer.RateLimit.{
  RateLimitTracker, RateError, banned_until, too_many_attempts, minute, ban_duration, check_tracker,
  check_rate_limit, counted, record_attempt,
}

-- As AcceptPairing does: an attempt that passes the check is recorded.
abbrev after_check :
    String → ℕ → Option RateError × Dict RateLimitTracker → Bool × Dict RateLimitTracker
after_check a now (none, m) = (true, record_attempt m a now)
after_check a now (some e, m) = (false, m)

unfoldable pub attempt : Dict RateLimitTracker → String → ℕ → Bool × Dict RateLimitTracker
attempt m a now = after_check a now (check_rate_limit m a now)

-- Whether the attempts at some times pass, one after the other.
unfoldable pub passes : Dict RateLimitTracker → String → List ℕ → List Bool
passes m a [] = []
passes m a (now ∷ times) = let (ok, m') = attempt m a now in ok ∷ passes m' a times

-- The first `n` pass.
abbrev pub first_pass : ℕ → List ℕ → List Bool
first_pass n [] = []
first_pass zero (t ∷ ts) = false ∷ first_pass zero ts
first_pass (suc n) (t ∷ ts) = true ∷ first_pass n ts

abbrev pub AllWithin : ℕ → List ℕ → Type 0
AllWithin end [] = Unit
AllWithin end (t ∷ ts) = (t ≤ end) × AllWithin end ts

-- The tracker of the address has so many attempts left, in the window that began at `start`.
record Left (m : Dict RateLimitTracker) (a : String) (start left : ℕ) : Type 0 where
  tracker : RateLimitTracker
  stored : lookup a m ≡ some tracker
  began : tracker.first_attempt ≡ start
  used : tracker.attempts + left ≡ 5
  unbanned : 0 < left → tracker.banned_until ≡ 0

abbrev Gives : Bool → Dict RateLimitTracker → String → ℕ → ℕ → ℕ → Type 0
Gives ok m a now start left = ((attempt m a now).0 ≡ ok) × Left (attempt m a now).1 a start left

tracker_free :
    (m : Dict RateLimitTracker) (a : String) (now : ℕ) (t : RateLimitTracker)
    → t.banned_until ≡ 0
    → now ≤ t.first_attempt + minute
    → t.attempts < 5
    → check_tracker m a now (some t) ≡ (none, m)
unfolding check_tracker
tracker_free m a now t b within few = ground arith

tracker_full :
    (m : Dict RateLimitTracker) (a : String) (now : ℕ) (t : RateLimitTracker)
    → now ≤ t.first_attempt + minute
    → t.attempts ≡ 5
    → (check_tracker m a now (some t) ≡ (some (banned_until t.banned_until), m))
      ⊎ (check_tracker m a now (some t)
          ≡ (some too_many_attempts, insert a (record t { banned_until = now + ban_duration }) m))
unfolding check_tracker
tracker_full m a now t within full = ground arith

counted_more :
    (now : ℕ) (t : RateLimitTracker)
    → now ≤ t.first_attempt + minute
    → counted now (some t) ≡ record t { attempts = suc t.attempts }
unfolding counted
counted_more now t within = ground arith

module _ (m : Dict RateLimitTracker) (a : String) (now start : ℕ)
    (within : now ≤ start + minute) where
  recorded_free :
      (left : ℕ) → Left m a start (suc left) → Left (record_attempt m a now) a start left
  unfolding record_attempt
  recorded_free left v =
      let t = v.tracker in
      record {
        tracker = record t { attempts = suc t.attempts };
        stored = rw v.stored (
            rw (counted_more now t (omega (arith, v.began, within)))
              (lookup-insert_self a (record t { attempts = suc t.attempts }) m));
        began = v.began;
        used = omega (arith, v.used);
        unbanned = λ h. v.unbanned (omega arith);
      }

  attempt_free : (left : ℕ) → Left m a start (suc left) → Gives true m a now start left
  unfolding attempt check_rate_limit
  attempt_free left v =
      let t = v.tracker in
      rw
        (
          v.stored,
          attempt,
          check_rate_limit,
          tracker_free m a now t (v.unbanned (omega arith)) (omega (arith, v.began, within))
              (omega (arith, v.used)),
        )
        (refl, recorded_free left v)

  attempt_full : Left m a start 0 → Gives false m a now start 0
  unfolding attempt check_rate_limit
  attempt_full v =
      let t = v.tracker in
      elim (tracker_full m a now t (omega (arith, v.began, within)) (omega (arith, v.used))) [
        | inl e ↦ rw (v.stored, attempt, check_rate_limit, e) (refl, v)
        | inr e ↦
            rw (v.stored, attempt, check_rate_limit, e)
              (
                refl,
                record {
                  tracker = record t { banned_until = now + ban_duration };
                  stored = lookup-insert_self a _ m;
                  began = v.began;
                  used = v.used;
                  unbanned = λ h. omega arith;
                },
              )
      ]

passes-Left :
    (m : Dict RateLimitTracker) (a : String) (start left : ℕ) (times : List ℕ)
    → AllWithin (start + minute) times
    → Left m a start left
    → passes m a times ≡ first_pass left times
unfolding passes
passes-Left m a start left [] within v = refl
passes-Left m a start zero (now ∷ times) within v =
    let (ok, v') = attempt_full m a now start within.0 v in
    rw (ok, passes-Left (attempt m a now).1 a start zero times within.1 v') refl
passes-Left m a start (suc left) (now ∷ times) within v =
    let (ok, v') = attempt_free m a now start within.0 left v in
    rw (ok, passes-Left (attempt m a now).1 a start left times within.1 v') refl

first_attempt_left :
    (m : Dict RateLimitTracker) (a : String) (start : ℕ)
    → lookup a m ≡ none
    → Gives true m a start start 4
unfolding attempt check_rate_limit check_tracker record_attempt counted
first_attempt_left m a start none_yet =
    rw (none_yet, attempt, check_rate_limit, check_tracker, counted)
      (
        refl,
        record {
          tracker = record { attempts = 1; first_attempt = start; banned_until = 0 };
          stored = rw none_yet (lookup-insert_self a _ m);
          began = refl;
          used = refl;
          unbanned = λ h. refl;
        },
      )

-- Of the attempts of an address that has no tracker, made one after the other and none later than a
-- minute after the first, the first five pass and all others are refused.
pub five_pass :
    (m : Dict RateLimitTracker) (a : String) (start : ℕ) (times : List ℕ)
    → lookup a m ≡ none
    → AllWithin (start + minute) times
    → passes m a (start ∷ times) ≡ first_pass 5 (start ∷ times)
unfolding passes
five_pass m a start times none_yet within =
    let (ok, v) = first_attempt_left m a start none_yet in
    rw (ok, passes-Left (attempt m a start).1 a start 4 times within v) refl
