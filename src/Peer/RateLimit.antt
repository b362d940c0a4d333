-- ===== src/Peer/RateLimit.antt =====
-- internal/peer/pairing.go: the limit on pairing attempts from one address.
-- Times are in nanoseconds, and one call reads the clock once: `time.Since(t) > d` is written
-- `t + d < now`. The check and the recording are two steps, since AcceptPairing lets the lock go
-- between them.
pub mod Bans
pub mod Window
use dockation.Prelude.{
  ℕ, suc, ◌+◌, ◌*◌, String, Bool, not, ◌&&◌, Option, none, some, ltb, leb, if◌then◌else◌,
}
use dockation.Prelude.Dict.{Dict, lookup, insert, delete, retain}

abbrev pub minute : ℕ
minute = 60000000000

abbrev pub max_attempts_per_minute : ℕ
max_attempts_per_minute = 5

abbrev pub ban_duration : ℕ
ban_duration = 15 * minute

-- `banned_until` is 0 where there has been no ban.
pub record RateLimitTracker : Type 0 where
  pub attempts : ℕ
  pub first_attempt : ℕ
  pub banned_until : ℕ

pub data RateError : Type 0 where
  banned_until : ℕ → RateError
  too_many_attempts : RateError

unfoldable pub check_tracker :
    Dict RateLimitTracker
    → String
    → ℕ
    → Option RateLimitTracker
    → Option RateError × Dict RateLimitTracker
check_tracker attempts address now none = (none, attempts)
check_tracker attempts address now (some t) =
    if ltb now t.banned_until
    then (some (banned_until t.banned_until), attempts)
    else if ltb (t.first_attempt + minute) now
    then (none, delete address attempts)
    else if leb max_attempts_per_minute t.attempts
    then (
      some too_many_attempts,
      insert address (record t { banned_until = now + ban_duration }) attempts,
    )
    else (none, attempts)

unfoldable pub check_rate_limit :
    Dict RateLimitTracker → String → ℕ → Option RateError × Dict RateLimitTracker
check_rate_limit attempts address now = check_tracker attempts address now (lookup address attempts)

unfoldable pub counted : ℕ → Option RateLimitTracker → RateLimitTracker
counted now none = record { attempts = 1; first_attempt = now; banned_until = 0 }
counted now (some t) =
    if ltb (t.first_attempt + minute) now
    then record t { attempts = 1; first_attempt = now }
    else record t { attempts = suc t.attempts }

unfoldable pub record_attempt : Dict RateLimitTracker → String → ℕ → Dict RateLimitTracker
record_attempt attempts address now =
    insert address (counted now (lookup address attempts)) attempts

-- The part of cleanupExpiredSessions that is about the trackers.
abbrev pub in_use : ℕ → RateLimitTracker → Bool
in_use now t = not (ltb t.banned_until now && ltb (t.first_attempt + minute) now)

unfoldable pub clean_attempts : Dict RateLimitTracker → ℕ → Dict RateLimitTracker
clean_attempts attempts now = retain (in_use now) attempts
