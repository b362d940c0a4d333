-- ===== src/Peer/RateLimit/Bans.antt =====
-- internal/peer/pairing.go: a ban lasts for its time.
use dockation.Prelude.{ℕ, ◌<◌, String, ◌≡◌, some, List, [], ◌∷◌}
use dockation.Prelude.Dict.{Dict, lookup, Distinct}
use dockation.Peer.RateLimit.{
  RateLimitTracker, banned_until, check_rate_limit, record_attempt, clean_attempts,
}

-- The steps that change the trackers, each at its time.
pub data Step : Type 0 where
  checks : String → Step
  records : String → Step
  cleans : Step

unfoldable pub step : Dict RateLimitTracker → ℕ × Step → Dict RateLimitTracker
step m (now, checks address) = (check_rate_limit m address now).1
step m (now, records address) = record_attempt m address now
step m (now, cleans) = clean_attempts m now

unfoldable pub run : Dict RateLimitTracker → List (ℕ × Step) → Dict RateLimitTracker
unfolding step
run m [] = m
run m (s ∷ ss) = run (step m s) ss

abbrev pub IsBanned : String → ℕ → Dict RateLimitTracker → Type 0
IsBanned a until m = (t : RateLimitTracker) × (lookup a m ≡ some t) × (t.banned_until ≡ until)

abbrev pub AllBefore : ℕ → List (ℕ × Step) → Type 0
AllBefore until [] = Unit
AllBefore until (s ∷ ss) = (s.0 < until) × AllBefore until ss

module _ (a : String) (until : ℕ) where
  abbrev Keeps : Dict RateLimitTracker → Type 0
  Keeps m = IsBanned a until m × Distinct m
