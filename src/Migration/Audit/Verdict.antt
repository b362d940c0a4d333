-- ===== src/Migration/Audit/Verdict.antt =====
-- internal/migration/audit.go: how the checks' results make up the audit's.
use mathlib.Core.List.{append_assoc, append-nil}
use dockation.Prelude.{
  ℕ, zero, suc, ◌↔◌, ◌+◌, ◌<◌, String, ◌≡◌, refl, sym, ap, ◌∙◌, Bool, true, false, none, some, List,
  [], ◌∷◌, ◌++◌, inl, inr, map, keep, arith, if◌then◌else◌, Bool-cases, length,
}
use dockation.Migration.Job.{MigrationJob}
use dockation.Migration.Audit.{
  AuditCheck, AuditResult, started, warns, blocks, accumulate, run_checks,
}

-- No check blocks.
abbrev none_blocks : List AuditCheck → Bool
none_blocks [] = true
none_blocks (c ∷ cs) = if blocks c then false else none_blocks cs

-- The result over given checks' results, the messages of a kind in the order of the checks.
abbrev pub verdict : List AuditCheck → AuditResult
verdict cs = record {
  checks = cs;
  warnings = map (λ c. c.message) (keep warns cs);
  blockers = map (λ c. c.message) (keep blocks cs);
  can_proceed = none_blocks cs;
}

abbrev join : AuditResult → AuditResult → AuditResult
join a b = record {
  checks = a.checks ++ b.checks;
  warnings = a.warnings ++ b.warnings;
  blockers = a.blockers ++ b.blockers;
  can_proceed = if a.can_proceed then b.can_proceed else false;
}

-- The context is done before no check.
abbrev pub NeverDone : (ℕ → Bool) → ℕ → List (MigrationJob → AuditCheck) → Type 0
NeverDone done i [] = Unit
NeverDone done i (c ∷ cs) = (done i ≡ false) × NeverDone done (suc i) cs

result_eq :
    {a b : AuditResult}
    → a.checks ≡ b.checks
    → a.warnings ≡ b.warnings
    → a.blockers ≡ b.blockers
    → a.can_proceed ≡ b.can_proceed
    → a ≡ b
result_eq p q r s = ground arith

-- A message that is added where `b` holds, before others.
if-append :
    (b : Bool) (xs ys : List String) (m : String)
    → (if b then xs ++ m ∷ [] else xs) ++ ys ≡ xs ++ (if b then m ∷ ys else ys)
if-append true xs ys m = append_assoc xs (m ∷ []) ys
if-append false xs ys m = refl

messages-keep :
    (p : AuditCheck → Bool) (c : AuditCheck) (cs : List AuditCheck)
    → map (λ x. x.message) (keep p (c ∷ cs)) ≡ (
        if p c
        then c.message ∷ map (λ x. x.message) (keep p cs)
        else map (λ x. x.message) (keep p cs))
messages-keep p c cs = elim (Bool-cases (p c)) [
  | inl t ↦ rw (t, keep) refl
  | inr f ↦ rw (f, keep) refl
]

proceed-join :
    (b p q : Bool)
    → (if (if b then false else p) then q else false)
      ≡ (if p then (if b then false else q) else false)
proceed-join true true q = refl
proceed-join true false q = refl
proceed-join false true q = refl
proceed-join false false q = refl

join-accumulate :
    (r : AuditResult) (c : AuditCheck) (cs : List AuditCheck)
    → join (accumulate r c) (verdict cs) ≡ join r (verdict (c ∷ cs))
unfolding accumulate
join-accumulate r c cs =
    result_eq (append_assoc r.checks (c ∷ []) cs)
      (if-append (warns c) r.warnings _ c.message
        ∙ ap (λ ms. r.warnings ++ ms) (sym (messages-keep warns c cs)))
      (if-append (blocks c) r.blockers _ c.message
        ∙ ap (λ ms. r.blockers ++ ms) (sym (messages-keep blocks c cs)))
      (proceed-join (blocks c) r.can_proceed (none_blocks cs))

join-started : (v : AuditResult) → join started v ≡ v
join-started v = result_eq refl refl refl refl

if_self : (b : Bool) → (if b then true else false) ≡ b
if_self true = refl
if_self false = refl

join-nothing : (r : AuditResult) → join r (verdict []) ≡ r
join-nothing r =
    result_eq (append-nil r.checks) (append-nil r.warnings) (append-nil r.blockers)
      (if_self r.can_proceed)

run_checks-join :
    (done : ℕ → Bool) (job : MigrationJob) (i : ℕ) (fs : List (MigrationJob → AuditCheck))
    (r : AuditResult)
    → NeverDone done i fs
    → run_checks done job i fs r ≡ some (join r (verdict (map (λ f. f job) fs)))
unfolding run_checks
run_checks-join done job i [] r h = ap some (sym (join-nothing r))
run_checks-join done job i (f ∷ fs) r (now, h) = rw now (
    run_checks-join done job (suc i) fs (accumulate r (f job)) h
    ∙ ap some (join-accumulate r (f job) (map (λ f'. f' job) fs)))

proceeds_iff :
    (cs : List AuditCheck) → (none_blocks cs ≡ true) ↔ (map (λ c. c.message) (keep blocks cs) ≡ [])
proceeds_iff [] = ((λ e. refl), (λ e. refl))
proceeds_iff (c ∷ cs) = elim (Bool-cases (blocks c)) [
  | inl t ↦ rw (t, keep) ((λ e. cc), (λ e. cc))
  | inr f ↦ rw (f, keep) (proceeds_iff cs)
]

-- An audit whose context is not done before any check runs every check, in their order. It warns with
-- the messages of the checks that warn, and blocks with those of the blocking checks that fail, each in
-- the order of the checks, and the migration can go on exactly if nothing blocks.
pub run_checks_lem :
    (done : ℕ → Bool) (job : MigrationJob) (fs : List (MigrationJob → AuditCheck))
    → NeverDone done 0 fs
    → (run_checks done job 0 fs started ≡ some (verdict (map (λ f. f job) fs)))
      × (((verdict (map (λ f. f job) fs)).can_proceed ≡ true)
          ↔ ((verdict (map (λ f. f job) fs)).blockers ≡ []))
run_checks_lem done job fs h = (
  run_checks-join done job 0 fs started h ∙ ap some (join-started (verdict (map (λ f. f job) fs))),
  proceeds_iff (map (λ f. f job) fs),
)

same_index : (i : ℕ) → i ≡ i + 0
same_index i = omega arith

next_index : (i k : ℕ) → suc i + k ≡ i + suc k
next_index i k = omega arith

-- An audit whose context is done before some check gives no result.
pub run_checks_cancelled :
    (done : ℕ → Bool) (job : MigrationJob) (i k : ℕ) (fs : List (MigrationJob → AuditCheck))
    (r : AuditResult)
    → k < length fs
    → done (i + k) ≡ true
    → run_checks done job i fs r ≡ none
unfolding run_checks
run_checks_cancelled done job i k [] r lt e = absurd (omega arith)
run_checks_cancelled done job i zero (f ∷ fs) r lt e =
    let now : done i ≡ true = ap done (same_index i) ∙ e in rw now refl
run_checks_cancelled done job i (suc k) (f ∷ fs) r lt e = elim (Bool-cases (done i)) [
  | inl now ↦ rw now refl
  | inr later ↦ rw later (
      run_checks_cancelled done job (suc i) k fs (accumulate r (f job)) (omega arith)
        (ap done (next_index i k) ∙ e))
]
