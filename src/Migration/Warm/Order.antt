-- ===== src/Migration/Warm/Order.antt =====
-- internal/migration/strategy.go: the order in which a warm migration does its work.
use mathlib.Core.Path.{subst}
use dockation.Prelude.{
  ℕ, String, ◌≡◌, ◌≢◌, refl, sym, ap, ◌∙◌, true, false, Option, none, some, List, [], ◌∷◌, ◌++◌,
  map, keep, inl, inr, Bool-cases, str_eq,
}
use dockation.Migration.Rollback.{ResourceRef}
use dockation.Migration.Job.{MigrationMode, copy, move, MigrationJob}
use dockation.Migration.Warm.{
  WarmEntry, reports, syncs, deltas, pauses, stops, migrates, WarmMigrators, WarmRun, called,
  for_each, phase, fine, failed, stop_all, execute_warm,
}

abbrev pub of_type : String → List ResourceRef → List ResourceRef
of_type kind rs = keep (λ r. str_eq r.resource_type kind) rs

-- The call returns no error for any resource of the type.
abbrev pub AllSucceed : (ResourceRef → Option String) → List ResourceRef → Type 0
AllSucceed call [] = Unit
AllSucceed call (r ∷ rs) = (call r ≡ none) × AllSucceed call rs

of_type_hit :
    (kind : String) (r : ResourceRef) (rs : List ResourceRef)
    → str_eq r.resource_type kind ≡ true
    → of_type kind (r ∷ rs) ≡ r ∷ of_type kind rs
of_type_hit kind r rs h = rw (h, keep) refl

of_type_miss :
    (kind : String) (r : ResourceRef) (rs : List ResourceRef)
    → str_eq r.resource_type kind ≡ false
    → of_type kind (r ∷ rs) ≡ of_type kind rs
of_type_miss kind r rs h = rw (h, keep) refl

module _ (kind : String) (entry : ResourceRef → WarmEntry) (call : ResourceRef → Option String)
    (text : String → String → String) where
  for_each_hit :
      (r : ResourceRef) (rs : List ResourceRef)
      → str_eq r.resource_type kind ≡ true
      → call r ≡ none
      → for_each kind entry call text (r ∷ rs)
        ≡ ((for_each kind entry call text rs).0, entry r ∷ (for_each kind entry call text rs).1)
  unfolding for_each
  for_each_hit r rs h ok = rw (h, ok, called) refl

  for_each_miss :
      (r : ResourceRef) (rs : List ResourceRef)
      → str_eq r.resource_type kind ≡ false
      → for_each kind entry call text (r ∷ rs) ≡ for_each kind entry call text rs
  unfolding for_each
  for_each_miss r rs h = rw h refl

  for_each-all :
      (rs : List ResourceRef)
      → AllSucceed call (of_type kind rs)
      → for_each kind entry call text rs ≡ (none, map entry (of_type kind rs))
  unfolding for_each
  for_each-all [] ok = refl
  for_each-all (r ∷ rs) ok = elim (Bool-cases (str_eq r.resource_type kind)) [
    | inl hit ↦
        let (first, others) = subst (AllSucceed call) (of_type_hit kind r rs hit) ok in
        for_each_hit r rs hit first
        ∙ ap (λ (run : WarmRun). (run.0, entry r ∷ run.1)) (for_each-all rs others)
        ∙ ap (λ found. (none, map entry found)) (sym (of_type_hit kind r rs hit))
    | inr miss ↦
        for_each_miss r rs miss
        ∙ for_each-all rs (subst (AllSucceed call) (of_type_miss kind r rs miss) ok)
        ∙ ap (λ found. (none, map entry found)) (sym (of_type_miss kind r rs miss))
  ]

-- The calls of the two migrators that a warm migration makes all succeed.
abbrev pub AllMigrate : WarmMigrators → List ResourceRef → Type 0
AllMigrate m rs =
    AllSucceed (λ r. m.warm_sync r.name false) (of_type "volume" rs)
    × AllSucceed (λ r. m.warm_sync r.name true) (of_type "volume" rs)
    × AllSucceed m.container (of_type "container" rs)

abbrev pub stopped : MigrationMode → List ResourceRef → List WarmEntry
stopped copy rs = []
stopped move rs = map (λ r. stops r.name) (of_type "container" rs)

-- Nothing fails in a loop that only logs.
fine_all : (rs : List ResourceRef) → AllSucceed fine rs
fine_all [] = tt
fine_all (r ∷ rs) = (refl, fine_all rs)

stop_all_eq :
    (mode : MigrationMode) (rs : List ResourceRef) → stop_all mode rs ≡ (none, stopped mode rs)
stop_all_eq copy rs = refl
stop_all_eq move rs =
    for_each-all "container" (λ r. stops r.name) fine (failed "" "") rs
      (fine_all (of_type "container" rs))

-- What a complete run does.
abbrev pub everything : MigrationMode → List ResourceRef → List WarmEntry
everything mode rs =
    reports 1 "Initial warm sync (containers running)"
    ∷ (map (λ r. syncs r.name) (of_type "volume" rs)
        ++ reports 2 "Pausing source containers"
          ∷ (map (λ r. pauses r.name) (of_type "container" rs)
              ++ reports 3 "Delta sync (final changes)"
                ∷ (map (λ r. deltas r.name) (of_type "volume" rs)
                    ++ reports 4 "Starting containers on target"
                      ∷ (map migrates (of_type "container" rs)
                          ++ reports 5 "Cleanup" ∷ (stopped mode rs ++ reports 5 "Cleanup" ∷ [])))))

-- A warm migration whose calls all succeed syncs every volume, pauses every container, syncs every
-- volume again, starts every container on the target and then, if it moves, stops every container of the
-- source, each in the order of the job's resources, with the reports of the steps 1 to 5 between and
-- 5 once more at the end.
pub warm_all :
    (m : WarmMigrators) (job : MigrationJob)
    → AllMigrate m job.resources
    → execute_warm m job ≡ (none, everything job.mode job.resources)
unfolding execute_warm
warm_all m job (first, second, third) =
    let rs = job.resources in
    rw
      (
        for_each-all "volume" (λ r. syncs r.name) (λ r. m.warm_sync r.name false)
            (failed "warm sync failed for volume " ": ") rs first,
        for_each-all "container" (λ r. pauses r.name) fine
            (failed "failed to pause container " ": ") rs (fine_all (of_type "container" rs)),
        for_each-all "volume" (λ r. deltas r.name) (λ r. m.warm_sync r.name true)
            (failed "delta sync failed for volume " ": ") rs second,
        for_each-all "container" migrates m.container
            (failed "failed to start container " " on target: ") rs third,
        stop_all_eq job.mode rs,
      )
      refl

-- No source container is stopped.
abbrev pub NoStops : List WarmEntry → Type 0
NoStops [] = Unit
NoStops (stops n ∷ es) = ⊥
NoStops (reports n i ∷ es) = NoStops es
NoStops (syncs n ∷ es) = NoStops es
NoStops (deltas n ∷ es) = NoStops es
NoStops (pauses n ∷ es) = NoStops es
NoStops (migrates r ∷ es) = NoStops es

NoStops-append : (es fs : List WarmEntry) → NoStops es → NoStops fs → NoStops (es ++ fs)
NoStops-append [] fs h k = k
NoStops-append (reports n i ∷ es) fs h k = NoStops-append es fs h k
NoStops-append (syncs n ∷ es) fs h k = NoStops-append es fs h k
NoStops-append (deltas n ∷ es) fs h k = NoStops-append es fs h k
NoStops-append (pauses n ∷ es) fs h k = NoStops-append es fs h k
NoStops-append (migrates r ∷ es) fs h k = NoStops-append es fs h k
NoStops-append (stops n ∷ es) fs h k = h

NoStops-called :
    (entry : WarmEntry) (e : Option String) (text : String → String) (rest : WarmRun)
    → ((es : List WarmEntry) → NoStops es → NoStops (entry ∷ es))
    → NoStops rest.1
    → NoStops (called entry e text rest).1
NoStops-called entry none text rest safe h = safe rest.1 h
NoStops-called entry (some e) text rest safe h = safe [] tt

module _ (kind : String) (entry : ResourceRef → WarmEntry) (call : ResourceRef → Option String)
    (text : String → String → String)
    (safe : (r : ResourceRef) (es : List WarmEntry) → NoStops es → NoStops (entry r ∷ es)) where
  NoStops-for_each : (rs : List ResourceRef) → NoStops (for_each kind entry call text rs).1
  unfolding for_each
  NoStops-for_each [] = tt
  NoStops-for_each (r ∷ rs) = elim (Bool-cases (str_eq r.resource_type kind)) [
    | inl hit ↦ rw hit (NoStops-called (entry r) (call r) _ _ (safe r) (NoStops-for_each rs))
    | inr miss ↦ rw miss (NoStops-for_each rs)
  ]

-- A run that fails has stopped nothing.
abbrev SafeOnFailure : WarmRun → Type 0
SafeOnFailure run = run.0 ≢ none → NoStops run.1

phase-SafeOnFailure :
    (step : ℕ) (item : String) (first next : WarmRun)
    → NoStops first.1
    → SafeOnFailure next
    → SafeOnFailure (phase step item first next)
phase-SafeOnFailure step item (some e, done) next h k bad = h
phase-SafeOnFailure step item (none, done) next h k bad = NoStops-append done next.1 h (k bad)

cleanup-SafeOnFailure :
    (mode : MigrationMode) (rs : List ResourceRef)
    → SafeOnFailure (phase 5 "Cleanup" (stop_all mode rs) (none, reports 5 "Cleanup" ∷ []))
cleanup-SafeOnFailure mode rs = rw (stop_all_eq mode rs) (λ bad. absurd (bad refl))

-- A warm migration that fails has stopped no container of the source.
pub failed_safe :
    (m : WarmMigrators) (job : MigrationJob)
    → (execute_warm m job).0 ≢ none
    → NoStops (execute_warm m job).1
unfolding execute_warm
failed_safe m job =
    let rs = job.resources in
    phase-SafeOnFailure 1 _ _ _
      (NoStops-for_each "volume" (λ r. syncs r.name) (λ r. m.warm_sync r.name false) _ (λ r es h. h)
        rs)
      (phase-SafeOnFailure 2 _ _ _
        (NoStops-for_each "container" (λ r. pauses r.name) fine _ (λ r es h. h) rs)
        (phase-SafeOnFailure 3 _ _ _
          (NoStops-for_each "volume" (λ r. deltas r.name) (λ r. m.warm_sync r.name true) _
            (λ r es h. h) rs)
          (phase-SafeOnFailure 4 _ _ _
            (NoStops-for_each "container" migrates m.container _ (λ r es h. h) rs)
            (cleanup-SafeOnFailure job.mode rs))))
