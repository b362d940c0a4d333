-- ===== src/Migration/Cold/Steps.antt =====
-- internal/migration/strategy.go: when a cold migration succeeds, and the steps that it reports.
use mathlib.Core.List.{append_assoc}
use dockation.Prelude.{
  ℕ, ◌+◌, String, ◌≡◌, refl, sym, ap, ◌∙◌, none, List, [], ◌∷◌, ◌++◌, inl, inr, arith, str_eq,
  if◌then◌else◌, Bool-cases,
}
use dockation.Migration.Rollback.{ResourceRef}
use dockation.Migration.Cold.{
  MigrationProgress, Entry, stops, disables, Migrators, and_then, count, total_steps, report_step,
  migrate_all, each_container, does, is_move, started, last_report, finalize, transfer_all,
  execute_migration,
}
use dockation.Migration.Job.{MigrationMode, copy, move, MigrationJob}
use dockation.Migration.Cold.Advances.{
  steps_of, up, up-append, steps_of-append, Advances, and_then-none, and_then-Advances, AllMigrate,
  report_step-Advances, migrate_all-Advances,
}

-- Reports do not come from the loops that stop or disable containers.
steps_of-each :
    (act : String → Entry) (rs : List ResourceRef)
    → ((n : String) (es : List Entry) → steps_of (act n ∷ es) ≡ steps_of es)
    → steps_of (each_container act rs) ≡ []
unfolding steps_of each_container
steps_of-each act [] silent = refl
steps_of-each act (r ∷ rs) silent = elim (Bool-cases (str_eq r.resource_type "container")) [
  | inl hit ↦ rw hit (silent r.name (each_container act rs) ∙ steps_of-each act rs silent)
  | inr miss ↦ rw miss (steps_of-each act rs silent)
]

does-Advances :
    (es : List Entry) (p : MigrationProgress) → steps_of es ≡ [] → Advances 0 p (does es p)
does-Advances es p e = (refl, omega arith, e)

steps_of-stops : (rs : List ResourceRef) → steps_of (each_container stops rs) ≡ []
unfolding steps_of
steps_of-stops rs = steps_of-each stops rs (λ n es. refl)

steps_of-disables :
    (mode : MigrationMode) (rs : List ResourceRef)
    → steps_of (if is_move mode then each_container disables rs else []) ≡ []
unfolding steps_of
steps_of-disables copy rs = refl
steps_of-disables move rs = steps_of-each disables rs (λ n es. refl)

finalize_steps :
    (job : MigrationJob) (p : MigrationProgress)
    → ((finalize job p).0 ≡ none)
      × (steps_of (finalize job p).2 ≡ up p.current_step 1 ++ total_steps job.resources ∷ [])
unfolding finalize last_report steps_of
finalize_steps job p =
    let disabling = does (if is_move job.mode then each_container disables job.resources else []) in
    let reported = report_step "Finalizing migration" p in
    let (e, s, t) =
      and_then-Advances 1 0 p reported disabling (report_step-Advances "Finalizing migration" p) (
        does-Advances (if is_move job.mode then each_container disables job.resources else [])
          reported.1 (steps_of-disables job.mode job.resources)) in
    let r = and_then reported disabling in
    let k = last_report (total_steps job.resources) in
    rw (and_then-none r k e)
      (refl, steps_of-append r.2 (k r.1).2 ∙ ap (λ xs. xs ++ steps_of (k r.1).2) t)

-- Every migrator succeeds on each of the resources that it is called for.
unfoldable pub AllSucceed : Migrators → List ResourceRef → Type 0
AllSucceed migrators rs =
    AllMigrate migrators.image "image" rs
    × AllMigrate migrators.volume "volume" rs
    × AllMigrate migrators.network "network" rs
    × AllMigrate migrators.container "container" rs

transfer_all-Advances :
    (migrators : Migrators) (rs : List ResourceRef)
    → AllSucceed migrators rs
    → Advances
        (1 + 0 + count "image" rs + count "volume" rs + count "network" rs + count "container" rs)
        (started rs)
        (transfer_all migrators rs)
unfolding transfer_all AllSucceed
transfer_all-Advances migrators rs (images, volumes, networks, containers) =
    let p = started rs in
    let a = report_step "Stopping source containers" p in
    let b = and_then a (does (each_container stops rs)) in
    let image =
      migrate_all migrators.image "image" "Transferring image: " "failed to migrate image " 0 rs in
    let volume =
      migrate_all migrators.volume "volume" "Transferring volume: " "failed to migrate volume " 0
        rs in
    let network =
      migrate_all migrators.network "network" "Creating network: " "failed to migrate network " 0
        rs in
    let container =
      migrate_all migrators.container "container" "Creating container: "
        "failed to migrate container " 0 rs in
    let c = and_then b image in
    let d = and_then c volume in
    let e = and_then d network in
    let nb = 1 + 0 in
    let nc = nb + count "image" rs in
    let nd = nc + count "volume" rs in
    let ne = nd + count "network" rs in
    and_then-Advances ne (count "container" rs) p e container
      (and_then-Advances nd (count "network" rs) p d network
        (and_then-Advances nc (count "volume" rs) p c volume
          (and_then-Advances nb (count "image" rs) p b image
            (and_then-Advances 1 0 p a (does (each_container stops rs))
              (report_step-Advances "Stopping source containers" p)
              (does-Advances (each_container stops rs) a.1 (steps_of-stops rs)))
            (migrate_all-Advances migrators.image "image" "Transferring image: "
              "failed to migrate image " 0 rs b.1 images))
          (migrate_all-Advances migrators.volume "volume" "Transferring volume: "
            "failed to migrate volume " 0 rs c.1 volumes))
        (migrate_all-Advances migrators.network "network" "Creating network: "
          "failed to migrate network " 0 rs d.1 networks))
      (migrate_all-Advances migrators.container "container" "Creating container: "
        "failed to migrate container " 0 rs e.1 containers)

total_steps_eq :
    (rs : List ResourceRef)
    → 1 + 0 + count "image" rs + count "volume" rs + count "network" rs + count "container" rs + 1
      ≡ total_steps rs
unfolding total_steps
total_steps_eq rs = omega arith

join_steps :
    (n : ℕ) (rs : List ResourceRef) (xs ys : List Entry) (p : MigrationProgress)
    → p.current_step ≡ 0 + n
    → n + 1 ≡ total_steps rs
    → steps_of xs ≡ up 0 n
    → steps_of ys ≡ up p.current_step 1 ++ total_steps rs ∷ []
    → steps_of (xs ++ ys) ≡ up 0 (total_steps rs) ++ total_steps rs ∷ []
join_steps n rs xs ys p s total e e' =
    steps_of-append xs ys
    ∙ rw (e, e', s)
        (sym (append_assoc (up 0 n) (up (0 + n) 1) (total_steps rs ∷ []))
          ∙ ap (λ zs. zs ++ total_steps rs ∷ []) (up-append 0 n 1 ∙ ap (up 0) total))

-- A cold migration in which every migrator succeeds on each resource that it is called for returns no
-- error, and its own reports of progress are at the steps 1, 2, 3 and so on, without a gap or a
-- repetition, up to the total that it computed beforehand, and then at the total once more.
pub cold_steps :
    (migrators : Migrators) (job : MigrationJob)
    → AllSucceed migrators job.resources
    → ((execute_migration migrators job).0 ≡ none)
      × (steps_of (execute_migration migrators job).2
          ≡ up 0 (total_steps job.resources) ++ total_steps job.resources ∷ [])
unfolding execute_migration
cold_steps migrators job ok =
    let rs = job.resources in
    let r = transfer_all migrators rs in
    let (e, s, t) = transfer_all-Advances migrators rs ok in
    let (e', t') = finalize_steps job r.1 in
    rw (and_then-none r (finalize job) e) (
      e',
      join_steps
          (1 + 0 + count "image" rs + count "volume" rs + count "network" rs + count "container" rs)
          rs r.2 (finalize job r.1).2 r.1 s (total_steps_eq rs) t t',
    )
