-- ===== src/Migration/Cold/Advances.antt =====
-- internal/migration/strategy.go: parts of a cold migration that advance its current step.
use Prim.Native.String.{◌++◌ as str_append}
use dockation.Prelude.{
  ℕ, zero, suc, ◌+◌, String, ◌≡◌, refl, ap, ◌∙◌, true, false, Option, none, some, List, [], ◌∷◌,
  ◌++◌, inl, inr, arith, str_eq, eq_iff, Bool-cases,
}
use dockation.Migration.Rollback.{ResourceRef}
use dockation.Migration.Cold.{
  MigrationProgress, Entry, reports, stops, disables, migrates, Run, and_then, count, report_step,
  call, migrate_all,
}

-- The current steps of the reports.
unfoldable pub steps_of : List Entry → List ℕ
steps_of [] = []
steps_of (reports p ∷ es) = p.current_step ∷ steps_of es
steps_of (_ ∷ es) = steps_of es

-- The `n` numbers after `a`.
abbrev pub up : ℕ → ℕ → List ℕ
up a zero = []
up a (suc n) = suc a ∷ up (suc a) n

add_zero : (a : ℕ) → a + 0 ≡ a
add_zero a = omega arith

zero_add : (a : ℕ) → a ≡ 0 + a
zero_add a = omega arith

add_suc : (a m : ℕ) → a + suc m ≡ suc a + m
add_suc a m = omega arith

suc_add : (a m : ℕ) → suc (a + m) ≡ suc a + m
suc_add a m = omega arith

pub up-append : (a m n : ℕ) → up a m ++ up (a + m) n ≡ up a (m + n)
up-append a zero n = ap (λ b. up b n) (add_zero a) ∙ ap (up a) (zero_add n)
up-append a (suc m) n =
    ap (◌∷◌ (suc a)) (ap (λ b. up (suc a) m ++ up b n) (add_suc a m) ∙ up-append (suc a) m n)
    ∙ ap (up a) (suc_add m n)

pub steps_of-append : (xs ys : List Entry) → steps_of (xs ++ ys) ≡ steps_of xs ++ steps_of ys
unfolding steps_of
steps_of-append [] ys = refl
steps_of-append (reports p ∷ xs) ys = ap (◌∷◌ p.current_step) (steps_of-append xs ys)
steps_of-append (stops n ∷ xs) ys = steps_of-append xs ys
steps_of-append (disables n ∷ xs) ys = steps_of-append xs ys
steps_of-append (migrates r ∷ xs) ys = steps_of-append xs ys

-- A run without an error, in which the reports count up by one, `n` times.
abbrev pub Advances : ℕ → MigrationProgress → Run → Type 0
Advances n p run =
    (run.0 ≡ none)
    × (run.1.current_step ≡ p.current_step + n)
    × (steps_of run.2 ≡ up p.current_step n)

pub and_then-none :
    (r : Run) (k : MigrationProgress → Run)
    → r.0 ≡ none
    → and_then r k ≡ ((k r.1).0, (k r.1).1, r.2 ++ (k r.1).2)
unfolding and_then
and_then-none (none, p, done) k e = refl
and_then-none (some x, p, done) k e = cc

pub and_then-Advances :
    (m n : ℕ) (p : MigrationProgress) (r : Run) (k : MigrationProgress → Run)
    → Advances m p r
    → Advances n r.1 (k r.1)
    → Advances (m + n) p (and_then r k)
and_then-Advances m n p r k (e, s, t) (e', s', t') = rw (and_then-none r k e) (
  e',
  omega (arith, s, s'),
  steps_of-append r.2 (k r.1).2 ∙ (rw (t, t', s) (up-append p.current_step m n)),
)

-- No resource of the type fails.
abbrev pub AllMigrate : (ResourceRef → Option String) → String → List ResourceRef → Type 0
AllMigrate migrate kind [] = Unit
AllMigrate migrate kind (r ∷ rs) =
    (r.resource_type ≡ kind → migrate r ≡ none) × AllMigrate migrate kind rs

pub report_step-Advances :
    (item : String) (p : MigrationProgress) → Advances 1 p (report_step item p)
unfolding report_step steps_of
report_step-Advances item p = (refl, omega arith, refl)

pub call-Advances :
    (migrate : ResourceRef → Option String) (failure : String) (r : ResourceRef)
    (p : MigrationProgress)
    → migrate r ≡ none
    → Advances 0 p (call migrate failure r p)
unfolding call steps_of
call-Advances migrate failure r p e = rw (e, call) (refl, omega arith, refl)

-- The two cases of a loop's step.
module _ (migrate : ResourceRef → Option String) (kind label failure : String) where
  abbrev first_call : ℕ → ResourceRef → MigrationProgress → Run
  first_call i r p =
      and_then (report_step (str_append label r.name) (record p { current_number = i + 1 }))
        (call migrate failure r)

  migrate_all_hit :
      (i : ℕ) (r : ResourceRef) (rs : List ResourceRef) (p : MigrationProgress)
      → str_eq r.resource_type kind ≡ true
      → migrate_all migrate kind label failure i (r ∷ rs) p
        ≡ and_then (first_call i r p) (migrate_all migrate kind label failure (suc i) rs)
  unfolding migrate_all
  migrate_all_hit i r rs p hit = rw hit refl

  migrate_all_miss :
      (i : ℕ) (r : ResourceRef) (rs : List ResourceRef) (p : MigrationProgress)
      → str_eq r.resource_type kind ≡ false
      → migrate_all migrate kind label failure i (r ∷ rs) p
        ≡ migrate_all migrate kind label failure (suc i) rs p
  unfolding migrate_all
  migrate_all_miss i r rs p miss = rw miss refl

  count_hit :
      (r : ResourceRef) (rs : List ResourceRef)
      → str_eq r.resource_type kind ≡ true
      → count kind (r ∷ rs) ≡ 1 + count kind rs
  unfolding count
  count_hit r rs hit = rw hit (omega arith)

  count_miss :
      (r : ResourceRef) (rs : List ResourceRef)
      → str_eq r.resource_type kind ≡ false
      → count kind (r ∷ rs) ≡ count kind rs
  unfolding count
  count_miss r rs miss = rw miss refl

  first_call-Advances :
      (i : ℕ) (r : ResourceRef) (p : MigrationProgress)
      → migrate r ≡ none
      → Advances 1 p (first_call i r p)
  first_call-Advances i r p e =
      let item = str_append label r.name in
      let q = record p { current_number = i + 1 } in
      and_then-Advances 1 0 q (report_step item q) (call migrate failure r)
        (report_step-Advances item q) (call-Advances migrate failure r (report_step item q).1 e)

  no_resources-Advances :
      (i : ℕ) (p : MigrationProgress)
      → Advances (count kind []) p (migrate_all migrate kind label failure i [] p)
  unfolding migrate_all count steps_of
  no_resources-Advances i p = (refl, omega arith, refl)

  pub migrate_all-Advances :
      (i : ℕ) (rs : List ResourceRef) (p : MigrationProgress)
      → AllMigrate migrate kind rs
      → Advances (count kind rs) p (migrate_all migrate kind label failure i rs p)
  migrate_all-Advances i [] p ok = no_resources-Advances i p
  migrate_all-Advances i (r ∷ rs) p ok = elim (Bool-cases (str_eq r.resource_type kind)) [
    | inl hit ↦
        rw (migrate_all_hit i r rs p hit, count_hit r rs hit)
          (and_then-Advances 1 (count kind rs) p (first_call i r p)
            (migrate_all migrate kind label failure (suc i) rs)
            (first_call-Advances i r p (ok.0 ((eq_iff r.resource_type kind).0 hit)))
            (migrate_all-Advances (suc i) rs (first_call i r p).1 ok.1))
    | inr miss ↦
        rw (migrate_all_miss i r rs p miss, count_miss r rs miss)
          (migrate_all-Advances (suc i) rs p ok.1)
  ]
