-- ===== src/Master/Registry/Laws.antt =====
-- internal/master/registry.go: the map of workers against one independent cell for each worker.
use dockation.Prelude.{
  ℕ, String, ◌≡◌, refl, ◌∙◌, ap, Option, none, some, List, [], ◌∷◌, arith, str_eq, eq_iff,
  Option-cases, inl, inr, if◌then◌else◌,
}
use dockation.Prelude.Dict.{
  lookup, Distinct, filter_option, lookup-insert, lookup-delete, lookup-retain, Distinct-insert,
  Distinct-delete, Distinct-retain,
}
use dockation.Master.Registry.{
  WorkerInfo, Registry, Op, registers, unregisters, beats, reports, connects, cleans, new_worker,
  generate_worker_id, get, register, modify, beat, stock, attach, not_stale, unregister,
  update_heartbeat, update_inventory, set_stream, cleanup_stale, step, run,
}

abbrev pub map_option {ℓ} : {A : Type ℓ} → (A → A) → Option A → Option A
map_option f none = none
map_option f (some a) = some (f a)

-- What one call does to the cell of the worker `j`.
unfoldable pub cell : ℕ → String → ℕ × Op → Option WorkerInfo → Option WorkerInfo
cell timeout j (now, registers reg token) o =
    if str_eq (generate_worker_id now) j then some (new_worker reg token now) else o
cell timeout j (now, unregisters id) o = if str_eq id j then none else o
cell timeout j (now, beats id status resources) o =
    if str_eq id j then map_option (beat now status resources) o else o
cell timeout j (now, reports id inv) o = if str_eq id j then map_option (stock now inv) o else o
cell timeout j (now, connects id stream) o = if str_eq id j then map_option (attach stream) o else o
cell timeout j (now, cleans) o = filter_option (not_stale now timeout) o

unfoldable pub cells : ℕ → String → List (ℕ × Op) → Option WorkerInfo → Option WorkerInfo
unfolding cell
cells timeout j [] o = o
cells timeout j (c ∷ cs) o = cells timeout j cs (cell timeout j c o)

pub get-modify :
    (f : WorkerInfo → WorkerInfo) (k j : String) (r : Registry)
    → get (modify f k r) j ≡ (if str_eq k j then map_option f (get r j) else get r j)
unfolding get modify
get-modify f k j r = elim (Option-cases (lookup k r.workers)) [
  | inl e ↦ rw (e, modify) (ground (arith, eq_iff k j))
  | inr (w, e) ↦ rw (e, modify) (ground (arith, eq_iff k j, lookup-insert k j (f w) r.workers))
]

pub get-step :
    (r : Registry) (j : String) (c : ℕ × Op)
    → Distinct r.workers
    → get (step r c) j ≡ cell r.timeout j c (get r j)
unfolding step cell
get-step r j (now, registers reg token) d =
    unfold register get generate_worker_id in lookup-insert _ j _ r.workers
get-step r j (now, unregisters id) d =
    unfold unregister get in ground (arith, eq_iff id j, lookup-delete id j r.workers)
get-step r j (now, beats id status resources) d = unfold update_heartbeat in get-modify _ id j r
get-step r j (now, reports id inv) d = unfold update_inventory in get-modify _ id j r
get-step r j (now, connects id stream) d = unfold set_stream in get-modify _ id j r
get-step r j (now, cleans) d = unfold cleanup_stale get in lookup-retain _ j r.workers d

Distinct-modify :
    (f : WorkerInfo → WorkerInfo) (k : String) (r : Registry)
    → Distinct r.workers
    → Distinct (modify f k r).workers
unfolding modify
Distinct-modify f k r d = elim (Option-cases (lookup k r.workers)) [
  | inl e ↦ rw (e, modify) d
  | inr (w, e) ↦ rw (e, modify) (Distinct-insert k (f w) r.workers d)
]

pub step-Distinct : (r : Registry) (c : ℕ × Op) → Distinct r.workers → Distinct (step r c).workers
unfolding step
step-Distinct r (now, registers reg token) d = unfold register in Distinct-insert _ _ r.workers d
step-Distinct r (now, unregisters id) d =
    unfold unregister in ground (arith, Distinct-delete id r.workers d)
step-Distinct r (now, beats id status resources) d =
    unfold update_heartbeat in Distinct-modify _ id r d
step-Distinct r (now, reports id inv) d = unfold update_inventory in Distinct-modify _ id r d
step-Distinct r (now, connects id stream) d = unfold set_stream in Distinct-modify _ id r d
step-Distinct r (now, cleans) d = unfold cleanup_stale in Distinct-retain _ r.workers d

timeout-modify :
    (f : WorkerInfo → WorkerInfo) (k : String) (r : Registry) → (modify f k r).timeout ≡ r.timeout
unfolding modify
timeout-modify f k r = ground arith

pub timeout-step : (r : Registry) (c : ℕ × Op) → (step r c).timeout ≡ r.timeout
unfolding step
timeout-step r (now, registers reg token) = unfold register in refl
timeout-step r (now, unregisters id) = unfold unregister in ground arith
timeout-step r (now, beats id status resources) = unfold update_heartbeat in timeout-modify _ id r
timeout-step r (now, reports id inv) = unfold update_inventory in timeout-modify _ id r
timeout-step r (now, connects id stream) = unfold set_stream in timeout-modify _ id r
timeout-step r (now, cleans) = unfold cleanup_stale in refl

pub run-Distinct :
    (r : Registry) (cs : List (ℕ × Op)) → Distinct r.workers → Distinct (run r cs).workers
unfolding run
run-Distinct r [] d = d
run-Distinct r (c ∷ cs) d = run-Distinct (step r c) cs (step-Distinct r c d)

-- After any history of calls, what `Get` returns for a worker ID is what that ID's own cell holds
-- when each call is applied to it alone, whatever happens to the other workers; the map has no key
-- twice to begin with.
pub get-run :
    (r : Registry) (j : String) (cs : List (ℕ × Op))
    → Distinct r.workers
    → get (run r cs) j ≡ cells r.timeout j cs (get r j)
unfolding run cells
get-run r j [] d = refl
get-run r j (c ∷ cs) d =
    get-run (step r c) j cs (step-Distinct r c d)
    ∙ ap (λ (t : ℕ). cells t j cs (get (step r c) j)) (timeout-step r c)
    ∙ ap (cells r.timeout j cs) (get-step r j c d)
