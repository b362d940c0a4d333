-- ===== src/Master/Registry/Liveness.antt =====
-- internal/master/registry.go: which workers count as online, and which the cleanup drops.
use mathlib.Core.List.{Memᴰ}
use dockation.Prelude.{
  ℕ, ◌+◌, ◌*◌, ◌≤◌, ◌<◌, String, ◌≡◌, refl, ◌≢◌, ◌↔◌, inl, inr, true, false, Option, none, some,
  List, [], ◌∷◌, arith, str_eq, eq_iff, if◌then◌else◌, Bool-cases,
}
use dockation.Prelude.Dict.{
  lookup, Distinct, filter_option, lookup-retain, select_sound, select_complete,
}
use dockation.Master.Registry.{
  WorkerInfo, Registry, Op, registers, unregisters, beats, reports, connects, cleans, new_registry,
  generate_worker_id, new_worker, get, beat, stock, attach, is_online, list_online, beats_after,
  not_stale, cleanup_stale, run,
}
use dockation.Master.Registry.Laws.{cell, cells, get-run, run-Distinct}

is_online-lookup :
    (r : Registry) (k : String) (now : ℕ) (w : WorkerInfo)
    → lookup k r.workers ≡ some w
    → is_online r k now ≡ beats_after now r.timeout w
unfolding is_online
is_online-lookup r k now w e = rw e refl

-- `ListOnline` returns exactly the workers that are registered under some ID for which `IsOnline`
-- answers true at the same time; the map has no key twice.
pub list_online_iff :
    (r : Registry) (now : ℕ) (w : WorkerInfo)
    → Distinct r.workers
    → Memᴰ w (list_online r now) ↔ ((k : String) × (get r k ≡ some w) × (is_online r k now ≡ true))
unfolding list_online get
list_online_iff r now w d = (
  λ h.
      let (k, e, t) = select_sound (beats_after now r.timeout) w r.workers d h in
      (k, e, rw (is_online-lookup r k now w e) t),
  λ found.
      let (k, e, t) = found in
      select_complete (beats_after now r.timeout) k w r.workers e
        (rw (is_online-lookup r k now w e) at t),
)

get-cleanup_stale :
    (r : Registry) (k : String) (now : ℕ)
    → Distinct r.workers
    → get (cleanup_stale r now) k ≡ filter_option (not_stale now r.timeout) (get r k)
unfolding get cleanup_stale
get-cleanup_stale r k now d = lookup-retain _ k r.workers d

-- The cleanup drops a registered worker exactly when its last heartbeat is more than three timeouts
-- ago, keeps every other worker as it was, and so never drops a worker that is online; the map has
-- no key twice.
pub cleanup_stale_lem :
    (r : Registry) (k : String) (now : ℕ) (w : WorkerInfo)
    → Distinct r.workers
    → get r k ≡ some w
    → ((w.last_heartbeat + r.timeout * 3 < now) → get (cleanup_stale r now) k ≡ none)
      × ((now ≤ w.last_heartbeat + r.timeout * 3) → get (cleanup_stale r now) k ≡ some w)
      × (is_online r k now ≡ true → get (cleanup_stale r now) k ≡ some w)
cleanup_stale_lem r k now w d e =
    rw (get-cleanup_stale r k now d, e)
      (
        (λ h. ground arith),
        (λ h. ground arith),
        (λ h. kept (rw (is_online-lookup r k now w (unfold get in e)) at h)),
      )
  where
    kept :
        beats_after now r.timeout w ≡ true
        → filter_option (not_stale now r.timeout) (some w) ≡ some w
    kept h = ground arith

-- Calls that leave the worker `j` registered, whose last heartbeat was at `last`: nobody
-- unregisters it or registers under its ID, and each cleanup comes within three timeouts of a
-- heartbeat.
abbrev pub StaysAlive : ℕ → String → ℕ → List (ℕ × Op) → Type 0
StaysAlive timeout j last [] = Unit
StaysAlive timeout j last ((now, registers reg token) ∷ cs) =
    (generate_worker_id now ≢ j) × StaysAlive timeout j last cs
StaysAlive timeout j last ((now, unregisters id) ∷ cs) = (id ≢ j) × StaysAlive timeout j last cs
StaysAlive timeout j last ((now, beats id status resources) ∷ cs) =
    StaysAlive timeout j (if str_eq id j then now else last) cs
StaysAlive timeout j last ((now, reports id inv) ∷ cs) = StaysAlive timeout j last cs
StaysAlive timeout j last ((now, connects id stream) ∷ cs) = StaysAlive timeout j last cs
StaysAlive timeout j last ((now, cleans) ∷ cs) =
    (now ≤ last + timeout * 3) × StaysAlive timeout j last cs

abbrev Holds : Option WorkerInfo → Type 0
Holds o = (w : WorkerInfo) × (o ≡ some w)

-- One call leaves the worker registered, with a heartbeat that serves for the calls to come.
abbrev Step : ℕ → String → ℕ × Op → List (ℕ × Op) → WorkerInfo → Type 0
Step timeout j c cs w =
    (w' : WorkerInfo) × (cell timeout j c (some w) ≡ some w')
    × StaysAlive timeout j w'.last_heartbeat cs

miss : (id j : String) → id ≢ j → str_eq id j ≡ false
miss id j ne = ground (arith, eq_iff id j)

cell_alive :
    (timeout : ℕ) (j : String) (w : WorkerInfo) (c : ℕ × Op) (cs : List (ℕ × Op))
    → StaysAlive timeout j w.last_heartbeat (c ∷ cs)
    → Step timeout j c cs w
unfolding cell
cell_alive timeout j w (now, registers reg token) cs h = (w, rw (miss _ j h.0), h.1)
cell_alive timeout j w (now, unregisters id) cs h = (w, rw (miss id j h.0), h.1)
cell_alive timeout j w (now, beats id status resources) cs h = elim (Bool-cases (str_eq id j)) [
  | inl e ↦ (beat now status resources w, rw e refl, rw e at h)
  | inr e ↦ (w, rw e refl, rw e at h)
]
cell_alive timeout j w (now, reports id inv) cs h = elim (Bool-cases (str_eq id j)) [
  | inl e ↦ (stock now inv w, rw e refl, h)
  | inr e ↦ (w, rw e refl, h)
]
cell_alive timeout j w (now, connects id stream) cs h = elim (Bool-cases (str_eq id j)) [
  | inl e ↦ (attach stream w, rw e refl, h)
  | inr e ↦ (w, rw e refl, h)
]
cell_alive timeout j w (now, cleans) cs h = (w, ground arith, h.1)

cells_alive :
    (timeout : ℕ) (j : String) (w : WorkerInfo) (cs : List (ℕ × Op))
    → StaysAlive timeout j w.last_heartbeat cs
    → Holds (cells timeout j cs (some w))
unfolding cells
cells_alive timeout j w [] h = (w, refl)
cells_alive timeout j w (c ∷ cs) h =
    let (w', e, h') = cell_alive timeout j w c cs h in rw e (cells_alive timeout j w' cs h')

-- A registered worker whose heartbeats keep within three timeouts of every cleanup is still
-- registered after any history of calls that neither unregisters it nor registers a worker under
-- its ID, whatever the other workers do; the map has no key twice.
pub stays_registered :
    (r : Registry) (j : String) (w : WorkerInfo) (cs : List (ℕ × Op))
    → Distinct r.workers
    → get r j ≡ some w
    → StaysAlive r.timeout j w.last_heartbeat cs
    → (w' : WorkerInfo) × (get (run r cs) j ≡ some w')
stays_registered r j w cs d e h = rw (get-run r j cs d, e) (cells_alive r.timeout j w cs h)

abbrev pub Named : String → Option WorkerInfo → Type 0
Named j none = Unit
Named j (some w) = w.id ≡ j

cell-Named :
    (t : ℕ) (j : String) (c : ℕ × Op) (o : Option WorkerInfo) → Named j o → Named j (cell t j c o)
unfolding cell new_worker
cell-Named t j (now, registers reg token) o h = ground (arith, eq_iff (generate_worker_id now) j)
cell-Named t j (now, unregisters id) o h = ground arith
cell-Named t j (now, beats id status resources) o h = ground arith
cell-Named t j (now, reports id inv) o h = ground arith
cell-Named t j (now, connects id stream) o h = ground arith
cell-Named t j (now, cleans) o h = ground arith

pub cells-Named :
    (t : ℕ) (j : String) (cs : List (ℕ × Op)) (o : Option WorkerInfo)
    → Named j o
    → Named j (cells t j cs o)
unfolding cells
cells-Named t j [] o h = h
cells-Named t j (c ∷ cs) o h = cells-Named t j cs (cell t j c o) (cell-Named t j c o h)

get-new_registry : (t : ℕ) (j : String) → get (new_registry t) j ≡ none
unfolding get new_registry lookup
get-new_registry t j = refl

pub new_registry-Distinct : (t : ℕ) → Distinct (new_registry t).workers
unfolding new_registry
new_registry-Distinct t = tt

pub Named-some :
    (j : String) (w : WorkerInfo) (o : Option WorkerInfo) → Named j o → o ≡ some w → w.id ≡ j
Named-some j w none h e = cc
Named-some j w (some w') h e = cc

get-Named : (t : ℕ) (j : String) (cs : List (ℕ × Op)) → Named j (get (run (new_registry t) cs) j)
get-Named t j cs =
    rw (get-run (new_registry t) j cs (new_registry-Distinct t), get-new_registry t j)
      (cells-Named _ j cs none tt)

-- In every registry that a history of calls makes from a new one, the worker under an ID carries
-- that ID, and no ID stands there twice.
pub run-new_registry :
    (t : ℕ) (j : String) (cs : List (ℕ × Op)) (w : WorkerInfo)
    → get (run (new_registry t) cs) j ≡ some w
    → (w.id ≡ j) × Distinct (run (new_registry t) cs).workers
run-new_registry t j cs w e = (
  Named-some j w _ (get-Named t j cs) e,
  run-Distinct (new_registry t) cs (new_registry-Distinct t),
)
