-- ===== src/Worker/Executor/Report.antt =====
-- internal/worker/executor.go: what a source reports of a migration.
use mathlib.Core.Path.{subst}
use dockation.Prelude.{
  ℕ, suc, ◌+◌, String, ◌≡◌, ◌↔◌, refl, sym, ap, Bool, true, false, Option, none, some, List, [],
  ◌∷◌, ◌++◌, ◌⊎◌, inl, inr, arith, Bool-cases,
}
use dockation.Proto.{
  MigrationRequest, WorkerMessage, WorkerPayload, heartbeat, migration_progress, migration_complete,
  worker_error, unset,
}
use dockation.Worker.Executor.{
  StreamResults, transfer, Environment, complete_message, goes_on, fails, Sending, transfer_each,
  after_transfer, send_finalizing, then_part, and_sends, completed, transfers, execute_as_source,
  send_volumes, send_images,
}

abbrev HasProgress : WorkerPayload → Type 0
HasProgress (migration_progress p) = Unit
HasProgress (heartbeat h) = ⊥
HasProgress (migration_complete c) = ⊥
HasProgress (worker_error e) = ⊥
HasProgress unset = ⊥

abbrev pub AllProgress : List WorkerMessage → Type 0
AllProgress [] = Unit
AllProgress (m ∷ ms) = HasProgress m.payload × AllProgress ms

AllProgress-append :
    (ms ns : List WorkerMessage) → AllProgress ms → AllProgress ns → AllProgress (ms ++ ns)
AllProgress-append [] ns h k = k
AllProgress-append (m ∷ ms) ns (p, h) k = (p, AllProgress-append ms ns h k)

-- Before no transfer is the context done, and no transfer fails.
abbrev pub AllPass : (ℕ → Bool) → (String → StreamResults) → ℕ → List String → Type 0
AllPass done results i [] = Unit
AllPass done results i (name ∷ names) =
    (done i ≡ false) × ((transfer (results name)).1 ≡ none) × AllPass done results (suc i) names

-- A part has only reported progress, and goes on with the same count exactly if `P`.
abbrev IsSound : Type 0 → ℕ → Sending → Type 0
IsSound P total (ms, part) =
    AllProgress ms
    × (((part ≡ goes_on total) × P) ⊎ ((e : String) × (part ≡ fails e total) × (P → ⊥)))

add_zero : (n : ℕ) → n + 0 ≡ n
add_zero n = omega arith

module _ (Q : Type 0) (failure : String) (total : ℕ) (rest : ℕ → Sending)
    (later : IsSound Q total (rest total)) where
  after_transfer-IsSound :
      (e : Option String)
      → IsSound ((e ≡ none) × Q) total (after_transfer (0, e) failure total rest)
  after_transfer-IsSound (some e) = (tt, inr (_, refl, (λ p. let n = p.0 in cc)))
  after_transfer-IsSound none =
      let (ms, ends) = subst (λ (t : ℕ). IsSound Q total (rest t)) (sym (add_zero total)) later in
      (
        ms,
        elim ends [
          | inl (e, q) ↦ inl (e, (refl, q))
          | inr (e, q, bad) ↦ inr (e, q, (λ p. bad p.1))
        ],
      )

module _ (done : ℕ → Bool) (results : String → StreamResults) (message : ℕ → ℕ → WorkerMessage)
    (failure : String) (progress : (i bytes : ℕ) → HasProgress (message i bytes).payload) where
  transfer_each-IsSound :
      (i total : ℕ) (names : List String)
      → IsSound
          (AllPass done results i names)
          total
          (transfer_each done results message failure i total names)
  unfolding transfer_each transfer
  transfer_each-IsSound i total [] = (tt, inl (refl, tt))
  transfer_each-IsSound i total (name ∷ names) = elim (Bool-cases (done i)) [
    | inl d ↦ rw d (tt, inr ("cancelled", refl, (λ p. let n = p.0 in cc)))
    | inr d ↦
        let (ms, ends) =
          after_transfer-IsSound (AllPass done results (suc i) names) failure total
            (λ bytes.
              and_sends (message i bytes)
                (transfer_each done results message failure (suc i) bytes names))
            (let (later, q) = transfer_each-IsSound (suc i) total names in
              ((progress i total, later), q))
            (transfer (results name)).1 in
        rw d (
          ms,
          elim ends [
            | inl (e, q) ↦ inl (e, (refl, q.0, q.1))
            | inr (e, q, bad) ↦ inr (e, q, (λ p. bad (p.1, p.2)))
          ],
        )
  ]

then_part-IsSound :
    (P Q : Type 0) (total : ℕ) (m : Sending) (rest : ℕ → Sending)
    → IsSound P total m
    → IsSound Q total (rest total)
    → IsSound (P × Q) total (then_part m rest)
then_part-IsSound P Q total (ms, fails e t) rest (h, inl (q, _)) later = cc
then_part-IsSound P Q total (ms, fails e t) rest (h, inr (e', q, bad)) later =
    (h, inr (e', q, (λ p. bad p.0)))
then_part-IsSound P Q total (ms, goes_on t) rest (h, inr (e, q, bad)) later = cc
then_part-IsSound P Q total (ms, goes_on t) rest (h, inl (q, p)) (h', ends) =
    let same : t ≡ total = cc in
    rw same (
      AllProgress-append ms (rest total).0 h h',
      elim ends [ inl (e, q') ↦ inl (e, (p, q')) | inr (e, q', bad) ↦ inr (e, q', (λ b. bad b.1)) ],
    )

-- The client is made, the context is done before no transfer, and no transfer fails.
abbrev pub AllSucceed : Environment → MigrationRequest → Type 0
AllSucceed env req =
    (env.client ≡ none)
    × AllPass env.done_before_volume env.volume 0 req.volume_names
    × AllPass env.done_before_image env.image 0 req.image_ids

abbrev BothPass : Environment → MigrationRequest → Type 0
BothPass env req =
    (AllPass env.done_before_volume env.volume 0 req.volume_names
      × AllPass env.done_before_image env.image 0 req.image_ids)
    × Unit {0}

volumes-IsSound :
    (env : Environment) (id : String) (names : List String)
    → IsSound (AllPass env.done_before_volume env.volume 0 names) 0 (send_volumes env id names)
volumes-IsSound env id names =
    let (h, q) =
      transfer_each-IsSound env.done_before_volume env.volume _ "volume transfer failed: "
        (λ i b. tt) 0 0 names in
    ((tt, h), q)

images-IsSound :
    (env : Environment) (id : String) (names : List String)
    → IsSound (AllPass env.done_before_image env.image 0 names) 0 (send_images env id names 0)
images-IsSound env id names =
    let (h, q) =
      transfer_each-IsSound env.done_before_image env.image _ "image transfer failed: " (λ i b. tt)
        0 0 names in
    ((tt, h), q)

transfers-IsSound :
    (env : Environment) (req : MigrationRequest) (client : Option String)
    → IsSound ((client ≡ none) × BothPass env req) 0 (transfers env req client)
transfers-IsSound env req (some e) = (tt, inr (e, refl, (λ p. let n = p.0 in cc)))
transfers-IsSound env req none =
    let id = req.migration_id in
    let volumes = send_volumes env id req.volume_names in
    let images = send_images env id req.image_ids in
    let loops =
      then_part-IsSound _ _ 0 volumes images (volumes-IsSound env id req.volume_names)
        (images-IsSound env id req.image_ids) in
    let (h, ends) =
      then_part-IsSound _ _ 0 (then_part volumes images) (send_finalizing env id) loops
        ((tt, tt), inl (refl, tt)) in
    (
      h,
      elim ends [ inl (e, q) ↦ inl (e, (refl, q)) | inr (e, q, bad) ↦ inr (e, q, (λ p. bad p.1)) ],
    )

-- An execution as the source sends reports of progress, and then exactly one report of completion, as
-- its last message: of success exactly if the client can be made, the migration is not cancelled before
-- a transfer, and every transfer succeeds. The report counts no bytes, whatever the volumes and images.
pub execute_as_source_lem :
    (env : Environment) (req : MigrationRequest)
    → (sent : List WorkerMessage) × (success : Bool) × (error : String) × (execute_as_source env req
        ≡ sent ++ complete_message env.credentials req.migration_id success error 0 ∷ [])
      × AllProgress sent
      × ((success ≡ true) ↔ AllSucceed env req)
unfolding execute_as_source
execute_as_source_lem env req =
    let (h, ends) = transfers-IsSound env req env.client in
    let sent = (transfers env req env.client).0 in
    elim ends [
      | inl (e, (c, ((v, i), _))) ↦ (
        sent,
        true,
        "",
        ap (λ part. sent ++ completed env req.migration_id part ∷ []) e,
        h,
        ((λ _. (c, v, i)), (λ _. refl)),
      )
      | inr (x, e, bad) ↦ (
        sent,
        false,
        x,
        ap (λ part. sent ++ completed env req.migration_id part ∷ []) e,
        h,
        ((λ t. cc), (λ (c, v, i). absurd (bad (c, ((v, i), tt))))),
      )
    ]
