-- ===== src/Master/Proxy/Dead.antt =====
-- internal/master/proxy.go: what the steps of the proxy leave of a channel that its source has left.
use native.Mathlib.Decide.{ℕ_discrete}
use dockation.Prelude.{
  ℕ, suc, zero, String, ◌≡◌, ◌≢◌, refl, sym, ap, ◌∙◌, true, false, none, some, List, [], ◌∷◌, ◌++◌,
  ◌⊎◌, inl, inr, arith, length, get_elem?, set, is_some, Option-cases, Bool-cases, get_elem?-set_ne,
  get_elem?-set_self,
}
use dockation.Prelude.Dict.{lookup, delete, lookup-insert_ne, lookup-delete_ne}
use dockation.Proto.Transfers.{ProxyRole}
use dockation.Master.Proxy.Channels.{
  returned, Relay, idle, cleaned, running, ProxyChannel, ProxyManager, new_channel,
  get_or_create_channel, register_stream, source_registered,
}
use dockation.Master.Proxy.Relaying.{Incoming}
use dockation.Master.Proxy.Sessions.{
  start_relay, source_returns, source_round, target_round, cancel, modify, clean, finish_relay,
  cleanup_channel, finish, cancel_channel,
}

pub get_elem?-create :
    (store : List ProxyChannel) (new : ProxyChannel) (k : ℕ) (ch : ProxyChannel)
    → get_elem? (store ++ new ∷ []) k ≡ some ch
    → (get_elem? store k ≡ some ch) ⊎ ((k ≡ length store) × (ch ≡ new))
get_elem?-create [] new zero ch e = inr (refl, cc)
get_elem?-create [] new (suc k) ch e = cc
get_elem?-create (x ∷ xs) new zero ch e = inl e
get_elem?-create (x ∷ xs) new (suc k) ch e = elim (get_elem?-create xs new k ch e) [
  | inl old ↦ inl old
  | inr (n, same) ↦ inr (ap suc n, same)
]

get_elem?-create_old :
    (store : List ProxyChannel) (new : ProxyChannel) (k : ℕ) (ch : ProxyChannel)
    → get_elem? store k ≡ some ch
    → get_elem? (store ++ new ∷ []) k ≡ some ch
get_elem?-create_old [] new k ch e = cc
get_elem?-create_old (x ∷ xs) new zero ch e = e
get_elem?-create_old (x ∷ xs) new (suc k) ch e = get_elem?-create_old xs new k ch e

-- A channel whose source has joined and left, and which is cancelled.
abbrev pub Dead : String → ProxyChannel → Type 0
Dead id ch =
    (ch.migration_id ≡ id)
    × (is_some ch.source_stream ≡ true)
    × (ch.source_handler ≡ returned)
    × (ch.cancelled ≡ true)
    × (ch.relay ≡ idle)

abbrev pub Sole : String → ℕ → List ProxyChannel → Type 0
Sole id c store =
    (k : ℕ) (ch : ProxyChannel) → get_elem? store k ≡ some ch → ch.migration_id ≡ id → k ≡ c

abbrev pub Stuck : String → ℕ → ProxyManager → Type 0
Stuck id c pm =
    (lookup id pm.channels ≡ some c)
    × ((ch : ProxyChannel) × (get_elem? pm.store c ≡ some ch) × Dead id ch)
    × Sole id c pm.store

module _ (id : String) (c : ℕ) (f : ProxyChannel → ProxyChannel)
    (same : (ch : ProxyChannel) → (f ch).migration_id ≡ ch.migration_id) (k : ℕ)
    (dead : (ch : ProxyChannel) → k ≡ c → Dead id ch → Dead id (f ch)) where
  Sole-set :
      (store : List ProxyChannel) (old : ProxyChannel)
      → get_elem? store k ≡ some old
      → Sole id c store
      → Sole id c (set store k (f old))
  Sole-set store old e sole j ch e' m = elim (ℕ_discrete k j) [
    | yes p ↦
        let e'' : get_elem? (set store j (f old)) j ≡ some ch = rw (← p) (rw (← p) at e') in
        let hit = get_elem?-set_self store j old (f old) (rw (← p) e) in
        let eq : f old ≡ ch = cc in
        sole j old (rw (← p) e) (sym (same old) ∙ ap (λ x. x.migration_id) eq ∙ m)
    | no ne ↦ sole j ch (sym (get_elem?-set_ne store k j (f old) ne) ∙ e') m
  ]

  found-set :
      (store : List ProxyChannel) (old ch : ProxyChannel)
      → get_elem? store k ≡ some old
      → get_elem? store c ≡ some ch
      → Dead id ch
      → (ch' : ProxyChannel) × (get_elem? (set store k (f old)) c ≡ some ch') × Dead id ch'
  found-set store old ch e here d = elim (ℕ_discrete k c) [
    | yes p ↦
        let e' : get_elem? store c ≡ some old = rw (← p) e in
        let eq : ch ≡ old = cc in
        (f old, rw p (get_elem?-set_self store c old (f old) e'), dead old p (rw (← eq) d))
    | no ne ↦ (ch, get_elem?-set_ne store k c (f old) ne ∙ here, d)
  ]

  -- The fields of the manager that a change of the channel `k` leaves.
  pub set-Stuck :
      (pm : ProxyManager) (old : ProxyChannel)
      → get_elem? pm.store k ≡ some old
      → Stuck id c pm
      → Stuck id c (record pm { store = set pm.store k (f old) })
  set-Stuck pm old e (m, (ch, here, d), sole) =
      (m, found-set pm.store old ch e here d, Sole-set pm.store old e sole)

  pub modify-Stuck : (pm : ProxyManager) → Stuck id c pm → Stuck id c (modify f k pm)
  unfolding modify
  modify-Stuck pm s = elim (Option-cases (get_elem? pm.store k)) [
    | inl e ↦ rw (e, modify) s
    | inr (old, e) ↦ rw (e, modify) (set-Stuck pm old e s)
  ]

pub start_relay_id : (ch : ProxyChannel) → (start_relay ch).migration_id ≡ ch.migration_id
unfolding start_relay
start_relay_id ch = ground arith

start_relay_dead : (ch : ProxyChannel) → ch.source_handler ≡ returned → start_relay ch ≡ ch
unfolding start_relay
start_relay_dead ch h = ground arith

pub source_round_id :
    (i : Incoming) (ch : ProxyChannel) → (source_round i ch).migration_id ≡ ch.migration_id
unfolding source_round
source_round_id i ch = ground arith

source_round-idle : (i : Incoming) (ch : ProxyChannel) → ch.relay ≡ idle → source_round i ch ≡ ch
unfolding source_round
source_round-idle i ch h = ground arith

pub target_round_id :
    (i : Incoming) (ch : ProxyChannel) → (target_round i ch).migration_id ≡ ch.migration_id
unfolding target_round
target_round_id i ch = ground arith

target_round-idle : (i : Incoming) (ch : ProxyChannel) → ch.relay ≡ idle → target_round i ch ≡ ch
unfolding target_round
target_round-idle i ch h = ground arith

module _ (id : String) (c k : ℕ) (ch : ProxyChannel) (here : k ≡ c) where
  pub cancel-Dead : Dead id ch → Dead id (cancel ch)
  cancel-Dead (a, b, h, d, r) = (a, b, h, refl, r)

  pub start_relay-Dead : Dead id ch → Dead id (start_relay ch)
  start_relay-Dead d = rw (start_relay_dead ch d.2) d

  pub source_returns-Dead : Dead id ch → Dead id (source_returns ch)
  source_returns-Dead (a, b, h, d, r) = (a, b, ground arith, d, r)

  pub source_round-Dead : (i : Incoming) → Dead id ch → Dead id (source_round i ch)
  source_round-Dead i d = rw (source_round-idle i ch d.4) d

  pub target_round-Dead : (i : Incoming) → Dead id ch → Dead id (target_round i ch)
  target_round-Dead i d = rw (target_round-idle i ch d.4) d

pub cancel_channel-Stuck :
    (id : String) (c : ℕ) (pm : ProxyManager) (other reason : String)
    → Stuck id c pm
    → Stuck id c (cancel_channel pm other reason).2
unfolding cancel_channel
cancel_channel-Stuck id c pm other reason s = elim (Option-cases (lookup other pm.channels)) [
  | inl e ↦ rw (e, cancel_channel) s
  | inr (k, e) ↦ elim (Option-cases (get_elem? pm.store k)) [
    | inl e' ↦ rw (e, cancel_channel, e') s
    | inr (old, e') ↦
        rw (e, cancel_channel, e')
          (set-Stuck id c cancel (λ ch. refl) k (λ ch. cancel-Dead id c k ch) pm old e' s)
  ]
]

module _ (id : String) (c : ℕ) where
  kept :
      (pm : ProxyManager) (other : String)
      → other ≢ id
      → Stuck id c pm
      → lookup id (delete other pm.channels) ≡ some c
  kept pm other ne (m, rest, sole) = lookup-delete_ne other id pm.channels (λ e. ne (sym e)) ∙ m

  cleanup_channel-Stuck :
      (pm : ProxyManager) (other : String)
      → other ≢ id
      → Stuck id c pm
      → Stuck id c (cleanup_channel other pm)
  unfolding cleanup_channel
  cleanup_channel-Stuck pm other ne s = elim (Option-cases (lookup other pm.channels)) [
    | inl e ↦ rw (e, cleanup_channel) s
    | inr (k, e) ↦
        let s' = modify-Stuck id c cancel (λ ch. refl) k (λ ch. cancel-Dead id c k ch) pm s in
        rw (e, cleanup_channel) (kept pm other ne s, s'.1, s'.2)
  ]

  -- A channel whose loops have ended is another one.
  finish_relay-Stuck :
      (relay : Relay) (other : String) (k : ℕ) (pm : ProxyManager)
      → (relay ≡ running false false → (other ≢ id) × (k ≢ c))
      → Stuck id c pm
      → Stuck id c (finish_relay relay other k pm)
  finish_relay-Stuck idle other k pm ne s = s
  finish_relay-Stuck cleaned other k pm ne s = s
  finish_relay-Stuck (running true target) other k pm ne s = s
  finish_relay-Stuck (running false true) other k pm ne s = s
  finish_relay-Stuck (running false false) other k pm ne s =
      let (ne_id, ne_c) = ne refl in
      cleanup_channel-Stuck (modify clean k pm) other ne_id
        (modify-Stuck id c clean (λ ch. refl) k (λ ch e d. absurd (ne_c e)) pm s)

  running_elsewhere :
      (pm : ProxyManager) (k : ℕ) (old : ProxyChannel)
      → get_elem? pm.store k ≡ some old
      → old.relay ≡ running false false
      → Stuck id c pm
      → (old.migration_id ≢ id) × (k ≢ c)
  running_elsewhere pm k old e r (m, (ch, here, d), sole) =
      let apart : k ≢ c = λ p. let same : old ≡ ch = cc in cc in
      ((λ p. apart (sole k old e p)), apart)

  pub finish-Stuck : (pm : ProxyManager) (k : ℕ) → Stuck id c pm → Stuck id c (finish k pm)
  unfolding finish
  finish-Stuck pm k s = elim (Option-cases (get_elem? pm.store k)) [
    | inl e ↦ rw (e, finish) s
    | inr (old, e) ↦
        rw (e, finish)
          (finish_relay-Stuck old.relay old.migration_id k pm
            (λ r. running_elsewhere pm k old e r s) s)
  ]

  Sole-create :
      (store : List ProxyChannel) (other : String)
      → other ≢ id
      → Sole id c store
      → Sole id c (store ++ new_channel other ∷ [])
  Sole-create store other ne sole k ch e m =
      elim (get_elem?-create store (new_channel other) k ch e) [
        | inl old ↦ sole k ch old m
        | inr (n, same) ↦ absurd (ne (sym (ap (λ x. x.migration_id) same) ∙ m))
      ]

  pub get_or_create_channel-Stuck :
      (pm : ProxyManager) (other : String)
      → Stuck id c pm
      → Stuck id c (get_or_create_channel pm other).1
        × (other ≡ id → (get_or_create_channel pm other).0 ≡ c)
  unfolding get_or_create_channel
  get_or_create_channel-Stuck pm other s = elim (Option-cases (lookup other pm.channels)) [
    | inr (k, e) ↦
        rw (e, get_or_create_channel)
          (s, (λ p. let e' : lookup id pm.channels ≡ some k = rw (← p) e in let m = s.0 in cc))
    | inl e ↦
        let (m, (ch, here, d), sole) = s in
        let ne : other ≢ id = λ p. let e' : lookup id pm.channels ≡ none = rw (← p) e in cc in
        rw (e, get_or_create_channel)
          (
            (
              lookup-insert_ne other id (length pm.store) pm.channels (λ p. ne (sym p)) ∙ m,
              (ch, get_elem?-create_old pm.store (new_channel other) c ch here, d),
              Sole-create pm.store other ne sole,
            ),
            (λ p. absurd (ne p)),
          )
  ]

pub register_stream_id :
    (role : ProxyRole) (stream : ℕ) (ch : ProxyChannel)
    → (register_stream role stream ch).1.migration_id ≡ ch.migration_id
unfolding register_stream
register_stream_id role stream ch = ground arith

pub source_again :
    (stream : ℕ) (ch : ProxyChannel)
    → is_some ch.source_stream ≡ true
    → register_stream ProxyRole.source stream ch ≡ (some (source_registered ch.migration_id), ch)
unfolding register_stream
source_again stream ch t = ground arith

pub register_stream-Dead :
    (role : ProxyRole) (stream : ℕ) (id : String) (ch : ProxyChannel)
    → Dead id ch
    → Dead id (register_stream role stream ch).1
unfolding register_stream
register_stream-Dead ProxyRole.source stream id ch d = rw (source_again stream ch d.1) d
register_stream-Dead ProxyRole.target stream id ch d =
    elim (Bool-cases (is_some ch.target_stream)) [ inl t ↦ rw t d | inr f ↦ rw f d ]
register_stream-Dead (ProxyRole.unknown n) stream id ch d = d
