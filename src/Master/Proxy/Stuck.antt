-- ===== src/Master/Proxy/Stuck.antt =====
-- internal/master/proxy.go: a channel whose source gives up on a cancellation before its target joins.
use mathlib.Core.Path.{subst}
use dockation.Prelude.{
  ℕ, String, ◌≡◌, ◌≢◌, refl, sym, ap, ◌∙◌, true, Option, none, some, List, [], ◌∷◌, ◌++◌, inl, inr,
  length, get_elem?, set, set-append, get_elem?-last,
}
use dockation.Prelude.Dict.{Dict, lookup, insert, lookup-insert_self}
use dockation.Proto.Transfers.{ProxyData, ProxyRole, ProxyHandshake}
use dockation.Master.Registry.{Registry}
use dockation.Master.Proxy.Channels.{
  returned, waiting, ProxyChannel, ProxyManager, ProxyError, new_channel, get_or_create_channel,
  register_stream, on_channel, join_channel, open_proxy_channel, get_handshake,
}
use dockation.Master.Proxy.Sessions.{
  source_returns, cancel, modify, get_channel, cancel_channel, Event, opens, source_gives_up,
  cancels_channel, step, run,
}
use dockation.Master.Proxy.Dead.{Stuck, get_elem?-create, get_or_create_channel-Stuck, source_again}
use dockation.Master.Proxy.Kept.{open_proxy_channel-cases, run-Stuck}

-- A migration for which no channel has been made.
abbrev pub Fresh : String → ProxyManager → Type 0
Fresh id pm =
    (lookup id pm.channels ≡ none)
    × ((k : ℕ) (ch : ProxyChannel) → get_elem? pm.store k ≡ some ch → ch.migration_id ≢ id)

-- The message is a handshake of this migration in this role.
abbrev pub IsHandshakeOf : String → ProxyRole → ProxyData → Type 0
IsHandshakeOf id role msg =
    (msg.migration_id ≡ id)
    × ((h : ProxyHandshake) × (get_handshake msg.payload ≡ some h) × (h.role ≡ role))

-- The source joins, and nothing is there for the migration.
abbrev with_source : String → ℕ → ProxyChannel
with_source id stream = record (new_channel id) {
  source_stream = some stream;
  source_ready = true;
  source_handler = waiting;
}

abbrev joined : ProxyManager → String → ℕ → ProxyManager
joined pm id stream = record {
  store = pm.store ++ with_source id stream ∷ [];
  channels = insert id (length pm.store) pm.channels;
}

abbrev with_last : List ProxyChannel → ProxyChannel → Dict ℕ → ProxyManager
with_last xs y channels = record { store = xs ++ y ∷ []; channels = channels }

modify_last :
    (f : ProxyChannel → ProxyChannel) (xs : List ProxyChannel) (y : ProxyChannel)
    (channels : Dict ℕ)
    → modify f (length xs) (with_last xs y channels) ≡ with_last xs (f y) channels
unfolding modify
modify_last f xs y channels =
    rw (get_elem?-last xs y, modify)
      (ap (λ st. record { store = st; channels = channels }) (set-append xs y [] (f y)))

on_channel-some :
    (f : ProxyChannel → Option ProxyError × ProxyChannel) (k : ℕ) (pm : ProxyManager)
    (ch : ProxyChannel)
    → get_elem? pm.store k ≡ some ch
    → on_channel none f k pm ≡ ((f ch).0, record pm { store = set pm.store k (f ch).1 })
unfolding on_channel
on_channel-some f k pm ch e = rw (e, on_channel) refl

create_fresh :
    (pm : ProxyManager) (id : String)
    → lookup id pm.channels ≡ none
    → get_or_create_channel pm id ≡ (
      length pm.store,
      with_last pm.store (new_channel id) (insert id (length pm.store) pm.channels),
    )
unfolding get_or_create_channel
create_fresh pm id e = rw (e, get_or_create_channel) refl

abbrev join_at : ProxyRole → ℕ → ℕ × ProxyManager → Option ProxyError × ProxyManager
join_at role stream (k, pm) = on_channel none (register_stream role stream) k pm

join_channel_eq :
    (pm : ProxyManager) (id : String) (role : ProxyRole) (stream : ℕ)
    → join_channel pm id role stream ≡ join_at role stream (get_or_create_channel pm id)
unfolding join_channel
join_channel_eq pm id role stream = refl

join_fresh :
    (pm : ProxyManager) (id : String) (stream : ℕ)
    → lookup id pm.channels ≡ none
    → join_channel pm id ProxyRole.source stream ≡ (none, joined pm id stream)
unfolding register_stream
join_fresh pm id stream e =
    let channels = insert id (length pm.store) pm.channels in
    let new = new_channel id in
    join_channel_eq pm id ProxyRole.source stream
    ∙ ap (join_at ProxyRole.source stream) (create_fresh pm id e)
    ∙ on_channel-some (register_stream ProxyRole.source stream) (length pm.store)
        (with_last pm.store new channels) new (get_elem?-last pm.store new)
    ∙ ap (λ st. (none, record { store = st; channels = channels }))
        (set-append pm.store new [] (with_source id stream))

-- The channel is then cancelled, and the source's handler returns.
abbrev dead_channel : String → ℕ → ProxyChannel
dead_channel id stream = record (with_source id stream) {
  cancelled = true;
  source_handler = returned;
}

cancel-joined :
    (pm : ProxyManager) (id reason : String) (stream : ℕ)
    → (cancel_channel (joined pm id stream) id reason).2
      ≡ with_last pm.store
          (cancel (with_source id stream))
          (insert id (length pm.store) pm.channels)
unfolding cancel_channel
cancel-joined pm id reason stream =
    let channels = insert id (length pm.store) pm.channels in
    rw
      (
        lookup-insert_self id (length pm.store) pm.channels,
        cancel_channel,
        get_elem?-last pm.store (with_source id stream),
      )
      (ap (λ st. record { store = st; channels = channels })
        (set-append pm.store (with_source id stream) [] (cancel (with_source id stream))))

abandoned-Stuck :
    (id : String) (pm : ProxyManager) (stream : ℕ)
    → Fresh id pm
    → Stuck id
        (length pm.store)
        (with_last pm.store (dead_channel id stream) (insert id (length pm.store) pm.channels))
abandoned-Stuck id pm stream (absent, apart) = (
  lookup-insert_self id (length pm.store) pm.channels,
  (
    dead_channel id stream,
    get_elem?-last pm.store (dead_channel id stream),
    (refl, refl, refl, refl, refl),
  ),
  (λ k ch e m. elim (get_elem?-create pm.store (dead_channel id stream) k ch e) [
    | inl old ↦ absurd (apart k ch old m)
    | inr (n, _) ↦ n
  ]),
)

-- The source joins, the migration is cancelled, and the source's handler sees that.
abbrev pub abandons : ProxyManager → Registry → ProxyData → ℕ → String → List Event
abandons pm r msg stream reason =
    opens r msg stream
    ∷ cancels_channel msg.migration_id reason
    ∷ source_gives_up (length pm.store)
    ∷ []

join_again :
    (id : String) (c : ℕ) (pm : ProxyManager) (other : String) (stream : ℕ)
    → Stuck id c pm
    → other ≡ id
    → (join_channel pm other ProxyRole.source stream).0 ≢ none
join_again id c pm other stream s same =
    let (s', place) = get_or_create_channel-Stuck id c pm other s in
    let (ch, here, d) = s'.1 in
    let g = get_or_create_channel pm other in
    let found : get_elem? g.1.store g.0 ≡ some ch = rw (place same) here in
    rw
      (
        join_channel_eq pm other ProxyRole.source stream,
        on_channel-some (register_stream ProxyRole.source stream) g.0 g.1 ch found,
        source_again stream ch d.1,
      )
      (λ e. cc)

refused_again :
    (id : String) (c : ℕ) (r : Registry) (pm : ProxyManager) (msg : ProxyData) (stream : ℕ)
    → Stuck id c pm
    → IsHandshakeOf id ProxyRole.source msg
    → (open_proxy_channel r pm msg stream).0 ≢ none
refused_again id c r pm msg stream s (same, (h, e, source)) =
    elim (open_proxy_channel-cases r pm msg stream) [
      | inl (x, q) ↦ rw q (λ n. cc)
      | inr (h', e', q) ↦
          let eq : h' ≡ h = cc in
          let role = ap (λ x. x.role) eq ∙ source in
          rw q (
            subst (λ (r' : ProxyRole). (join_channel pm msg.migration_id r' stream).0 ≢ none)
              (sym role) (join_again id c pm msg.migration_id stream s same))
    ]

opened :
    (r : Registry) (pm : ProxyManager) (msg : ProxyData) (stream : ℕ)
    → Fresh msg.migration_id pm
    → IsHandshakeOf msg.migration_id ProxyRole.source msg
    → (open_proxy_channel r pm msg stream).0 ≡ none
    → (open_proxy_channel r pm msg stream).1 ≡ joined pm msg.migration_id stream
opened r pm msg stream fresh (_, (h, e, source)) ok =
    elim (open_proxy_channel-cases r pm msg stream) [
      | inl (x, q) ↦ let bad = ap (λ o. o.0) q in cc
      | inr (h', e', q) ↦
          let eq : h' ≡ h = cc in
          ap (λ o. o.1) q
          ∙ ap (λ (r' : ProxyRole). (join_channel pm msg.migration_id r' stream).1)
              (ap (λ x. x.role) eq ∙ source)
          ∙ ap (λ o. o.1) (join_fresh pm msg.migration_id stream fresh.0)
    ]

abandoned_eq :
    (r : Registry) (pm : ProxyManager) (msg : ProxyData) (stream : ℕ) (reason : String)
    → Fresh msg.migration_id pm
    → IsHandshakeOf msg.migration_id ProxyRole.source msg
    → (open_proxy_channel r pm msg stream).0 ≡ none
    → run pm (abandons pm r msg stream reason)
      ≡ with_last pm.store
          (dead_channel msg.migration_id stream)
          (insert msg.migration_id (length pm.store) pm.channels)
unfolding run step
abandoned_eq r pm msg stream reason fresh source ok =
    let id = msg.migration_id in
    let channels = insert id (length pm.store) pm.channels in
    ap (λ m. modify source_returns (length pm.store) (cancel_channel m id reason).2)
      (opened r pm msg stream fresh source ok)
    ∙ ap (modify source_returns (length pm.store)) (cancel-joined pm id reason stream)
    ∙ modify_last source_returns pm.store (cancel (with_source id stream)) channels

run-append :
    (pm : ProxyManager) (es later : List Event) → run pm (es ++ later) ≡ run (run pm es) later
unfolding run
run-append pm [] later = refl
run-append pm (e ∷ es) later = run-append (step pm e) es later

Stuck-get_channel :
    (id : String) (c : ℕ) (pm : ProxyManager)
    → Stuck id c pm
    → (ch : ProxyChannel) × (get_channel pm id ≡ some ch) × (ch.cancelled ≡ true)
unfolding get_channel
Stuck-get_channel id c pm (m, (ch, here, d), sole) = (ch, rw (m, get_channel) here, d.3)

-- The source of a migration that has had no channel yet joins, the migration is cancelled, and the
-- source's handler sees that and returns, all before the target joins or anything else happens in the
-- proxy. Then the channel is left behind for good: after any further steps it is still in the map,
-- cancelled, and a further attempt to join as the source is refused.
pub cancelled_early :
    (r : Registry) (pm : ProxyManager) (msg : ProxyData) (stream : ℕ) (reason : String)
    (later : List Event) (r' : Registry) (msg' : ProxyData) (stream' : ℕ)
    → Fresh msg.migration_id pm
    → IsHandshakeOf msg.migration_id ProxyRole.source msg
    → (open_proxy_channel r pm msg stream).0 ≡ none
    → IsHandshakeOf msg.migration_id ProxyRole.source msg'
    → ((ch : ProxyChannel) × (get_channel
            (run pm (abandons pm r msg stream reason ++ later))
            msg.migration_id
          ≡ some ch)
        × (ch.cancelled ≡ true))
      × ((open_proxy_channel r' (run pm (abandons pm r msg stream reason ++ later)) msg' stream').0
          ≢ none)
cancelled_early r pm msg stream reason later r' msg' stream' fresh source ok again =
    let id = msg.migration_id in
    let c = length pm.store in
    let early : Stuck id c (run pm (abandons pm r msg stream reason)) =
      rw (abandoned_eq r pm msg stream reason fresh source ok)
        (abandoned-Stuck id pm stream fresh) in
    let late : Stuck id c (run pm (abandons pm r msg stream reason ++ later)) =
      rw (run-append pm (abandons pm r msg stream reason) later)
        (run-Stuck id c (run pm (abandons pm r msg stream reason)) later early) in
    let pm' = run pm (abandons pm r msg stream reason ++ later) in
    (Stuck-get_channel id c pm' late, refused_again id c r' pm' msg' stream' late again)
