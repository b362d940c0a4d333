-- ===== src/Master/Proxy/Kept.antt =====
-- internal/master/proxy.go: no step of the proxy frees a channel that its source has left.
use dockation.Prelude.{
  ℕ, String, ◌≡◌, refl, some, List, [], ◌∷◌, ◌⊎◌, inl, inr, get_elem?, Option-cases, Bool-cases,
}
use dockation.Proto.Transfers.{ProxyData, ProxyRole, ProxyHandshake}
use dockation.Master.Registry.{Registry, get_by_auth_token}
use dockation.Master.Proxy.Channels.{
  ProxyManager, ProxyError, get_or_create_channel, register_stream, on_channel, join_channel,
  authenticate, open_proxy_channel, is_handshake, get_handshake, same_worker, not_a_handshake,
  no_payload, invalid_token, id_mismatch,
}
use dockation.Master.Proxy.Sessions.{
  start_relay, source_returns, target_returns, source_round, target_round, Event, opens, starts,
  source_gives_up, target_gives_up, finishes, source_receives, target_receives, cancels_channel,
  step, run,
}
use dockation.Master.Proxy.Dead.{
  Stuck, set-Stuck, modify-Stuck, start_relay_id, source_round_id, target_round_id,
  start_relay-Dead, source_returns-Dead, source_round-Dead, target_round-Dead, cancel_channel-Stuck,
  finish-Stuck, get_or_create_channel-Stuck, register_stream_id, register_stream-Dead,
}

join_channel-Stuck :
    (id : String) (c : ℕ) (pm : ProxyManager) (other : String) (role : ProxyRole) (stream : ℕ)
    → Stuck id c pm
    → Stuck id c (join_channel pm other role stream).1
unfolding join_channel on_channel
join_channel-Stuck id c pm other role stream s =
    let pm' = (get_or_create_channel pm other).1 in
    let k = (get_or_create_channel pm other).0 in
    let s' = (get_or_create_channel-Stuck id c pm other s).0 in
    elim (Option-cases (get_elem? pm'.store k)) [
      | inl e ↦ rw (e, on_channel) s'
      | inr (old, e) ↦
          rw (e, on_channel)
            (set-Stuck id c (λ ch. (register_stream role stream ch).1)
              (register_stream_id role stream) k (λ ch here. register_stream-Dead role stream id ch)
              pm' old e s')
    ]

-- OpenProxyChannel refuses, and changes nothing, or joins the channel in the role of its handshake.
pub open_proxy_channel-cases :
    (r : Registry) (pm : ProxyManager) (msg : ProxyData) (stream : ℕ)
    → ((e : ProxyError) × (open_proxy_channel r pm msg stream ≡ (some e, pm)))
      ⊎ ((h : ProxyHandshake) × (get_handshake msg.payload ≡ some h)
          × (open_proxy_channel r pm msg stream ≡ join_channel pm msg.migration_id h.role stream))
unfolding open_proxy_channel authenticate
open_proxy_channel-cases r pm msg stream = elim (Bool-cases (is_handshake msg.data_type)) [
  | inr n ↦ inl (not_a_handshake, rw n refl)
  | inl y ↦ elim (Option-cases (get_handshake msg.payload)) [
    | inl e ↦ inl (no_payload, rw (y, e, open_proxy_channel) refl)
    | inr (h, e) ↦ elim (Option-cases (get_by_auth_token r h.auth_token)) [
      | inl e' ↦ inl (invalid_token, rw (y, e, open_proxy_channel, e', authenticate) refl)
      | inr (w, e') ↦ elim (Bool-cases (same_worker w msg.worker_id)) [
        | inl t ↦ inr (h, e, rw (y, e, open_proxy_channel, e', authenticate, t) refl)
        | inr f ↦ inl (id_mismatch, rw (y, e, open_proxy_channel, e', authenticate, f) refl)
      ]
    ]
  ]
]

open_proxy_channel-Stuck :
    (id : String) (c : ℕ) (r : Registry) (pm : ProxyManager) (msg : ProxyData) (stream : ℕ)
    → Stuck id c pm
    → Stuck id c (open_proxy_channel r pm msg stream).1
open_proxy_channel-Stuck id c r pm msg stream s = elim (open_proxy_channel-cases r pm msg stream) [
  | inl (e, q) ↦ rw q s
  | inr (h, _, q) ↦ rw q (join_channel-Stuck id c pm msg.migration_id h.role stream s)
]

step-Stuck :
    (id : String) (c : ℕ) (pm : ProxyManager) (e : Event) → Stuck id c pm → Stuck id c (step pm e)
unfolding step
step-Stuck id c pm (opens r msg stream) s = open_proxy_channel-Stuck id c r pm msg stream s
step-Stuck id c pm (starts k) s =
    modify-Stuck id c start_relay start_relay_id k (λ ch. start_relay-Dead id c k ch) pm s
step-Stuck id c pm (source_gives_up k) s =
    modify-Stuck id c source_returns (λ ch. refl) k (λ ch. source_returns-Dead id c k ch) pm s
step-Stuck id c pm (target_gives_up k) s =
    modify-Stuck id c target_returns (λ ch. refl) k (λ ch here d. d) pm s
step-Stuck id c pm (finishes k) s = finish-Stuck id c pm k s
step-Stuck id c pm (source_receives k i) s =
    modify-Stuck id c (source_round i) (source_round_id i) k
      (λ ch e. source_round-Dead id c k ch e i) pm s
step-Stuck id c pm (target_receives k i) s =
    modify-Stuck id c (target_round i) (target_round_id i) k
      (λ ch e. target_round-Dead id c k ch e i) pm s
step-Stuck id c pm (cancels_channel other reason) s = cancel_channel-Stuck id c pm other reason s

pub run-Stuck :
    (id : String) (c : ℕ) (pm : ProxyManager) (es : List Event)
    → Stuck id c pm
    → Stuck id c (run pm es)
unfolding run
run-Stuck id c pm [] s = s
run-Stuck id c pm (e ∷ es) s = run-Stuck id c (step pm e) es (step-Stuck id c pm e s)
