-- ===== src/Server/Hub/Stuck.antt =====
-- internal/server/websocket.go: a client that does not read stops the hub.
use mathlib.Core.Path.{subst}
use mathlib.Core.List.{append-nil, append_assoc}
use dockation.Prelude.{
  ℕ, ◌==◌, String, ◌≡◌, ◌≢◌, refl, sym, ap, ◌∙◌, ◌⊎◌, inl, inr, true, false, Option, none, some,
  List, [], ◌∷◌, ◌++◌, get_elem?, set, arith, if◌then◌else◌, Bool-cases, Option-cases,
  get_elem?-set_self, get_elem?-set_ne,
}
use dockation.Server.Hub.{
  Channel, selecting, blocked, Hub, has_room, push, blocks, panics, send_one, send_each,
  after_sends, deliver, register, is_client, unregister, stop_hub, broadcast, answer_ping, write,
  take_message, Event, starts, stops, joins, leaves, writes, broadcasts, delivers, pings, step, run,
}

abbrev pub IsOpen : Option Channel → Type 0
IsOpen none = Unit
IsOpen (some ch) = ch.closed ≡ false

-- None of these channels is closed.
abbrev pub AllOpen : List Channel → List ℕ → Type 0
AllOpen store [] = Unit
AllOpen store (c ∷ cs) = IsOpen (get_elem? store c) × AllOpen store cs

pub different : (x y : ℕ) → (x == y) ≡ false → x ≢ y
different x y e f = ground arith

IsOpen-push :
    (m : String) (store : List Channel) (x y : ℕ) (ch : Channel)
    → get_elem? store x ≡ some ch
    → IsOpen (get_elem? store y)
    → IsOpen (get_elem? (set store x (push m ch)) y)
IsOpen-push m store x y ch here o = elim (Bool-cases (x == y)) [
  | inl same ↦
      let e : x ≡ y = ground arith in
      subst (λ z. IsOpen (get_elem? (set store x (push m ch)) z)) e
        (subst IsOpen (sym (get_elem?-set_self store x ch (push m ch) here))
          (subst IsOpen (ap (get_elem? store) (sym e) ∙ here) o))
  | inr other ↦ subst IsOpen (sym (get_elem?-set_ne store x y (push m ch) (different x y other))) o
]

AllOpen-push :
    (m : String) (store : List Channel) (x : ℕ) (ch : Channel) (cs : List ℕ)
    → get_elem? store x ≡ some ch
    → AllOpen store cs
    → AllOpen (set store x (push m ch)) cs
AllOpen-push m store x ch [] here o = tt
AllOpen-push m store x ch (c ∷ cs) here (o, os) =
    (IsOpen-push m store x c ch here o, AllOpen-push m store x ch cs here os)

pub send_each-push :
    (m : String) (x : ℕ) (xs : List ℕ) (store : List Channel) (ch : Channel)
    → get_elem? store x ≡ some ch
    → ch.closed ≡ false
    → has_room ch.buffer ≡ true
    → send_each m (x ∷ xs) store ≡ send_each m xs (set store x (push m ch))
unfolding send_each
send_each-push m x xs store ch at live room =
    ap (λ o. send_one m x store o (λ store'. send_each m xs store')) at
    ∙ ap
        (λ b.
          if b
          then panics
          else if has_room ch.buffer
          then send_each m xs (set store x (push m ch))
          else blocks store)
        live
    ∙ ap (λ b. if b then send_each m xs (set store x (push m ch)) else blocks store) room

-- A broadcast to clients of which one has no room.
send_each-blocks :
    (m : String) (cs : List ℕ) (store : List Channel) (c : ℕ) (ch : Channel)
    → AllOpen store cs
    → is_client c cs ≡ true
    → get_elem? store c ≡ some ch
    → has_room ch.buffer ≡ false
    → (store' : List Channel) × (send_each m cs store ≡ blocks store')
unfolding send_each
send_each-blocks m [] store c ch o mem here full = absurd cc
send_each-blocks m (x ∷ xs) store c ch (o, os) mem here full =
    elim (Option-cases (get_elem? store x)) [
      | inl gone ↦ elim (Bool-cases (c == x)) [
        | inl same ↦ let e : c ≡ x = ground arith in absurd (let f = ap (get_elem? store) e in cc)
        | inr other ↦
            let mem' : is_client c xs ≡ true = sym (rw other refl) ∙ mem in
            let (store', e) = send_each-blocks m xs store c ch os mem' here full in
            (store', rw (send_each, gone) e)
      ]
      | inr (chx, at) ↦
          let live : chx.closed ≡ false = subst IsOpen at o in
          elim (Bool-cases (has_room chx.buffer)) [
            | inr no_room ↦ (store, rw (send_each, at, live, no_room) refl)
            | inl room ↦ elim (Bool-cases (c == x)) [
              | inl same ↦
                  let e : c ≡ x = ground arith in
                  absurd (let f = ap (get_elem? store) e in let same_ch : ch ≡ chx = cc in cc)
              | inr other ↦
                  let mem' : is_client c xs ≡ true = sym (rw other refl) ∙ mem in
                  let here' =
                    get_elem?-set_ne store x c (push m chx) (λ f. different c x other (sym f))
                    ∙ here in
                  let (store', e) =
                    send_each-blocks m xs (set store x (push m chx)) c ch
                      (AllOpen-push m store x chx xs at os) mem' here' full in
                  (store', send_each-push m x xs store chx at live room ∙ e)
            ]
          ]
    ]

-- The loop stands, no client is added, and the messages that wait are only added to.
abbrev pub Frozen : Hub → Hub → Type 0
Frozen h h' =
    (h'.loop ≡ h.loop)
    × ((h'.clients ≡ h.clients) ⊎ (h'.clients ≡ []))
    × ((rest : List String) × (h'.broadcast ≡ h.broadcast ++ rest))

Frozen-refl : (h : Hub) → Frozen h h
Frozen-refl h = (refl, inl refl, ([], sym (append-nil h.broadcast)))

Frozen-trans : (a b c : Hub) → Frozen a b → Frozen b c → Frozen a c
Frozen-trans a b c (l, s, (r, e)) (l', s', (r', e')) = (
  l' ∙ l,
  elim s' [
    | inr gone ↦ inr gone
    | inl same' ↦ elim s [ inl same ↦ inl (same' ∙ same) | inr gone ↦ inr (same' ∙ gone) ]
  ],
  (r ++ r', e' ∙ ap (λ q. q ++ r') e ∙ append_assoc a.broadcast r r'),
)

-- Run is not called a second time.
abbrev pub NoStarts : List Event → Type 0
NoStarts [] = Unit
NoStarts (starts ∷ es) = ⊥
NoStarts (stops ∷ es) = NoStarts es
NoStarts (joins ∷ es) = NoStarts es
NoStarts (leaves c ∷ es) = NoStarts es
NoStarts (writes c ∷ es) = NoStarts es
NoStarts (broadcasts m ∷ es) = NoStarts es
NoStarts (delivers order ∷ es) = NoStarts es
NoStarts (pings c pong ∷ es) = NoStarts es

stop_hub-Frozen : (h : Hub) → Frozen h (stop_hub h)
unfolding stop_hub
stop_hub-Frozen h = elim (Bool-cases h.running) [
  | inr still ↦ rw (stop_hub, still) (Frozen-refl h)
  | inl on ↦ rw (stop_hub, on) (refl, inr refl, ([], sym (append-nil h.broadcast)))
]

broadcast-Frozen : (m : String) (h : Hub) → Frozen h (broadcast m h)
unfolding broadcast
broadcast-Frozen m h = elim (Bool-cases h.running) [
  | inr still ↦ rw (broadcast, still) (Frozen-refl h)
  | inl on ↦ elim (Bool-cases (has_room h.broadcast)) [
    | inl room ↦ rw (broadcast, on, room) (refl, inl refl, (m ∷ [], refl))
    | inr full ↦ rw (broadcast, on, full) (Frozen-refl h)
  ]
]

answer_ping-Frozen :
    (pong : String) (c : ℕ) (h : Hub) (o : Option Channel) → Frozen h (answer_ping pong c h o)
answer_ping-Frozen pong c h none = Frozen-refl h
answer_ping-Frozen pong c h (some ch) = elim (Bool-cases ch.closed) [
  | inl shut ↦ rw shut (refl, inl refl, ([], sym (append-nil h.broadcast)))
  | inr live ↦ elim (Bool-cases (has_room ch.buffer)) [
    | inl room ↦ rw (live, room) (refl, inl refl, ([], sym (append-nil h.broadcast)))
    | inr full ↦ rw (live, full) (Frozen-refl h)
  ]
]

write-Frozen : (c : ℕ) (h : Hub) (o : Option Channel) → Frozen h (write c h o)
write-Frozen c h none = Frozen-refl h
write-Frozen c h (some ch) = (refl, inl refl, ([], sym (append-nil h.broadcast)))

run-Frozen : (es : List Event) (h : Hub) → NoStarts es → h.loop ≡ blocked → Frozen h (run es h)
unfolding run step
run-Frozen [] h calm b = Frozen-refl h
run-Frozen (starts ∷ es) h calm b = absurd calm
run-Frozen (stops ∷ es) h calm b =
    let f = stop_hub-Frozen h in
    Frozen-trans h (stop_hub h) (run es (stop_hub h)) f (run-Frozen es (stop_hub h) calm (f.0 ∙ b))
run-Frozen (joins ∷ es) h calm b =
    let e = ap (register h) b in
    let h1 = register h blocked in
    let f : Frozen h h1 = (refl, inl refl, ([], sym (append-nil h.broadcast))) in
    subst (λ h'. Frozen h (run es h')) (sym e)
      (Frozen-trans h h1 (run es h1) f (run-Frozen es h1 calm b))
run-Frozen (leaves c ∷ es) h calm b =
    let e = ap (unregister c h) b in
    subst (λ h'. Frozen h (run es h')) (sym e) (run-Frozen es h calm b)
run-Frozen (writes c ∷ es) h calm b =
    let f = write-Frozen c h (get_elem? h.store c) in
    Frozen-trans h (write c h (get_elem? h.store c)) (run es (write c h (get_elem? h.store c))) f
      (run-Frozen es (write c h (get_elem? h.store c)) calm (f.0 ∙ b))
run-Frozen (broadcasts m ∷ es) h calm b =
    let f = broadcast-Frozen m h in
    Frozen-trans h (broadcast m h) (run es (broadcast m h)) f
      (run-Frozen es (broadcast m h) calm (f.0 ∙ b))
run-Frozen (delivers order ∷ es) h calm b =
    let e = ap (take_message order h) b in
    subst (λ h'. Frozen h (run es h')) (sym e) (run-Frozen es h calm b)
run-Frozen (pings c pong ∷ es) h calm b =
    let o = get_elem? h.store c in
    let f = answer_ping-Frozen pong c h o in
    Frozen-trans h (answer_ping pong c h o) (run es (answer_ping pong c h o)) f
      (run-Frozen es (answer_ping pong c h o) calm (f.0 ∙ b))

-- If the hub takes a message while one of its clients has no room, and none of them is closed, Run's loop
-- never gets to its select again, whatever happens: no client is added or taken away, except by Stop, and
-- the messages that wait are never taken.
pub full_client_blocks :
    (h : Hub) (m : String) (queue : List String) (order : List ℕ) (c : ℕ) (ch : Channel)
    (es : List Event)
    → h.loop ≡ selecting
    → h.broadcast ≡ m ∷ queue
    → AllOpen h.store order
    → is_client c order ≡ true
    → get_elem? h.store c ≡ some ch
    → has_room ch.buffer ≡ false
    → NoStarts es
    → let h' = run es (step (delivers order) h) in
      (h'.loop ≡ blocked)
      × ((h'.clients ≡ h.clients) ⊎ (h'.clients ≡ []))
      × ((rest : List String) × (h'.broadcast ≡ queue ++ rest))
unfolding step
full_client_blocks h m queue order c ch es at_select waiting live member here full calm =
    let (store, stuck) = send_each-blocks m order h.store c ch live member here full in
    let h1 = record h { store = store; broadcast = queue; loop = blocked } in
    let e : step (delivers order) h ≡ h1 =
      ap (take_message order h) at_select
      ∙ ap (deliver order h) waiting
      ∙ ap (after_sends h queue) stuck in
    let (l, s, q) = run-Frozen es h1 calm refl in
    subst
      (λ h'.
        ((run es h').loop ≡ blocked)
        × (((run es h').clients ≡ h.clients) ⊎ ((run es h').clients ≡ []))
        × ((rest : List String) × ((run es h').broadcast ≡ queue ++ rest)))
      (sym e) (l, s, q)
