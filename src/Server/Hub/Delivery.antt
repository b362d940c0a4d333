-- ===== src/Server/Hub/Delivery.antt =====
-- internal/server/websocket.go: a broadcast that every client has room for.
use mathlib.Core.Option as Option
use mathlib.Core.Path.{subst}
use dockation.Prelude.{
  ℕ, ◌==◌, String, ◌≡◌, refl, sym, ap, ◌∙◌, Bool, true, false, Option, none, some, List, [], ◌∷◌,
  get_elem?, set, arith, Bool-cases, inl, inr, get_elem?-set_self, get_elem?-set_ne,
}
use dockation.Server.Hub.{
  Channel, selecting, Hub, has_room, push, sent, send_each, after_sends, deliver, is_client,
  take_message, delivers, step,
}
use dockation.Server.Hub.Stuck.{different, send_each-push}

-- These channels are there, are open, and have room for a message.
abbrev pub HaveRoom : List Channel → List ℕ → Type 0
HaveRoom store [] = Unit
HaveRoom store (c ∷ cs) =
    ((ch : Channel) × (get_elem? store c ≡ some ch)
      × (ch.closed ≡ false)
      × (has_room ch.buffer ≡ true))
    × HaveRoom store cs

-- No client occurs twice: they are the keys of a map.
abbrev pub AllDifferent : List ℕ → Type 0
AllDifferent [] = Unit
AllDifferent (c ∷ cs) = (is_client c cs ≡ false) × AllDifferent cs

-- A channel after the broadcast.
abbrev pub told : String → Bool → Channel → Channel
told m true ch = push m ch
told m false ch = ch

is_client-other :
    (c x : ℕ) (xs : List ℕ)
    → is_client c (x ∷ xs) ≡ false
    → ((c == x) ≡ false) × (is_client c xs ≡ false)
is_client-other c x xs e = elim (Bool-cases (c == x)) [
  | inl same ↦ absurd (let f : is_client c (x ∷ xs) ≡ true = rw same refl in cc)
  | inr other ↦ (other, sym (rw other refl) ∙ e)
]

HaveRoom-push :
    (m : String) (store : List Channel) (x : ℕ) (ch : Channel) (cs : List ℕ)
    → is_client x cs ≡ false
    → HaveRoom store cs
    → HaveRoom (set store x (push m ch)) cs
HaveRoom-push m store x ch [] out h = tt
HaveRoom-push m store x ch (c ∷ cs) out ((chc, at, live, room), hs) =
    let (other, out') = is_client-other x c cs out in
    (
      (chc, get_elem?-set_ne store x c (push m ch) (different x c other) ∙ at, live, room),
      HaveRoom-push m store x ch cs out' hs,
    )

-- Where the broadcast has been.
abbrev Told : String → List ℕ → List Channel → List Channel → Type 0
Told m cs store store' =
    (i : ℕ) → get_elem? store' i ≡ Option.map (told m (is_client i cs)) (get_elem? store i)

map-told-false : (m : String) (o : Option Channel) → o ≡ Option.map (told m false) o
map-told-false m none = refl
map-told-false m (some ch) = refl

Told-push :
    (m : String) (x : ℕ) (xs : List ℕ) (store store' : List Channel) (ch : Channel)
    → get_elem? store x ≡ some ch
    → is_client x xs ≡ false
    → Told m xs (set store x (push m ch)) store'
    → Told m (x ∷ xs) store store'
Told-push m x xs store store' ch at out h i = elim (Bool-cases (i == x)) [
  | inl same ↦
      let e : x ≡ i = ground arith in
      let self : (x == x) ≡ true = ground arith in
      let member : is_client x (x ∷ xs) ≡ true = rw self refl in
      subst
        (λ j. get_elem? store' j ≡ Option.map (told m (is_client j (x ∷ xs))) (get_elem? store j)) e
        (h x
          ∙ ap (λ b. Option.map (told m b) (get_elem? (set store x (push m ch)) x)) out
          ∙ ap (Option.map (told m false)) (get_elem?-set_self store x ch (push m ch) at)
          ∙ sym (ap (Option.map (told m true)) at)
          ∙ ap (λ b. Option.map (told m b) (get_elem? store x)) (sym member))
  | inr other ↦
      h i
      ∙ ap (Option.map (told m (is_client i xs)))
          (get_elem?-set_ne store x i (push m ch) (λ f. different i x other (sym f)))
      ∙ ap (λ b. Option.map (told m b) (get_elem? store i)) (sym (rw other refl))
]

send_each-sent :
    (m : String) (cs : List ℕ) (store : List Channel)
    → HaveRoom store cs
    → AllDifferent cs
    → (store' : List Channel) × (send_each m cs store ≡ sent store') × Told m cs store store'
unfolding send_each
send_each-sent m [] store h d = (store, refl, (λ i. map-told-false m (get_elem? store i)))
send_each-sent m (x ∷ xs) store ((ch, at, live, room), hs) (out, d) =
    let (store', e, t) =
      send_each-sent m xs (set store x (push m ch)) (HaveRoom-push m store x ch xs out hs) d in
    (
      store',
      send_each-push m x xs store ch at live room ∙ e,
      Told-push m x xs store store' ch at out t,
    )

-- When every client has room, the hub's message goes to each of them once, at the end of its buffer, and
-- to no other channel, in whatever order the range is, and the hub is back at its select.
pub broadcast_reaches :
    (h : Hub) (m : String) (queue : List String) (order : List ℕ) (i : ℕ)
    → h.loop ≡ selecting
    → h.broadcast ≡ m ∷ queue
    → HaveRoom h.store order
    → AllDifferent order
    → let h' = step (delivers order) h in
      (h'.loop ≡ selecting)
      × (h'.broadcast ≡ queue)
      × (h'.crashed ≡ h.crashed)
      × (get_elem? h'.store i ≡ Option.map (told m (is_client i order)) (get_elem? h.store i))
unfolding step
broadcast_reaches h m queue order i at_select waiting room d =
    let (store', done, t) = send_each-sent m order h.store room d in
    let e : step (delivers order) h ≡ record h { store = store'; broadcast = queue } =
      ap (take_message order h) at_select
      ∙ ap (deliver order h) waiting
      ∙ ap (after_sends h queue) done in
    subst
      (λ h'.
        (h'.loop ≡ selecting)
        × (h'.broadcast ≡ queue)
        × (h'.crashed ≡ h.crashed)
        × (get_elem? h'.store i ≡ Option.map (told m (is_client i order)) (get_elem? h.store i)))
      (sym e) (at_select, refl, refl, t i)
