-- ===== src/Master/Proxy/Faithful.antt =====
-- internal/master/proxy.go: what the relay sends on is what it has received.
use dockation.Prelude.{
  String, ℕ, ◌+◌, ◌≤◌, ◌≡◌, refl, ap, ◌∙◌, true, false, Option, none, some, List, [], ◌∷◌, ◌++◌,
  ◌⊎◌, inl, inr, arith, Bool-cases, map,
}
use dockation.Proto.Transfers.{ProxyData}
use dockation.Master.Proxy.Relaying.{
  Incoming, context_done, eof, fails, message, closed, Relayed, is_close, data_size, relay_round,
  relay_loop, relay_source_to_target, relay_target_to_source, pass_on, close_on, followed_by,
}

-- The messages that come in.
abbrev pub messages : List Incoming → List ProxyData
messages [] = []
messages (context_done ∷ is) = messages is
messages (eof ∷ is) = messages is
messages (fails e ∷ is) = messages is
messages (message msg sent ∷ is) = msg ∷ messages is

abbrev pub total : (ProxyData → ℕ) → List ProxyData → ℕ
total size [] = 0
total size (m ∷ ms) = size m + total size ms

-- Messages that are no close, each of which is sent on without an error.
abbrev pub AllPass : List ProxyData → Type 0
AllPass [] = Unit
AllPass (m ∷ ms) = (is_close m.data_type ≡ false) × AllPass ms

abbrev pub passing : List ProxyData → List Incoming
passing ms = map (λ m. message m none) ms

abbrev Prefix : List ProxyData → List ProxyData → Type 0
Prefix xs ys = (rest : List ProxyData) × (ys ≡ xs ++ rest)

module _ (size : ProxyData → ℕ) where
  abbrev then_loop : ProxyData → Relayed → Relayed
  then_loop msg rest = record {
    bytes = size msg + rest.bytes;
    forwarded = msg ∷ rest.forwarded;
    ended_by = rest.ended_by;
  }

  loop_step :
      (i : Incoming) (is : List Incoming) (r : Relayed)
      → relay_round size i ≡ r
      → relay_loop size (i ∷ is) ≡ followed_by r (relay_loop size is)
  unfolding relay_loop
  loop_step i is r e = ap (λ f. followed_by f (relay_loop size is)) e

  round-close :
      (msg : ProxyData) (sent : Option String)
      → is_close msg.data_type ≡ true
      → relay_round size (message msg sent) ≡ close_on msg
  unfolding relay_round
  round-close msg sent c = rw (c, relay_round) refl

  round-pass :
      (msg : ProxyData) (sent : Option String)
      → is_close msg.data_type ≡ false
      → relay_round size (message msg sent) ≡ pass_on (size msg) msg sent
  unfolding relay_round
  round-pass msg sent c = rw (c, relay_round) refl

  loop-close :
      (msg : ProxyData) (sent : Option String) (is : List Incoming)
      → is_close msg.data_type ≡ true
      → relay_loop size (message msg sent ∷ is) ≡ close_on msg
  loop-close msg sent is c = loop_step (message msg sent) is (close_on msg) (round-close msg sent c)

  loop-failed :
      (msg : ProxyData) (e : String) (is : List Incoming)
      → is_close msg.data_type ≡ false
      → relay_loop size (message msg (some e) ∷ is) ≡ pass_on (size msg) msg (some e)
  loop-failed msg e is c =
      loop_step (message msg (some e)) is (pass_on (size msg) msg (some e))
        (round-pass msg (some e) c)

  loop-passed :
      (msg : ProxyData) (is : List Incoming)
      → is_close msg.data_type ≡ false
      → relay_loop size (message msg none ∷ is) ≡ then_loop msg (relay_loop size is)
  loop-passed msg is c =
      loop_step (message msg none) is (pass_on (size msg) msg none) (round-pass msg none c)

  abbrev InOrder : List Incoming → Relayed → Type 0
  InOrder is r = Prefix r.forwarded (messages is) × (r.bytes ≤ total size r.forwarded)

  then_loop-InOrder :
      (msg : ProxyData) (is : List Incoming) (rest : Relayed)
      → InOrder is rest
      → InOrder (message msg none ∷ is) (then_loop msg rest)
  then_loop-InOrder msg is rest ((xs, e), le) = ((xs, ap (◌∷◌ msg) e), omega arith)

  message-InOrder :
      (msg : ProxyData) (sent : Option String) (is : List Incoming)
      → InOrder is (relay_loop size is)
      → (is_close msg.data_type ≡ true) ⊎ (is_close msg.data_type ≡ false)
      → InOrder (message msg sent ∷ is) (relay_loop size (message msg sent ∷ is))
  message-InOrder msg sent is ih (inl c) =
      rw (loop-close msg sent is c) ((messages is, refl), omega arith)
  message-InOrder msg none is ih (inr c) =
      rw (loop-passed msg is c) (then_loop-InOrder msg is (relay_loop size is) ih)
  message-InOrder msg (some e) is ih (inr c) =
      rw (loop-failed msg e is c) ((messages is, refl), omega arith)

  relay_loop-InOrder : (is : List Incoming) → InOrder is (relay_loop size is)
  unfolding relay_loop relay_round
  relay_loop-InOrder [] = (([], refl), omega arith)
  relay_loop-InOrder (context_done ∷ is) = ((messages is, refl), omega arith)
  relay_loop-InOrder (eof ∷ is) = ((messages is, refl), omega arith)
  relay_loop-InOrder (fails e ∷ is) = ((messages is, refl), omega arith)
  relay_loop-InOrder (message msg sent ∷ is) =
      message-InOrder msg sent is (relay_loop-InOrder is) (Bool-cases (is_close msg.data_type))

  -- The messages of a whole session, and what the loop has done after them.
  abbrev whole : List ProxyData → ProxyData → Option String → List Incoming → List Incoming
  whole ms last sent later = passing ms ++ message last sent ∷ later

  abbrev all_relayed : List ProxyData → ProxyData → Relayed
  all_relayed ms last = record {
    bytes = total size ms;
    forwarded = ms ++ last ∷ [];
    ended_by = some closed;
  }

  relay_loop-whole :
      (ms : List ProxyData) (last : ProxyData) (sent : Option String) (later : List Incoming)
      → AllPass ms
      → is_close last.data_type ≡ true
      → relay_loop size (whole ms last sent later) ≡ all_relayed ms last
  relay_loop-whole [] last sent later ok c = loop-close last sent later c
  relay_loop-whole (m ∷ ms) last sent later ok c =
      loop-passed m (whole ms last sent later) ok.0
      ∙ ap (then_loop m) (relay_loop-whole ms last sent later ok.1 c)

total_zero : (ms : List ProxyData) → total (λ msg. 0) ms ≡ 0
total_zero [] = refl
total_zero (m ∷ ms) = omega (arith, total_zero ms)

-- Whatever a loop receives, it sends on the first messages of it, unchanged and in their order; the
-- bytes that it counts are at most those of what it has sent on, and in the direction of the
-- acknowledgements it counts none.
pub relay_in_order :
    (is : List Incoming)
    → (((rest : List ProxyData) × (messages is ≡ (relay_source_to_target is).forwarded ++ rest))
        × ((relay_source_to_target is).bytes
            ≤ total data_size (relay_source_to_target is).forwarded))
      × ((rest : List ProxyData) × (messages is ≡ (relay_target_to_source is).forwarded ++ rest))
      × ((relay_target_to_source is).bytes ≡ 0)
unfolding relay_source_to_target relay_target_to_source
relay_in_order is =
    let (acks, none_counted) = relay_loop-InOrder (λ msg. 0) is in
    (
      relay_loop-InOrder data_size is,
      acks,
      omega (arith, none_counted, total_zero (relay_loop (λ msg. 0) is).forwarded),
    )

-- A source that sends messages and then closes, where each Send before the close succeeds, has all
-- of them and the close sent to the target, in their order; their bytes are all counted, and the loop
-- ends without an error, whatever the Send of the close returns and whatever would come later.
pub relay_complete :
    (ms : List ProxyData) (last : ProxyData) (sent : Option String) (later : List Incoming)
    → AllPass ms
    → is_close last.data_type ≡ true
    → relay_source_to_target (passing ms ++ message last sent ∷ later)
      ≡ record { bytes = total data_size ms; forwarded = ms ++ last ∷ []; ended_by = some closed }
unfolding relay_source_to_target
relay_complete ms last sent later ok c = relay_loop-whole data_size ms last sent later ok c
