-- ===== src/Server/Hub/Tests.antt =====
-- internal/server/websocket.go: a hub with two clients.
use mathlib.Core.Option as Option
use dockation.Prelude.{
  ℕ, zero, suc, String, ◌≡◌, refl, ◌⊎◌, true, false, List, [], ◌∷◌, ◌++◌, get_elem?,
}
use dockation.Server.Hub.{
  selecting, blocked, Hub, new_hub, run_hub, stop_hub, Event, starts, stops, joins, broadcasts,
  delivers, pings, leaves, step, run,
}
use dockation.Server.Hub.Stuck.{full_client_blocks}
use dockation.Server.Hub.Delivery.{told, broadcast_reaches}

abbrev repeated : ℕ → List String
repeated zero = []
repeated (suc n) = "m" ∷ repeated n

abbrev two_clients : List String → Hub
two_clients buffer = record {
  store = record { buffer = []; closed = false } ∷ record { buffer = buffer; closed = false } ∷ [];
  clients = 0 ∷ 1 ∷ [];
  broadcast = "news" ∷ [];
  running = true;
  loop = selecting;
  crashed = false;
}

-- A ping of a client after Stop sends on a closed channel.
ping_after_stop : (run (starts ∷ joins ∷ stops ∷ pings 0 "pong" ∷ []) new_hub).crashed ≡ true
unfolding run step new_hub run_hub stop_hub
ping_after_stop = refl

abbrev later : List Event
later = joins ∷ leaves 1 ∷ broadcasts "more" ∷ delivers (0 ∷ []) ∷ []

full_client_blocks_example :
    let h' = run later (step (delivers (1 ∷ 0 ∷ [])) (two_clients (repeated 256))) in
    (h'.loop ≡ blocked)
    × ((h'.clients ≡ 0 ∷ 1 ∷ []) ⊎ (h'.clients ≡ []))
    × ((rest : List String) × (h'.broadcast ≡ [] ++ rest))
full_client_blocks_example =
    full_client_blocks (two_clients (repeated 256)) "news" [] (1 ∷ 0 ∷ []) 1
      (record { buffer = repeated 256; closed = false }) later refl refl (refl, (refl, tt)) refl
      refl refl tt

broadcast_reaches_example :
    let h = two_clients [] in
    let h' = step (delivers (1 ∷ 0 ∷ [])) h in
    (h'.loop ≡ selecting)
    × (h'.broadcast ≡ [])
    × (h'.crashed ≡ false)
    × (get_elem? h'.store 1 ≡ Option.map (told "news" true) (get_elem? h.store 1))
broadcast_reaches_example =
    broadcast_reaches (two_clients []) "news" [] (1 ∷ 0 ∷ []) 1 refl refl
      (
        (record { buffer = []; closed = false }, refl, refl, refl),
        ((record { buffer = []; closed = false }, refl, refl, refl), tt),
      )
      (refl, (refl, tt))
