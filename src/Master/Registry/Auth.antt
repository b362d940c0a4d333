-- ===== src/Master/Registry/Auth.antt =====
-- internal/master/registry.go: authentication by token, and sending to a worker's stream.
use dockation.Prelude.{
  ℕ, String, ◌≡◌, refl, ◌⊎◌, inl, inr, none, some, [], ◌∷◌, arith, str_eq, eq_iff, Option-cases,
  Bool-cases, ◌≢◌,
}
use dockation.Prelude.Dict.{Dict, lookup, Distinct, lookup_head, lookup_tail}
use dockation.Proto.{MasterCommand}
use dockation.Master.Registry.{
  WorkerInfo, Registry, get, find_auth_token, get_by_auth_token, Sender, worker_not_found,
  stream_not_connected, sent_error, send_command,
}

find_auth_token_sound :
    (token : String) (ws : Dict WorkerInfo) (w : WorkerInfo)
    → Distinct ws
    → find_auth_token token ws ≡ some w
    → (k : String) × (lookup k ws ≡ some w) × (w.auth_token ≡ token)
unfolding find_auth_token
find_auth_token_sound token [] w d e = cc
find_auth_token_sound token ((i, v) ∷ ws) w d e = elim (Bool-cases (str_eq v.auth_token token)) [
  | inl hit ↦
      let same : v ≡ w = ground arith in
      (i, rw (← same) (lookup_head i v ws), rw (← same) ((eq_iff v.auth_token token).0 hit))
  | inr miss ↦
      let (k, found, same) = find_auth_token_sound token ws w d.1 (rw miss at e) in
      (k, lookup_tail i k w v ws d.0 found, same)
]

find_auth_token-none :
    (token k : String) (ws : Dict WorkerInfo) (w : WorkerInfo)
    → lookup k ws ≡ some w
    → w.auth_token ≡ token
    → find_auth_token token ws ≢ none
unfolding find_auth_token lookup
find_auth_token-none token k [] w e t = cc
find_auth_token-none token k ((i, v) ∷ ws) w e t =
    ground (arith, eq_iff v.auth_token token, find_auth_token-none token k ws w)

-- A token authenticates as a worker only if that worker is registered with exactly this token, and
-- no worker that is registered with the token is turned away; the map has no key twice.
pub get_by_auth_token_lem :
    (r : Registry) (token : String)
    → Distinct r.workers
    → ((w : WorkerInfo)
        → get_by_auth_token r token ≡ some w
        → (k : String) × (get r k ≡ some w) × (w.auth_token ≡ token))
      × ((k : String) (w : WorkerInfo)
          → get r k ≡ some w
          → w.auth_token ≡ token
          → get_by_auth_token r token ≢ none)
unfolding get get_by_auth_token
get_by_auth_token_lem r token d = (
  (λ w e. find_auth_token_sound token r.workers w d e),
  (λ k w e t. find_auth_token-none token k r.workers w e t),
)

-- A command reaches at most the stream of the worker that it is for, once. It fails without a send
-- exactly when the worker is missing or has no stream, and otherwise as the stream's send does.
pub send_command_lem :
    (send : Sender) (r : Registry) (k : String) (cmd : MasterCommand)
    → (((get r k ≡ none) × (send_command send r k cmd ≡ (some (worker_not_found k), [])))
        ⊎ ((w : WorkerInfo) × (get r k ≡ some w)
            × (w.stream ≡ none)
            × (send_command send r k cmd ≡ (some (stream_not_connected k), []))))
      ⊎ ((w : WorkerInfo) × (s : ℕ) × (get r k ≡ some w)
          × (w.stream ≡ some s)
          × (send_command send r k cmd ≡ (sent_error (send s cmd), (s, cmd) ∷ [])))
unfolding get send_command
send_command_lem send r k cmd = elim (Option-cases (lookup k r.workers)) [
  | inl e ↦ inl (inl (e, rw (e, send_command) refl))
  | inr (w, e) ↦ elim (Option-cases w.stream) [
    | inl n ↦ inl (inr (w, e, n, rw (e, send_command, n) refl))
    | inr (s, n) ↦ inr (w, s, e, n, rw (e, send_command, n) refl)
  ]
]
