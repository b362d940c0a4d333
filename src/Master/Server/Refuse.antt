-- ===== src/Master/Server/Refuse.antt =====
-- internal/master/grpc_server.go: what comes in without credentials.
use dockation.Prelude.{
  ℕ, String, ◌≡◌, ◌≢◌, refl, ap, ◌∙◌, false, none, some, List, [], ◌∷◌, inl, inr, arith, eq_iff,
  Option-cases,
}
use dockation.Prelude.Dict.{Distinct}
use dockation.Master.Registry.{WorkerInfo, Registry, get, get_by_auth_token}
use dockation.Master.Registry.Auth.{get_by_auth_token_lem}
use dockation.Master.Server.{
  Master, MasterConfig, register_worker, validate_enrollment_token, receive, report_resources,
  Event, registration, message, inventory, tick, serve_one, serve,
}

-- No registered worker has the token.
abbrev pub IsUnknown : Registry → String → Type 0
IsUnknown r token = (k : String) (w : WorkerInfo) → get r k ≡ some w → w.auth_token ≢ token

-- The event carries no valid token: neither the enrollment token nor that of a worker.
abbrev pub LacksToken : Master → ℕ × Event → Type 0
LacksToken m (now, registration reg token) =
    (config : MasterConfig)
    → m.config ≡ some config
    → config.enrollment_token ≢ reg.enrollment_token
LacksToken m (now, message stream msg) = IsUnknown m.registry msg.auth_token
LacksToken m (now, inventory inv) = IsUnknown m.registry inv.auth_token
LacksToken m (now, tick) = ⊥

abbrev pub AllLackToken : Master → List (ℕ × Event) → Type 0
AllLackToken m [] = Unit
AllLackToken m (e ∷ es) = LacksToken m e × AllLackToken m es

pub not_found :
    (r : Registry) (token : String)
    → Distinct r.workers
    → IsUnknown r token
    → get_by_auth_token r token ≡ none
not_found r token d none_has = elim (Option-cases (get_by_auth_token r token)) [
  | inl e ↦ e
  | inr (w, e) ↦
      let (k, there, same) = (get_by_auth_token_lem r token d).0 w e in
      absurd (none_has k w there same)
]

not_valid :
    (m : Master) (token : String)
    → ((config : MasterConfig) → m.config ≡ some config → config.enrollment_token ≢ token)
    → validate_enrollment_token m token ≡ false
unfolding validate_enrollment_token
not_valid m token none_has = elim (Option-cases m.config) [
  | inl e ↦ rw e refl
  | inr (config, e) ↦ rw e (ground (arith, eq_iff config.enrollment_token token, none_has config e))
]

serve_one_refused :
    (m : Master) (e : ℕ × Event) → Distinct m.registry.workers → LacksToken m e → serve_one m e ≡ m
unfolding serve_one register_worker receive report_resources
serve_one_refused m (now, registration reg token) d q =
    rw (serve_one, register_worker, not_valid m reg.enrollment_token q) refl
serve_one_refused m (now, message stream msg) d q =
    rw (serve_one, receive, not_found m.registry msg.auth_token d q) refl
serve_one_refused m (now, inventory inv) d q =
    rw (serve_one, report_resources, not_found m.registry inv.auth_token d q) refl
serve_one_refused m (now, tick) d q = absurd q

-- Registrations without the enrollment token, and messages and inventories without the token of a
-- registered worker, leave the whole master as it was, however many come in; the registry's map has
-- no key twice.
pub serve_refused :
    (m : Master) (es : List (ℕ × Event))
    → Distinct m.registry.workers
    → AllLackToken m es
    → serve m es ≡ m
unfolding serve
serve_refused m [] d q = refl
serve_refused m (e ∷ es) d q =
    ap (λ n. serve n es) (serve_one_refused m e d q.0) ∙ serve_refused m es d q.1
