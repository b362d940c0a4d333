-- ===== src/Worker/Executor/Handshake.antt =====
-- internal/worker/executor.go: the handshakes that a worker sends to the master's proxy.
use mathlib.Core.Path.{subst}
use dockation.Prelude.{
  ℕ, String, ◌≡◌, ◌≢◌, refl, sym, ◌∙◌, Bool, Option, if◌then◌else◌, true, false, none, some, List,
  [], ◌∷◌, Option-cases, Bool-cases, inl, inr,
}
use dockation.Prelude.Dict.{lookup, filter_option}
use dockation.Proto.{MigrationRequest, AcceptMigrationRequest}
use dockation.Proto.Transfers.{ProxyData, ProxyDataType, ProxyRole, handshake_payload}
use dockation.Master.Registry.{
  WorkerInfo, new_registry, get, get_by_auth_token, Op, registers, unregisters, beats, reports,
  connects, cleans, run, new_worker,
}
use dockation.Master.Registry.Laws.{map_option, cell, cells, get-run, run-Distinct}
use dockation.Master.Registry.Auth.{get_by_auth_token_lem}
use dockation.Master.Registry.Liveness.{new_registry-Distinct}
use dockation.Master.Proxy.Channels.{ProxyManager, invalid_token, open_proxy_channel, authenticate}

-- createProxyClient sends this one on its new channel.
unfoldable pub source_handshake : MigrationRequest → ProxyData
source_handshake req = record {
  migration_id = req.migration_id;
  worker_id = "";
  data_type = ProxyDataType.handshake;
  payload = handshake_payload (record {
    role = ProxyRole.source;
    target_worker_id = req.target_worker_id;
    auth_token = "";
  });
}

-- And executeTargetViaProxy this one.
unfoldable pub target_handshake : AcceptMigrationRequest → ProxyData
target_handshake req = record {
  migration_id = req.migration_id;
  worker_id = "";
  data_type = ProxyDataType.handshake;
  payload =
      handshake_payload
        (record { role = ProxyRole.target; target_worker_id = ""; auth_token = "" });
}

-- No registration is given an empty token.
abbrev pub AllTokens : List (ℕ × Op) → Type 0
AllTokens [] = Unit
AllTokens ((now, registers reg token) ∷ cs) = (token ≢ "") × AllTokens cs
AllTokens ((now, unregisters id) ∷ cs) = AllTokens cs
AllTokens ((now, beats id status resources) ∷ cs) = AllTokens cs
AllTokens ((now, reports id inv) ∷ cs) = AllTokens cs
AllTokens ((now, connects id stream) ∷ cs) = AllTokens cs
AllTokens ((now, cleans) ∷ cs) = AllTokens cs

abbrev HasToken : Option WorkerInfo → Type 0
HasToken none = Unit
HasToken (some w) = w.auth_token ≢ ""

HasToken-map :
    (f : WorkerInfo → WorkerInfo) (o : Option WorkerInfo)
    → ((w : WorkerInfo) → (f w).auth_token ≡ w.auth_token)
    → HasToken o
    → HasToken (map_option f o)
HasToken-map f none same h = tt
HasToken-map f (some w) same h = λ e. h (sym (same w) ∙ e)

HasToken-filter :
    (p : WorkerInfo → Bool) (o : Option WorkerInfo) → HasToken o → HasToken (filter_option p o)
HasToken-filter p none h = tt
HasToken-filter p (some w) h = elim (Bool-cases (p w)) [ inl t ↦ rw t h | inr f ↦ rw f tt ]

HasToken-if :
    (b : Bool) (x y : Option WorkerInfo) → HasToken x → HasToken y → HasToken (if b then x else y)
HasToken-if true x y h k = h
HasToken-if false x y h k = k

cells-HasToken :
    (timeout : ℕ) (j : String) (cs : List (ℕ × Op)) (o : Option WorkerInfo)
    → AllTokens cs
    → HasToken o
    → HasToken (cells timeout j cs o)
unfolding cells cell new_worker
cells-HasToken t j [] o a h = h
cells-HasToken t j ((now, registers reg token) ∷ cs) o a h =
    cells-HasToken t j cs _ a.1 (HasToken-if _ (some (new_worker reg token now)) o a.0 h)
cells-HasToken t j ((now, unregisters id) ∷ cs) o a h =
    cells-HasToken t j cs _ a (HasToken-if _ none o tt h)
cells-HasToken t j ((now, beats id status resources) ∷ cs) o a h =
    cells-HasToken t j cs _ a (HasToken-if _ _ o (HasToken-map _ o (λ w. refl) h) h)
cells-HasToken t j ((now, reports id inv) ∷ cs) o a h =
    cells-HasToken t j cs _ a (HasToken-if _ _ o (HasToken-map _ o (λ w. refl) h) h)
cells-HasToken t j ((now, connects id stream) ∷ cs) o a h =
    cells-HasToken t j cs _ a (HasToken-if _ _ o (HasToken-map _ o (λ w. refl) h) h)
cells-HasToken t j ((now, cleans) ∷ cs) o a h = cells-HasToken t j cs _ a (HasToken-filter _ o h)

nobody-HasToken : (t : ℕ) (j : String) → HasToken (get (new_registry t) j)
unfolding get new_registry lookup
nobody-HasToken t j = tt

registered-HasToken :
    (t : ℕ) (cs : List (ℕ × Op)) (j : String)
    → AllTokens cs
    → HasToken (get (run (new_registry t) cs) j)
registered-HasToken t cs j a =
    subst HasToken (sym (get-run (new_registry t) j cs (new_registry-Distinct t))) (
      cells-HasToken (new_registry t).timeout j cs (get (new_registry t) j) a (nobody-HasToken t j))

no_empty_token :
    (t : ℕ) (cs : List (ℕ × Op))
    → AllTokens cs
    → get_by_auth_token (run (new_registry t) cs) "" ≡ none
no_empty_token t cs a = elim (Option-cases (get_by_auth_token (run (new_registry t) cs) "")) [
  | inl e ↦ e
  | inr (w, e) ↦
      let r = run (new_registry t) cs in
      let (k, found, empty) =
        (get_by_auth_token_lem r "" (run-Distinct (new_registry t) cs (new_registry-Distinct t))).0
          w e in
      absurd (subst HasToken found (registered-HasToken t cs k a) empty)
]

-- A worker's handshake, in either role, is refused by the proxy of a master, whatever calls its
-- registry has seen, as long as no worker was given an empty token: the handshake carries none.
pub handshakes_refused :
    (t : ℕ) (cs : List (ℕ × Op)) (pm : ProxyManager) (req : MigrationRequest)
    (accept : AcceptMigrationRequest) (stream : ℕ)
    → AllTokens cs
    → (open_proxy_channel (run (new_registry t) cs) pm (source_handshake req) stream
        ≡ (some invalid_token, pm))
      × (open_proxy_channel (run (new_registry t) cs) pm (target_handshake accept) stream
          ≡ (some invalid_token, pm))
unfolding open_proxy_channel authenticate source_handshake target_handshake
handshakes_refused t cs pm req accept stream a =
    let e = no_empty_token t cs a in (rw (e, authenticate) refl, rw (e, authenticate) refl)
