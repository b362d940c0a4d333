-- ===== src/Peer/Pairing/Safety.antt =====
-- internal/peer/pairing.go: when CompletePairing makes a peer trusted.
use dockation.Prelude.{
  ℕ, ◌≤◌, String, ◌≡◌, refl, sym, ap, ◌∙◌, true, false, ◌⊎◌, inl, inr, some, arith, ltb,
  Option-cases, Bool-cases,
}
use dockation.Prelude.Dict.{lookup, lookup-insert_self}
use dockation.Peer.Pairing.{
  Bytes, Certificate, Crypto, PairingSession, TrustedPeer, PairingMessage, PairingManager,
  PairingError, invalid_or_expired, code_expired, already_completed, invalid_verification,
  no_session_key, agree, verifies, compute_code_verifier,
}
use dockation.Peer.Pairing.Compare.{secure_compare_iff}
use dockation.Peer.Pairing.Completion.{
  trusted_peer, finished_session, trust, complete_derived, complete_agreed, complete_session,
  complete_pairing,
}

-- Nobody's trust changes.
abbrev pub SameTrust : PairingManager → PairingManager → Type 0
SameTrust pm pm' =
    (pm'.trusted_peers ≡ pm.trusted_peers)
    × (pm'.trusted_certs ≡ pm.trusted_certs)
    × (pm'.config_peers ≡ pm.config_peers)

pub data CompleteCase (crypto : Crypto) (pm : PairingManager) (code : String) (msg : PairingMessage)
    (now : ℕ) (out : (TrustedPeer ⊎ PairingError) × PairingManager) : Type 0 where
  refused :
      (e : PairingError)
      → out.0 ≡ inr e
      → SameTrust pm out.1
      → CompleteCase crypto pm code msg now out
  completed :
      (s : PairingSession) (secret key : Bytes) (cert : Certificate)
      → lookup code pm.active_sessions ≡ some s
      → now ≤ s.expires_at
      → s.completed ≡ false
      → msg.code_verifier ≡ compute_code_verifier crypto msg.public_key s.code_hash
      → agree crypto s.private_key msg ≡ inl (secret, cert)
      → crypto.derive_session_key secret s.code_hash ≡ inl key
      → out ≡ (
        inl (trusted_peer crypto s key cert now),
        trust crypto pm code s secret cert (trusted_peer crypto s key cert now),
      )
      → CompleteCase crypto pm code msg now out

module _ (crypto : Crypto) (pm : PairingManager) (code : String) (msg : PairingMessage)
    (now : ℕ) where
  derived_case :
      (s : PairingSession) (secret : Bytes) (cert : Certificate) (k : Bytes ⊎ String)
      → lookup code pm.active_sessions ≡ some s
      → now ≤ s.expires_at
      → s.completed ≡ false
      → msg.code_verifier ≡ compute_code_verifier crypto msg.public_key s.code_hash
      → agree crypto s.private_key msg ≡ inl (secret, cert)
      → crypto.derive_session_key secret s.code_hash ≡ k
      → CompleteCase crypto pm code msg now (complete_derived crypto pm code s now secret cert k)
  derived_case s secret cert (inr e) there fresh first proof agreed derived =
      refused (no_session_key e) refl (refl, refl, refl)
  derived_case s secret cert (inl key) there fresh first proof agreed derived =
      completed s secret key cert there fresh first proof agreed derived refl

  agreed_case :
      (s : PairingSession) (a : (Bytes × Certificate) ⊎ PairingError)
      → lookup code pm.active_sessions ≡ some s
      → now ≤ s.expires_at
      → s.completed ≡ false
      → msg.code_verifier ≡ compute_code_verifier crypto msg.public_key s.code_hash
      → agree crypto s.private_key msg ≡ a
      → CompleteCase crypto pm code msg now (complete_agreed crypto pm code s now a)
  agreed_case s (inr e) there fresh first proof agreed = refused e refl (refl, refl, refl)
  agreed_case s (inl (secret, cert)) there fresh first proof agreed =
      derived_case s secret cert (crypto.derive_session_key secret s.code_hash) there fresh first
        proof agreed refl

  session_case :
      (s : PairingSession)
      → lookup code pm.active_sessions ≡ some s
      → CompleteCase crypto pm code msg now (complete_session crypto pm code msg now (some s))
  unfolding complete_session
  session_case s there = elim (Bool-cases (ltb s.expires_at now)) [
    | inl old ↦ rw old (refused code_expired refl (refl, refl, refl))
    | inr fresh ↦ elim (Bool-cases s.completed) [
      | inl again ↦ rw (fresh, again) (refused already_completed refl (refl, refl, refl))
      | inr first ↦ elim (Bool-cases (verifies crypto msg s.code_hash)) [
        | inr wrong ↦
            rw (fresh, first, wrong) (refused invalid_verification refl (refl, refl, refl))
        | inl right ↦
            rw (fresh, first, right)
              (agreed_case s (agree crypto s.private_key msg) there (ground arith) first
                ((secure_compare_iff _ _).0 right) refl)
      ]
    ]
  ]

-- CompletePairing trusts a peer only if the code has a session that is not expired and not yet
-- completed, the message's verifier is the one for the session's code, and a secret, a certificate and
-- a session key come of the message; it then stores the peer of this certificate. Otherwise it gives
-- an error, and no peer, certificate or configured peer is added or changed.
pub complete_pairing_lem :
    (crypto : Crypto) (pm : PairingManager) (code : String) (msg : PairingMessage) (now : ℕ)
    → CompleteCase crypto pm code msg now (complete_pairing crypto pm code msg now)
unfolding complete_pairing complete_session
complete_pairing_lem crypto pm code msg now = elim (Option-cases (lookup code pm.active_sessions)) [
  | inl e ↦
      rw (e, complete_pairing, complete_session)
        (refused invalid_or_expired refl (refl, refl, refl))
  | inr (s, e) ↦ rw (e, complete_pairing) (session_case crypto pm code msg now s e)
]

data IsRefused (pm : PairingManager) (out : (TrustedPeer ⊎ PairingError) × PairingManager)
    : Type 0 where
  is_refused : (e : PairingError) → out.0 ≡ inr e → SameTrust pm out.1 → IsRefused pm out

module _ (crypto : Crypto) (pm : PairingManager) (code : String) (s : PairingSession)
    (done : s.completed ≡ true) where
  used_code :
      (msg : PairingMessage) (now : ℕ)
      → lookup code pm.active_sessions ≡ some s
      → IsRefused pm (complete_pairing crypto pm code msg now)
  used_code msg now there = elim (complete_pairing_lem crypto pm code msg now) [
    | refused e out same ↦ is_refused e out same
    | completed s' secret key cert there' fresh first proof agreed derived out ↦
        let one : s ≡ s' = cc in absurd (clash s' (ap (λ q. q.completed) (sym one) ∙ done) first)
  ]
    where
      clash : (q : PairingSession) → q.completed ≡ true → q.completed ≡ false → ⊥
      clash q t f = ground arith

-- After CompletePairing has succeeded with a code, the next call with the same code fails, whatever
-- its message and time, and adds or changes no peer, certificate or configured peer.
pub complete_twice :
    (crypto : Crypto) (pm : PairingManager) (code : String) (msg msg' : PairingMessage)
    (now later : ℕ) (peer : TrustedPeer)
    → (complete_pairing crypto pm code msg now).0 ≡ inl peer
    → (let pm' = (complete_pairing crypto pm code msg now).1 in
        let (result, pm'') = complete_pairing crypto pm' code msg' later in
        ((e : PairingError) × (result ≡ inr e)) × SameTrust pm' pm'')
complete_twice crypto pm code msg msg' now later peer success =
    elim (complete_pairing_lem crypto pm code msg now) [
      | refused e out same ↦ absurd (apart (sym success ∙ out))
      | completed s secret key cert there fresh first proof agreed derived out ↦ rw out (
          unpack (
            used_code crypto
              (trust crypto pm code s secret cert (trusted_peer crypto s key cert now)) code
              (finished_session s secret cert) refl msg' later
              (lookup-insert_self code (finished_session s secret cert) pm.active_sessions)))
    ]
  where
    apart :
        {p : TrustedPeer} {e : PairingError}
        → ◌≡◌ {A = TrustedPeer ⊎ PairingError} (inl p) (inr e)
        → ⊥
    apart h = ground arith

    unpack :
        {q : PairingManager} {out : (TrustedPeer ⊎ PairingError) × PairingManager}
        → IsRefused q out
        → ((e : PairingError) × (out.0 ≡ inr e)) × SameTrust q out.1
    unpack (is_refused e out same) = ((e, out), same)
