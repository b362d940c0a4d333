-- ===== src/Peer/Pairing/Agreement.antt =====
-- internal/peer/pairing.go: a whole pairing, in which both sides follow the code.
use Prim.Native.String.{◌++◌ as str_append}
use dockation.Prelude.{
  ℕ, ◌+◌, ◌≤◌, String, ◌≡◌, refl, ap, ◌∙◌, true, false, inl, none, some, arith, ltb,
}
use dockation.Prelude.Dict.{Dict, lookup, insert, lookup-insert_self}
use dockation.Peer.RateLimit.{RateLimitTracker, check_rate_limit, record_attempt}
use dockation.Peer.Pairing.{
  Bytes, Certificate, Crypto, PairingSession, TrustedPeer, PairingMessage, PairingManager,
  pairing_timeout, hash_code, message_of, offered, responding, generate_pairing_code,
  accept_pairing, agree, verifies, compute_code_verifier,
}
use dockation.Peer.Pairing.Compare.{secure_compare_self}
use dockation.Peer.Pairing.Completion.{
  trusted_peer, finished_session, complete_session, complete_pairing, get_pairing_message,
  get_trusted_peer,
}

-- What the code relies on: a public key can be imported, either side's exchange gives the same
-- secret, and a session key can be derived of it.
pub record IsSound (crypto : Crypto) : Type 0 where
  pub shared : Bytes → Bytes → Bytes
  pub imports :
      (k : Bytes) → crypto.new_public_key (crypto.public_key k) ≡ inl (crypto.public_key k)
  pub exchanges : (k l : Bytes) → crypto.ecdh k (crypto.public_key l) ≡ inl (shared k l)
  pub commutes : (k l : Bytes) → shared k l ≡ shared l k
  pub derives :
      (k l salt : Bytes) → (key : Bytes) × (crypto.derive_session_key (shared k l) salt ≡ inl key)

not_yet : (end now : ℕ) → now ≤ end → ltb end now ≡ false
not_yet end now early = ground arith

module _ (crypto : Crypto) (sound : IsSound crypto) where
  -- One side's steps with the message of the other, whose key and certificate are good.
  agree_sound :
      (k l verifier pem : Bytes) (cert : Certificate)
      → crypto.parse_certificate pem ≡ inl cert
      → agree crypto k
          (record { public_key = crypto.public_key l; code_verifier = verifier; certificate = pem })
        ≡ inl (sound.shared k l, cert)
  unfolding agree
  agree_sound k l verifier pem cert parsed = rw (sound.imports l, sound.exchanges k l, parsed) refl

  verifies_own :
      (key hash pem : Bytes)
      → verifies crypto
          (record {
            public_key = key;
            code_verifier = compute_code_verifier crypto key hash;
            certificate = pem;
          })
          hash
        ≡ true
  verifies_own key hash pem = secure_compare_self (compute_code_verifier crypto key hash)

module _ (crypto : Crypto) (sound : IsSound crypto) (pm_a pm_b : PairingManager)
    (code address : String) (ka kb : Bytes) (cert_a cert_b : Certificate) where
  accepted :
      (t0 t2 : ℕ) (attempts : Dict RateLimitTracker)
      → crypto.parse_certificate pm_a.certificate_pem ≡ inl cert_a
      → check_rate_limit pm_b.attempts address t2 ≡ (none, attempts)
      → let msg_a = message_of crypto pm_a (offered crypto code ka t0) in
        let session = responding crypto code address msg_a kb t2 (sound.shared kb ka) cert_a in
        accept_pairing crypto pm_b code address msg_a kb t2 ≡ (
          inl (message_of crypto pm_b session),
          record pm_b {
            attempts = record_attempt attempts address t2;
            active_sessions = insert (str_append code "-responder") session pm_b.active_sessions;
          },
        )
  unfolding accept_pairing
  accepted t0 t2 attempts parsed free =
      let hash = hash_code crypto code in
      rw
        (
          free,
          accept_pairing,
          verifies_own crypto sound (crypto.public_key ka) hash pm_a.certificate_pem,
          agree_sound crypto sound kb ka (compute_code_verifier crypto (crypto.public_key ka) hash)
              pm_a.certificate_pem cert_a parsed,
        )
        refl

  abbrev code_given : ℕ → PairingManager
  code_given t0 = generate_pairing_code crypto pm_a code ka t0

  code_stored :
      (t0 : ℕ) → lookup code (code_given t0).active_sessions ≡ some (offered crypto code ka t0)
  unfolding generate_pairing_code
  code_stored t0 = lookup-insert_self code (offered crypto code ka t0) pm_a.active_sessions

  offered_message :
      (t0 t1 : ℕ)
      → t1 ≤ t0 + pairing_timeout
      → get_pairing_message crypto (code_given t0) code t1
        ≡ (inl (message_of crypto pm_a (offered crypto code ka t0)), code_given t0)
  unfolding get_pairing_message generate_pairing_code
  offered_message t0 t1 early =
      rw (code_stored t0, get_pairing_message, not_yet (t0 + pairing_timeout) t1 early) refl

  completed_with :
      (t0 t2 t3 : ℕ) (key : Bytes)
      → t3 ≤ t0 + pairing_timeout
      → crypto.parse_certificate pm_b.certificate_pem ≡ inl cert_b
      → crypto.derive_session_key (sound.shared ka kb) (hash_code crypto code) ≡ inl key
      → (let s = offered crypto code ka t0 in
          let msg_b = message_of crypto pm_b (
            responding crypto code address
              (message_of crypto pm_a s)
              kb
              t2
              (sound.shared kb ka)
              cert_a) in
          let (result, pm) = complete_pairing crypto (code_given t0) code msg_b t3 in
          (result ≡ inl (trusted_peer crypto s key cert_b t3))
          × (lookup code pm.active_sessions ≡ some (finished_session s (sound.shared ka kb) cert_b))
          × (get_trusted_peer pm (crypto.generate_peer_id cert_b)
              ≡ some (trusted_peer crypto s key cert_b t3)))
  unfolding complete_pairing complete_session get_trusted_peer generate_pairing_code
  completed_with t0 t2 t3 key early parsed derived =
      let s = offered crypto code ka t0 in
      let hash = hash_code crypto code in
      rw
        (
          code_stored t0,
          not_yet (t0 + pairing_timeout) t3 early,
          verifies_own crypto sound (crypto.public_key kb) hash pm_b.certificate_pem,
          agree_sound crypto sound ka kb (compute_code_verifier crypto (crypto.public_key kb) hash)
              pm_b.certificate_pem cert_b parsed,
          derived,
        )
        (
          refl,
          lookup-insert_self code _ _,
          lookup-insert_self (crypto.generate_peer_id cert_b) _ pm_a.trusted_peers,
        )

-- What the two messages and the answer lead to.
abbrev pub Agrees :
    Crypto
    → PairingManager
    → PairingManager
    → String
    → String
    → Bytes
    → Bytes
    → Certificate
    → Certificate
    → ℕ
    → ℕ
    → ℕ
    → ℕ
    → Type 0
Agrees crypto pm_a pm_b code address ka kb cert_a cert_b t0 t1 t2 t3 =
    let offer = generate_pairing_code crypto pm_a code ka t0 in
    (msg_a msg_b : PairingMessage) × (sa sb : PairingSession) × (peer : TrustedPeer)
    × (get_pairing_message crypto offer code t1 ≡ (inl msg_a, offer))
    × ((accept_pairing crypto pm_b code address msg_a kb t2).0 ≡ inl msg_b)
    × (lookup (str_append code "-responder")
          (accept_pairing crypto pm_b code address msg_a kb t2).1.active_sessions
        ≡ some sb)
    × ((complete_pairing crypto offer code msg_b t3).0 ≡ inl peer)
    × (lookup code (complete_pairing crypto offer code msg_b t3).1.active_sessions ≡ some sa)
    × (get_trusted_peer (complete_pairing crypto offer code msg_b t3).1 peer.id ≡ some peer)
    × (sa.shared_secret ≡ sb.shared_secret)
    × (sa.peer_cert ≡ some cert_b)
    × (sb.peer_cert ≡ some cert_a)
    × (peer.certificate ≡ some cert_b)

-- A pairing with one code, in which each side sends its own message, the two calls come before the
-- code expires, and the address is not limited: the offering side's message is accepted, the answer
-- completes the pairing, both sessions hold the same secret and the other side's certificate, and the
-- offering side trusts the peer of the other's certificate. The cryptographic functions are sound,
-- and both certificates can be parsed.
pub pairing-Agrees :
    (crypto : Crypto) (sound : IsSound crypto) (pm_a pm_b : PairingManager) (code address : String)
    (ka kb : Bytes) (cert_a cert_b : Certificate) (attempts : Dict RateLimitTracker)
    (t0 t1 t2 t3 : ℕ)
    → t1 ≤ t0 + pairing_timeout
    → t3 ≤ t0 + pairing_timeout
    → crypto.parse_certificate pm_a.certificate_pem ≡ inl cert_a
    → crypto.parse_certificate pm_b.certificate_pem ≡ inl cert_b
    → check_rate_limit pm_b.attempts address t2 ≡ (none, attempts)
    → Agrees crypto pm_a pm_b code address ka kb cert_a cert_b t0 t1 t2 t3
pairing-Agrees crypto sound pm_a pm_b code address ka kb cert_a cert_b attempts t0 t1 t2 t3 early1
      early3 parsed_a parsed_b free =
    let (key, derived) = sound.derives ka kb (hash_code crypto code) in
    let s = offered crypto code ka t0 in
    let msg_a = message_of crypto pm_a s in
    let sb = responding crypto code address msg_a kb t2 (sound.shared kb ka) cert_a in
    let accept =
      accepted crypto sound pm_a pm_b code address ka kb cert_a cert_b t0 t2 attempts parsed_a
        free in
    let (done, stored, trusted) =
      completed_with crypto sound pm_a pm_b code address ka kb cert_a cert_b t0 t2 t3 key early3
        parsed_b derived in
    (
      msg_a,
      message_of crypto pm_b sb,
      finished_session s (sound.shared ka kb) cert_b,
      sb,
      trusted_peer crypto s key cert_b t3,
      offered_message crypto sound pm_a pm_b code address ka kb cert_a cert_b t0 t1 early1,
      ap (λ r. r.0) accept,
      ap (λ r. lookup (str_append code "-responder") r.1.active_sessions) accept
          ∙ lookup-insert_self (str_append code "-responder") sb pm_b.active_sessions,
      done,
      stored,
      trusted,
      sound.commutes ka kb,
      refl,
      refl,
      refl,
    )
