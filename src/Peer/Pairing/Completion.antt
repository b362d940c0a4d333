-- ===== src/Peer/Pairing/Completion.antt =====
-- internal/peer/pairing.go: CompletePairing, and the calls that read or change the trusted peers.
use dockation.Prelude.{
  ℕ, String, true, not, ◌⊎◌, inl, inr, Option, none, some, List, ltb, if◌then◌else◌,
}
use dockation.Prelude.Dict.{Dict, lookup, insert, delete, values}
use dockation.Peer.Pairing.{
  Bytes, Certificate, Crypto, PairingSession, TrustedPeer, PairingMessage, ConfigPeer,
  PairingManager, PairingError, invalid_or_expired, code_expired, already_completed,
  invalid_verification, peer_not_found, no_session_key, message_of, agree, verifies,
}

abbrev pub finished_session : PairingSession → Bytes → Certificate → PairingSession
finished_session s secret cert = record s {
  completed = true;
  shared_secret = secret;
  peer_cert = some cert;
}

module _ (crypto : Crypto) where
  abbrev pub trusted_peer : PairingSession → Bytes → Certificate → ℕ → TrustedPeer
  trusted_peer s key cert now = record {
    id = crypto.generate_peer_id cert;
    name = cert.common_name;
    public_key = key;
    fingerprint = crypto.compute_fingerprint cert;
    first_seen = now;
    last_seen = now;
    address = s.peer_address;
    certificate = some cert;
  }

  abbrev pub config_peer : TrustedPeer → ConfigPeer
  config_peer p = record {
    id = p.id;
    name = p.name;
    fingerprint = p.fingerprint;
    address = p.address;
    added_at = p.first_seen;
    last_seen = p.last_seen;
  }

  -- The peer is stored, its certificate trusted, the configuration extended, the session marked.
  abbrev pub trust :
      PairingManager → String → PairingSession → Bytes → Certificate → TrustedPeer → PairingManager
  trust pm code s secret cert peer = record pm {
    active_sessions = insert code (finished_session s secret cert) pm.active_sessions;
    trusted_peers = insert peer.id peer pm.trusted_peers;
    trusted_certs = insert (crypto.compute_fingerprint cert) cert pm.trusted_certs;
    config_peers = insert peer.id (config_peer peer) pm.config_peers;
  }

  abbrev pub complete_derived :
      PairingManager
      → String
      → PairingSession
      → ℕ
      → Bytes
      → Certificate
      → Bytes ⊎ String
      → (TrustedPeer ⊎ PairingError) × PairingManager
  complete_derived pm code s now secret cert (inr e) = (inr (no_session_key e), pm)
  complete_derived pm code s now secret cert (inl key) =
      let peer = trusted_peer s key cert now in (inl peer, trust pm code s secret cert peer)

  abbrev pub complete_agreed :
      PairingManager
      → String
      → PairingSession
      → ℕ
      → (Bytes × Certificate) ⊎ PairingError
      → (TrustedPeer ⊎ PairingError) × PairingManager
  complete_agreed pm code s now (inr e) = (inr e, pm)
  complete_agreed pm code s now (inl (secret, cert)) =
      complete_derived pm code s now secret cert (crypto.derive_session_key secret s.code_hash)

  unfoldable pub complete_session :
      PairingManager
      → String
      → PairingMessage
      → ℕ
      → Option PairingSession
      → (TrustedPeer ⊎ PairingError) × PairingManager
  complete_session pm code msg now none = (inr invalid_or_expired, pm)
  complete_session pm code msg now (some s) =
      if ltb s.expires_at now
      then (inr code_expired, record pm { active_sessions = delete code pm.active_sessions })
      else if s.completed
      then (inr already_completed, pm)
      else if not (verifies crypto msg s.code_hash)
      then (inr invalid_verification, pm)
      else complete_agreed pm code s now (agree crypto s.private_key msg)

  unfoldable pub complete_pairing :
      PairingManager → String → PairingMessage → ℕ → (TrustedPeer ⊎ PairingError) × PairingManager
  complete_pairing pm code msg now =
      complete_session pm code msg now (lookup code pm.active_sessions)

  -- The goroutine that CompletePairing starts, after its minute.
  unfoldable pub forget_session : PairingManager → String → PairingManager
  forget_session pm code = record pm { active_sessions = delete code pm.active_sessions }

  unfoldable pub get_pairing_message :
      PairingManager → String → ℕ → (PairingMessage ⊎ PairingError) × PairingManager
  get_pairing_message pm code now = elim (lookup code pm.active_sessions) [
    | none ↦ (inr invalid_or_expired, pm)
    | some s ↦
        if ltb s.expires_at now
        then (inr code_expired, record pm { active_sessions = delete code pm.active_sessions })
        else (inl (message_of crypto pm s), pm)
  ]

unfoldable pub get_trusted_peer : PairingManager → String → Option TrustedPeer
get_trusted_peer pm peer_id = lookup peer_id pm.trusted_peers

unfoldable pub list_trusted_peers : PairingManager → List TrustedPeer
list_trusted_peers pm = values pm.trusted_peers

unfoldable pub remove_trusted_peer : PairingManager → String → Option PairingError × PairingManager
remove_trusted_peer pm peer_id = elim (lookup peer_id pm.trusted_peers) [
  | none ↦ (some peer_not_found, pm)
  | some peer ↦ (
    none,
    record pm {
      trusted_certs = delete peer.fingerprint pm.trusted_certs;
      config_peers = delete peer_id pm.config_peers;
      trusted_peers = delete peer_id pm.trusted_peers;
    },
  )
]

abbrev seen_at : ℕ → String → Dict ConfigPeer → Dict ConfigPeer
seen_at now peer_id m = elim (lookup peer_id m) [
  | none ↦ m
  | some p ↦ insert peer_id (record p { last_seen = now }) m
]

unfoldable pub update_peer_last_seen : PairingManager → String → ℕ → PairingManager
update_peer_last_seen pm peer_id now = elim (lookup peer_id pm.trusted_peers) [
  | none ↦ pm
  | some p ↦ record pm {
    trusted_peers = insert peer_id (record p { last_seen = now }) pm.trusted_peers;
    config_peers = seen_at now peer_id pm.config_peers;
  }
]
