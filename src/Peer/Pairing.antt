-- ===== src/Peer/Pairing.antt =====
-- internal/peer/pairing.go: how two peers come to trust each other.
-- The cryptographic functions are the argument `crypto`; fresh keys and codes are arguments of the
-- operations that draw them. Times are in nanoseconds, and one call reads the clock once:
-- `time.Since(t) > d` is `t + d < now`. A failure to save the configuration is only logged. The
-- manager holds the certificates that its CryptoManager trusts and the peers of its configuration.
pub mod Compare
pub mod Completion
pub mod Agreement
pub mod Safety
mod Tests
use Prim.Native.Nat.{bit_or, bit_xor}
use Prim.Native.String.{◌++◌ as str_append}
use dockation.Prelude.{
  ℕ, zero, suc, ◌+◌, ◌*◌, String, Bool, true, false, not, ◌&&◌, ◌⊎◌, inl, inr, Option, none, some,
  List, [], ◌∷◌, ◌++◌, ltb, leb, ◌==◌, if◌then◌else◌, length,
}
use dockation.Peer.RateLimit.{
  RateLimitTracker, RateError, minute, check_rate_limit, record_attempt, clean_attempts,
}
use dockation.Prelude.Dict.{Dict, lookup, insert, delete, retain, values}

abbrev pub Bytes : Type 0
Bytes = List ℕ

abbrev pub pairing_timeout : ℕ
pairing_timeout = 5 * minute

pub record Certificate : Type 0 where
  pub raw : Bytes
  pub common_name : String

-- SHA-256, X25519, X.509 and HKDF; an `inr` is an error's text.
pub record Crypto : Type 0 where
  pub sha256 : Bytes → Bytes
  pub public_key : Bytes → Bytes
  pub new_public_key : Bytes → Bytes ⊎ String
  pub ecdh : Bytes → Bytes → Bytes ⊎ String
  pub parse_certificate : Bytes → Certificate ⊎ String
  pub derive_session_key : Bytes → Bytes → Bytes ⊎ String
  pub compute_fingerprint : Certificate → String
  pub generate_peer_id : Certificate → String
  pub code_bytes : String → Bytes

pub data PairingRole : Type 0 where
  initiator responder : PairingRole

pub record PairingSession : Type 0 where
  pub code : String
  pub code_hash : Bytes
  pub expires_at : ℕ
  pub private_key : Bytes
  pub public_key : Bytes
  pub peer_public : Bytes
  pub shared_secret : Bytes
  pub peer_cert : Option Certificate
  pub peer_address : String
  pub role : PairingRole
  pub created : ℕ
  pub completed : Bool

pub record TrustedPeer : Type 0 where
  pub id : String
  pub name : String
  pub public_key : Bytes
  pub fingerprint : String
  pub first_seen : ℕ
  pub last_seen : ℕ
  pub address : String
  pub certificate : Option Certificate

pub record PairingMessage : Type 0 where
  pub public_key : Bytes
  pub code_verifier : Bytes
  pub certificate : Bytes

-- config.TrustedPeer.
pub record ConfigPeer : Type 0 where
  pub id : String
  pub name : String
  pub fingerprint : String
  pub address : String
  pub added_at : ℕ
  pub last_seen : ℕ

pub record PairingManager : Type 0 where
  pub active_sessions : Dict PairingSession
  pub trusted_peers : Dict TrustedPeer
  pub attempts : Dict RateLimitTracker
  pub trusted_certs : Dict Certificate
  pub config_peers : Dict ConfigPeer
  pub certificate_pem : Bytes

pub data PairingError : Type 0 where
  rate_limited : RateError → PairingError
  invalid_code invalid_or_expired code_expired already_completed : PairingError
  invalid_verification peer_not_found : PairingError
  invalid_public_key no_shared_secret bad_certificate no_session_key : String → PairingError

abbrev pub not_expired : ℕ → PairingSession → Bool
not_expired now s = not (ltb s.expires_at now)

unfoldable pub cleanup_expired_sessions : PairingManager → ℕ → PairingManager
unfolding clean_attempts
cleanup_expired_sessions pm now = record pm {
  active_sessions = retain (not_expired now) pm.active_sessions;
  attempts = clean_attempts pm.attempts now;
}

differences : Bytes → Bytes → ℕ → ℕ
differences [] ys result = result
differences (x ∷ xs) [] result = result
differences (x ∷ xs) (y ∷ ys) result = differences xs ys (bit_or result (bit_xor x y))

unfoldable pub secure_compare : Bytes → Bytes → Bool
unfolding differences
secure_compare xs ys = if not (length xs == length ys) then false else differences xs ys 0 == 0

-- A peer of the configuration: its key and its certificate are not kept there.
abbrev trusted_of : ConfigPeer → TrustedPeer
trusted_of peer = record {
  id = peer.id;
  name = peer.name;
  public_key = [];
  fingerprint = peer.fingerprint;
  first_seen = peer.added_at;
  last_seen = peer.last_seen;
  address = peer.address;
  certificate = none;
}

-- The loop over the configuration's peers.
unfoldable pub load_trusted : List ConfigPeer → Dict TrustedPeer → Dict TrustedPeer
load_trusted [] trusted = trusted
load_trusted (peer ∷ peers) trusted = load_trusted peers (insert peer.id (trusted_of peer) trusted)

-- NewPairingManager, with the certificates that its CryptoManager trusts.
unfoldable pub new_pairing_manager : Dict ConfigPeer → Dict Certificate → Bytes → PairingManager
unfolding load_trusted
new_pairing_manager config_peers trusted_certs certificate_pem = record {
  active_sessions = [];
  trusted_peers = load_trusted (values config_peers) [];
  attempts = [];
  trusted_certs = trusted_certs;
  config_peers = config_peers;
  certificate_pem = certificate_pem;
}

module _ (crypto : Crypto) where
  unfoldable pub compute_code_verifier : Bytes → Bytes → Bytes
  compute_code_verifier key code_hash = crypto.sha256 (key ++ code_hash)

  abbrev pub hash_code : String → Bytes
  hash_code code = crypto.sha256 (crypto.code_bytes code)

  abbrev pub message_of : PairingManager → PairingSession → PairingMessage
  message_of pm s = record {
    public_key = s.public_key;
    code_verifier = compute_code_verifier s.public_key s.code_hash;
    certificate = pm.certificate_pem;
  }

  abbrev pub offered : String → Bytes → ℕ → PairingSession
  offered code private_key now = record {
    code = code;
    code_hash = hash_code code;
    expires_at = now + pairing_timeout;
    private_key = private_key;
    public_key = crypto.public_key private_key;
    peer_public = [];
    shared_secret = [];
    peer_cert = none;
    peer_address = "";
    role = initiator;
    created = now;
    completed = false;
  }

  unfoldable pub generate_pairing_code : PairingManager → String → Bytes → ℕ → PairingManager
  generate_pairing_code pm code private_key now = record pm {
    active_sessions = insert code (offered code private_key now) pm.active_sessions;
  }

  -- The steps that both sides take with the other's message once its verifier is right.
  after_parse : Bytes → Certificate ⊎ String → (Bytes × Certificate) ⊎ PairingError
  after_parse secret (inr e) = inr (bad_certificate e)
  after_parse secret (inl cert) = inl (secret, cert)

  after_ecdh : Bytes → Bytes ⊎ String → (Bytes × Certificate) ⊎ PairingError
  after_ecdh pem (inr e) = inr (no_shared_secret e)
  after_ecdh pem (inl secret) = after_parse secret (crypto.parse_certificate pem)

  after_import : Bytes → Bytes → Bytes ⊎ String → (Bytes × Certificate) ⊎ PairingError
  after_import private_key pem (inr e) = inr (invalid_public_key e)
  after_import private_key pem (inl key) = after_ecdh pem (crypto.ecdh private_key key)

  unfoldable pub agree : Bytes → PairingMessage → (Bytes × Certificate) ⊎ PairingError
  unfolding after_parse after_ecdh after_import
  agree private_key msg =
      after_import private_key msg.certificate (crypto.new_public_key msg.public_key)

  abbrev pub responding :
      String → String → PairingMessage → Bytes → ℕ → Bytes → Certificate → PairingSession
  responding code address msg private_key now secret cert = record {
    code = code;
    code_hash = hash_code code;
    expires_at = now + pairing_timeout;
    private_key = private_key;
    public_key = crypto.public_key private_key;
    peer_public = msg.public_key;
    shared_secret = secret;
    peer_cert = some cert;
    peer_address = address;
    role = responder;
    created = now;
    completed = false;
  }

  abbrev pub accept_agreed :
      PairingManager
      → String
      → String
      → PairingMessage
      → Bytes
      → ℕ
      → (Bytes × Certificate) ⊎ PairingError
      → (PairingMessage ⊎ PairingError) × PairingManager
  accept_agreed pm code address msg private_key now (inr e) = (inr e, pm)
  accept_agreed pm code address msg private_key now (inl (secret, cert)) =
      let session = responding code address msg private_key now secret cert in
      (
        inl (message_of pm session),
        record pm {
          active_sessions = insert (str_append code "-responder") session pm.active_sessions;
        },
      )

  abbrev pub verifies : PairingMessage → Bytes → Bool
  verifies msg code_hash =
      secure_compare msg.code_verifier (compute_code_verifier msg.public_key code_hash)

  abbrev pub accept_limited :
      PairingManager
      → String
      → String
      → PairingMessage
      → Bytes
      → ℕ
      → Option RateError × Dict RateLimitTracker
      → (PairingMessage ⊎ PairingError) × PairingManager
  accept_limited pm code address msg private_key now (some e, attempts) =
      (inr (rate_limited e), record pm { attempts = attempts })
  accept_limited pm code address msg private_key now (none, attempts) =
      let pm' = record pm { attempts = record_attempt attempts address now } in
      if verifies msg (hash_code code)
      then accept_agreed pm' code address msg private_key now (agree private_key msg)
      else (inr invalid_code, pm')

  -- AcceptPairing, with the private key that it draws.
  unfoldable pub accept_pairing :
      PairingManager
      → String
      → String
      → PairingMessage
      → Bytes
      → ℕ
      → (PairingMessage ⊎ PairingError) × PairingManager
  accept_pairing pm code address msg private_key now =
      accept_limited pm code address msg private_key now (check_rate_limit pm.attempts address now)
