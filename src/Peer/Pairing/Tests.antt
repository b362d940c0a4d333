-- ===== src/Peer/Pairing/Tests.antt =====
-- internal/peer/pairing.go: the theorems at concrete peers and attempts.
use dockation.Prelude.{
  ℕ, ◌+◌, ◌≡◌, ◌↔◌, refl, true, false, none, List, [], ◌∷◌, inl, arith, length, ap,
}
use dockation.Prelude.Dict.{Dict, lookup, insert}
use dockation.Peer.RateLimit.{RateLimitTracker, banned_until, check_rate_limit, check_tracker}
use dockation.Peer.RateLimit.Bans.{Step, checks, records, cleans}
use dockation.Peer.RateLimit.Window.{passes, five_pass}
use dockation.Peer.Pairing.{
  Bytes, Certificate, Crypto, PairingMessage, PairingManager, new_pairing_manager,
  generate_pairing_code, secure_compare, compute_code_verifier, agree, offered,
}
use dockation.Peer.Pairing.Compare.{secure_compare_iff}
use dockation.Peer.Pairing.Completion.{complete_pairing, complete_session, trusted_peer}
use dockation.Peer.Pairing.Safety.{CompleteCase, complete_pairing_lem}
use dockation.Peer.Pairing.Agreement.{IsSound, Agrees, pairing-Agrees}

secure_compare_iff_example :
    (secure_compare (1 ∷ 2 ∷ []) (1 ∷ 3 ∷ []) ≡ true) ↔ (◌≡◌ {A = Bytes} (1 ∷ 2 ∷ []) (1 ∷ 3 ∷ []))
secure_compare_iff_example = secure_compare_iff (1 ∷ 2 ∷ []) (1 ∷ 3 ∷ [])

abbrev banned : Dict RateLimitTracker
banned = ("10.0.0.9", record { attempts = 5; first_attempt = 1; banned_until = 900 }) ∷ []

abbrev steps : List (ℕ × Step)
steps = (10, checks "10.0.0.8") ∷ (11, records "10.0.0.9") ∷ (12, cleans) ∷ []

abbrev nobody : Dict RateLimitTracker
nobody = []

nobody_here : lookup "10.0.0.9" nobody ≡ none
unfolding lookup
nobody_here = refl

five_pass_example :
    passes nobody "10.0.0.9" (1 ∷ 2 ∷ 3 ∷ 4 ∷ 5 ∷ 6 ∷ [])
    ≡ true ∷ true ∷ true ∷ true ∷ true ∷ false ∷ []
five_pass_example =
    five_pass nobody "10.0.0.9" 1 (2 ∷ 3 ∷ 4 ∷ 5 ∷ 6 ∷ []) nobody_here
      (omega arith, (omega arith, (omega arith, (omega arith, (omega arith, tt)))))

-- Functions that serve as cryptography in the examples: a key is its own public key, and the secret
-- of two keys is their total length.
abbrev toy : Crypto
toy = record {
  sha256 = λ bs. bs;
  public_key = λ k. k;
  new_public_key = λ k. inl k;
  ecdh = λ k l. inl ((length k + length l) ∷ []);
  parse_certificate = λ pem. inl (record { raw = pem; common_name = "peer" });
  derive_session_key = λ secret salt. inl salt;
  compute_fingerprint = λ cert. cert.common_name;
  generate_peer_id = λ cert. cert.common_name;
  code_bytes = λ code. 7 ∷ [];
}

toy-IsSound : IsSound toy
toy-IsSound = record {
  shared = λ k l. (length k + length l) ∷ [];
  imports = λ k. refl;
  exchanges = λ k l. refl;
  commutes = λ k l. ap (λ n. n ∷ []) (omega arith);
  derives = λ k l salt. (salt, refl);
}

abbrev alice : PairingManager
alice = new_pairing_manager [] [] (1 ∷ [])

abbrev bob : PairingManager
bob = new_pairing_manager [] [] (2 ∷ [])

abbrev cert : ℕ → Certificate
cert n = record { raw = n ∷ []; common_name = "peer" }

unlimited : check_rate_limit bob.attempts "10.0.0.1" 3 ≡ (none, [])
unfolding check_rate_limit check_tracker lookup new_pairing_manager
unlimited = refl

pairing-Agrees_example :
    Agrees toy alice bob "AB2345" "10.0.0.1" (5 ∷ []) (6 ∷ 6 ∷ []) (cert 1) (cert 2) 1 2 3 4
unfolding new_pairing_manager
pairing-Agrees_example =
    pairing-Agrees toy toy-IsSound alice bob "AB2345" "10.0.0.1" (5 ∷ []) (6 ∷ 6 ∷ []) (cert 1)
      (cert 2) [] 1 2 3 4 (omega arith) (omega arith) refl refl unlimited

abbrev answer : PairingMessage
answer = record { public_key = 6 ∷ 6 ∷ []; code_verifier = 6 ∷ 6 ∷ 7 ∷ []; certificate = 2 ∷ [] }

abbrev offer : PairingManager
offer = generate_pairing_code toy alice "AB2345" (5 ∷ []) 1

complete_pairing_lem_example :
    CompleteCase toy offer "AB2345" answer 4 (complete_pairing toy offer "AB2345" answer 4)
complete_pairing_lem_example = complete_pairing_lem toy offer "AB2345" answer 4

completes :
    (complete_pairing toy offer "AB2345" answer 4).0
    ≡ inl (trusted_peer toy (offered toy "AB2345" (5 ∷ []) 1) (7 ∷ []) (cert 2) 4)
unfolding complete_pairing complete_session generate_pairing_code lookup insert secure_compare
    compute_code_verifier agree new_pairing_manager
completes = refl
