-- ===== src/Peer/Pairing/Compare.antt =====
-- internal/peer/pairing.go: secureCompare says whether two byte strings are equal.
use Prim.Native.Nat.{digits, differ, max, bit_or, bit_xor, bit_or-bitwise, bit_xor-bitwise}
use dockation.Prelude.{
  ℕ, zero, suc, ◌/◌, ◌%◌, ◌≤◌, ◌≡◌, ◌↔◌, refl, sym, ap, ◌∙◌, true, [], ◌∷◌, inl, inr, arith, ◌==◌,
  length, Bool-cases,
}
use dockation.Peer.Pairing.{Bytes, differences, secure_compare}

abbrev xor_digits : ℕ → ℕ → ℕ → ℕ
xor_digits n a b = digits (λ b. b) differ n a b

differ-zero : (x y : ℕ) → differ x y ≡ 0 → x ≡ y
differ-zero zero y h = sym h
differ-zero (suc x) zero h = ground arith
differ-zero (suc x) (suc y) h = ap suc (differ-zero x y h)

differ_self : (x : ℕ) → differ x x ≡ 0
differ_self zero = refl
differ_self (suc x) = differ_self x

xor_digits-zero : (n a b : ℕ) → a ≤ n → xor_digits n a b ≡ 0 → a ≡ b
xor_digits-zero zero zero b le h = sym h
xor_digits-zero zero (suc a) b le h = ground arith
xor_digits-zero (suc n) zero b le h = sym h
xor_digits-zero (suc n) (suc a) b le h =
    let high = xor_digits-zero n (suc a / 2) (b / 2) (omega arith) (omega (arith, h)) in
    let low = differ-zero (suc a % 2) (b % 2) (omega (arith, h)) in omega (arith, high, low)

xor_digits_self : (n a : ℕ) → a ≤ n → xor_digits n a a ≡ 0
xor_digits_self zero zero le = refl
xor_digits_self zero (suc a) le = ground arith
xor_digits_self (suc n) zero le = refl
xor_digits_self (suc n) (suc a) le =
    omega (arith, xor_digits_self n (suc a / 2) (omega arith), differ_self (suc a % 2))

bit_xor_iff : (a b : ℕ) → (bit_xor a b ≡ 0) ↔ (a ≡ b)
bit_xor_iff a b = (
  (λ h. xor_digits-zero a a b (omega arith) (sym (bit_xor-bitwise a b) ∙ h)),
  (λ e. rw (sym e) (bit_xor-bitwise a a ∙ xor_digits_self a a (omega arith))),
)

or_digits-zero : (n a b : ℕ) → a ≤ n → digits (λ b. b) max n a b ≡ 0 → (a ≡ 0) × (b ≡ 0)
or_digits-zero zero zero b le h = (refl, h)
or_digits-zero zero (suc a) b le h = ground arith
or_digits-zero (suc n) zero b le h = (refl, h)
or_digits-zero (suc n) (suc a) b le h =
    let (high, high') = or_digits-zero n (suc a / 2) (b / 2) (omega arith) (omega (arith, h)) in
    let low : max (suc a % 2) (b % 2) ≡ 0 = omega (arith, h) in
    (omega (arith, high, low), omega (arith, high', low))

bit_or-zero : (a b : ℕ) → bit_or a b ≡ 0 → (a ≡ 0) × (b ≡ 0)
bit_or-zero a b h = or_digits-zero a a b (omega arith) (sym (bit_or-bitwise a b) ∙ h)

bit_or_zeros : (a b : ℕ) → a ≡ 0 → b ≡ 0 → bit_or a b ≡ 0
bit_or_zeros a b e f = rw (e, f) refl

differences-zero :
    (xs ys : Bytes) (r : ℕ) → length xs ≡ length ys → differences xs ys r ≡ 0 → (r ≡ 0) × (xs ≡ ys)
unfolding differences
differences-zero [] [] r same h = (h, refl)
differences-zero [] (y ∷ ys) r same h = absurd (omega (arith, same))
differences-zero (x ∷ xs) [] r same h = absurd (omega (arith, same))
differences-zero (x ∷ xs) (y ∷ ys) r same h =
    let (first, rest) = differences-zero xs ys (bit_or r (bit_xor x y)) (omega (arith, same)) h in
    let (none_before, here) = bit_or-zero r (bit_xor x y) first in
    let head : x ≡ y = (bit_xor_iff x y).0 here in (none_before, cc)

differences_self : (xs : Bytes) (r : ℕ) → r ≡ 0 → differences xs xs r ≡ 0
unfolding differences
differences_self [] r e = e
differences_self (x ∷ xs) r e =
    differences_self xs (bit_or r (bit_xor x x))
      (bit_or_zeros r (bit_xor x x) e ((bit_xor_iff x x).1 refl))

secure_compare_sound : (xs ys : Bytes) → secure_compare xs ys ≡ true → xs ≡ ys
unfolding secure_compare
secure_compare_sound xs ys h = elim (Bool-cases (length xs == length ys)) [
  | inl same ↦ (differences-zero xs ys 0 (ground arith) (ground arith)).1
  | inr other ↦ ground arith
]

pub secure_compare_self : (xs : Bytes) → secure_compare xs xs ≡ true
unfolding secure_compare
secure_compare_self xs = ground (arith, differences_self xs 0 refl)

-- The comparison that looks at every byte, whatever it has found so far, answers true exactly if the
-- two byte strings are equal.
pub secure_compare_iff : (xs ys : Bytes) → (secure_compare xs ys ≡ true) ↔ (xs ≡ ys)
secure_compare_iff xs ys = (secure_compare_sound xs ys, λ e. rw (sym e) (secure_compare_self xs))
