-- ===== src/Prelude/Decimal.antt =====
-- The verb %d of fmt.Sprintf on a number that is not negative.
use Prim.Native.Char.{Char, code}
use Prim.Native.Nat.{ℕ, zero, suc, ◌+◌, ◌-◌, ◌*◌, ◌/◌, ◌%◌, ◌≤◌, ◌<◌}
use Prim.Native.String.{String, ◌∷◌, ◌++◌}
use mathlib.Core.Logic.{inl, inr}
use mathlib.Core.Path.{◌≡◌, refl, sym, ap, ◌∙◌}
use native.Mathlib.Omega.{arith}
use text.Mathlib.TextLemmas.{append_cancel_left}
use dockation.Prelude.Tests.{◌==◌, if◌then◌else◌, Bool-cases}

digit : ℕ → Char
digit zero = "0"
digit (suc zero) = "1"
digit (suc (suc zero)) = "2"
digit (suc (suc (suc zero))) = "3"
digit (suc (suc (suc (suc zero)))) = "4"
digit (suc (suc (suc (suc (suc zero))))) = "5"
digit (suc (suc (suc (suc (suc (suc zero)))))) = "6"
digit (suc (suc (suc (suc (suc (suc (suc zero))))))) = "7"
digit (suc (suc (suc (suc (suc (suc (suc (suc zero)))))))) = "8"
digit _ = "9"

digits : ℕ → ℕ → String → String
digits zero n out = out
digits (suc f) n out =
    let rest = digits f (n / 10) (digit (n % 10) ∷ out) in if n == 0 then out else rest

unfoldable pub decimal : ℕ → String
unfolding digits digit
decimal n = if n == 0 then "0" else digits n n ""

read : String → ℕ → ℕ
read String.[] acc = acc
read (String.◌∷◌ c s) acc = read s (acc * 10 + (code c - 48))

read-digit : (d acc : ℕ) (s : String) → d < 10 → read (digit d ∷ s) acc ≡ read s (acc * 10 + d)
unfolding read digit
read-digit zero acc s h = ap (read s) (omega arith)
read-digit (suc zero) acc s h = ap (read s) (omega arith)
read-digit (suc (suc zero)) acc s h = ap (read s) (omega arith)
read-digit (suc (suc (suc zero))) acc s h = ap (read s) (omega arith)
read-digit (suc (suc (suc (suc zero)))) acc s h = ap (read s) (omega arith)
read-digit (suc (suc (suc (suc (suc zero))))) acc s h = ap (read s) (omega arith)
read-digit (suc (suc (suc (suc (suc (suc zero)))))) acc s h = ap (read s) (omega arith)
read-digit (suc (suc (suc (suc (suc (suc (suc zero))))))) acc s h = ap (read s) (omega arith)
read-digit (suc (suc (suc (suc (suc (suc (suc (suc zero)))))))) acc s h = ap (read s) (omega arith)
read-digit (suc (suc (suc (suc (suc (suc (suc (suc (suc zero))))))))) acc s h =
    ap (read s) (omega arith)
read-digit (suc (suc (suc (suc (suc (suc (suc (suc (suc (suc d)))))))))) acc s h =
    absurd (omega arith)

read-digits : (f n : ℕ) (out : String) → n ≤ f → read (digits f n out) 0 ≡ read out n
unfolding digits
read-digits zero n out h = ap (read out) (omega arith)
read-digits (suc f) n out h = elim (Bool-cases (n == 0)) [
  | inl done ↦ rw done (ap (read out) (ground arith))
  | inr more ↦ rw more (
      read-digits f (n / 10) (digit (n % 10) ∷ out) (ground arith)
      ∙ read-digit (n % 10) (n / 10) out (omega arith)
      ∙ ap (read out) (omega arith))
]

read-decimal : (n : ℕ) → read (decimal n) 0 ≡ n
unfolding decimal read
read-decimal n = elim (Bool-cases (n == 0)) [
  | inl none_left ↦ rw none_left (ground arith)
  | inr some_left ↦ rw some_left (read-digits n n "" (omega arith))
]

pub decimal-injective : (a b : ℕ) → decimal a ≡ decimal b → a ≡ b
decimal-injective a b e = sym (read-decimal a) ∙ ap (λ (s : String). read s 0) e ∙ read-decimal b

-- fmt.Sprintf(prefix + "%d", n)
unfoldable pub tagged : String → ℕ → String
unfolding decimal
tagged prefix n = prefix ++ decimal n

pub tagged-injective : (prefix : String) (a b : ℕ) → tagged prefix a ≡ tagged prefix b → a ≡ b
unfolding tagged
tagged-injective prefix a b e = decimal-injective a b (append_cancel_left prefix _ _ e)

tagged_run : tagged "worker-" 1090 ≡ "worker-1090"
unfolding tagged
tagged_run = refl
