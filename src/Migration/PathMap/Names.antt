-- ===== src/Migration/PathMap/Names.antt =====
-- internal/migration/pathmap.go: the names of the volumes made from them.
use Prim.Native.Char.{Char, code}
use Prim.Native.String.{◌∷◌}
use Prim.Native.String.compare
use text.Mathlib.TextLemmas.{append_cancel_left}
use dockation.Prelude.{String, ◌≡◌, refl, ap, arith, ◌==◌, ◌⊎◌, inl, inr, eq_iff, Bool-cases}
use dockation.Migration.PathMap.{BindMount, sanitize_path, convert_to_volume}

code-injective : (c d : Char) → code c ≡ code d → c ≡ d
code-injective c d e =
    let same : c ∷ "" ≡ d ∷ "" =
      (eq_iff (c ∷ "") (d ∷ "")).0
        (rw (compare.cons-cons c d "" "", compare.nil-nil, e) (ground arith)) in
    cc

-- The path is the other one behind a slash.
abbrev pub IsSlashed : String → String → Type 0
IsSlashed p q = p ≡ "/" ∷ q

sanitize_cases : (p : String) → (sanitize_path p ≡ p) ⊎ IsSlashed p (sanitize_path p)
unfolding sanitize_path
sanitize_cases String.[] = inl refl
sanitize_cases (String.◌∷◌ c p) = elim (Bool-cases (code c == b'/')) [
  | inl t ↦ rw t (inr (ap (λ (d : Char). d ∷ p) (code-injective c "/" (ground arith))))
  | inr f ↦ rw f (inl refl)
]

-- Two bind mounts are given the same volume name only if their source paths are the same, or one
-- path is the other behind a slash.
pub convert_to_volume-injective :
    (a b : BindMount)
    → convert_to_volume a ≡ convert_to_volume b
    → (a.source_path ≡ b.source_path)
      ⊎ IsSlashed a.source_path b.source_path
      ⊎ IsSlashed b.source_path a.source_path
unfolding convert_to_volume
convert_to_volume-injective a b e =
    let same = append_cancel_left "migrated-" _ _ e in
    elim (sanitize_cases a.source_path) [
      | inl pa ↦ elim (sanitize_cases b.source_path) [ inl pb ↦ inl cc | inr pb ↦ inr (inr cc) ]
      | inr pa ↦ elim (sanitize_cases b.source_path) [ inl pb ↦ inr (inl cc) | inr pb ↦ inl cc ]
    ]
