-- ===== src/Prelude/Dict.antt =====
-- A Go map with string keys, as a list of entries. The order of the entries stands for the
-- unspecified order in which Go ranges over a map.
use Prim.Native.String.{String}
use mathlib.Core.Path.{◌≡◌, refl}
use mathlib.Core.Bool.{Bool, true}
use mathlib.Core.Logic.{◌≢◌, ◌⊎◌, inl, inr}
use mathlib.Core.Option.{Option, none, some}
use mathlib.Core.List.{List, [], ◌∷◌, Memᴰ}
use native.Mathlib.Omega.{arith}
use text.Mathlib.Text.{◌==◌}
use text.Mathlib.TextEquality.{eq_iff}
use dockation.Prelude.Tests.{Bool-cases, if◌then◌else◌}

abbrev pub Dict {ℓ} : Type ℓ → Type ℓ
Dict V = List (String × V)

module _ {ℓ} {V : Type ℓ} where
  -- v, ok := m[k]
  unfoldable pub lookup : String → Dict V → Option V
  lookup k [] = none
  lookup k ((j, v) ∷ m) = if j == k then some v else lookup k m

  -- delete(m, k)
  unfoldable pub delete : String → Dict V → Dict V
  delete k [] = []
  delete k ((j, v) ∷ m) = if j == k then delete k m else (j, v) ∷ delete k m

  -- m[k] = v
  unfoldable pub insert : String → V → Dict V → Dict V
  insert key new [] = (key, new) ∷ []
  insert key new ((i, old) ∷ rest) =
      if i == key then (key, new) ∷ rest else (i, old) ∷ insert key new rest

  -- for k, v := range m { if !keep(k, v) { delete(m, k) } }
  unfoldable pub retain : (V → Bool) → Dict V → Dict V
  retain p [] = []
  retain p ((j, v) ∷ m) = if p v then (j, v) ∷ retain p m else retain p m

  -- for _, v := range m { if select(v) { vs = append(vs, v) } }
  unfoldable pub select : (V → Bool) → Dict V → List V
  select p [] = []
  select p ((j, v) ∷ m) = if p v then v ∷ select p m else select p m

  unfoldable pub values : Dict V → List V
  values [] = []
  values ((j, v) ∷ m) = v ∷ values m

  -- No key occurs twice, as in every Go map.
  abbrev pub Distinct : Dict V → Type ℓ
  Distinct [] = Unit
  Distinct ((j, v) ∷ m) = (lookup j m ≡ none) × Distinct m

module _ {ℓ} {V : Type ℓ} where
  pub lookup-insert :
      (key j : String) (new : V) (m : Dict V)
      → lookup j (insert key new m) ≡ (if key == j then some new else lookup j m)
  unfolding insert lookup
  lookup-insert key j new [] = refl
  lookup-insert key j new ((i, old) ∷ rest) =
      ground (arith, lookup-insert key j new rest, eq_iff i key, eq_iff key j, eq_iff i j)

  pub lookup-insert_self : (k : String) (v : V) (m : Dict V) → lookup k (insert k v m) ≡ some v
  lookup-insert_self k v m = rw (lookup-insert k k v m) (ground (arith, eq_iff k k))

  pub lookup-insert_ne :
      (k j : String) (v : V) (m : Dict V) → j ≢ k → lookup j (insert k v m) ≡ lookup j m
  lookup-insert_ne k j v m ne = rw (lookup-insert k j v m) (ground (arith, eq_iff k j))

  pub lookup-delete :
      (k j : String) (m : Dict V) → lookup j (delete k m) ≡ (if k == j then none else lookup j m)
  unfolding lookup delete
  lookup-delete k j [] = ground arith
  lookup-delete k j ((i, w) ∷ m) =
      ground (arith, eq_iff k j, eq_iff i k, eq_iff i j, lookup-delete k j m)

  pub lookup-insert_eq :
      (k j : String) (v : V) (m : Dict V) → k ≡ j → lookup j (insert k v m) ≡ some v
  lookup-insert_eq k j v m e = rw (lookup-insert k j v m) (ground (arith, eq_iff k j))

  pub lookup-delete_eq : (k j : String) (m : Dict V) → k ≡ j → lookup j (delete k m) ≡ none
  lookup-delete_eq k j m e = rw (lookup-delete k j m) (ground (arith, eq_iff k j))

  pub lookup-delete_ne : (k j : String) (m : Dict V) → j ≢ k → lookup j (delete k m) ≡ lookup j m
  lookup-delete_ne k j m ne = rw (lookup-delete k j m) (ground (arith, eq_iff k j))

  abbrev pub filter_option : (V → Bool) → Option V → Option V
  filter_option p none = none
  filter_option p (some v) = if p v then some v else none

  lookup-retain-none :
      (p : V → Bool) (j : String) (m : Dict V) → lookup j m ≡ none → lookup j (retain p m) ≡ none
  unfolding lookup retain
  lookup-retain-none p j [] h = refl
  lookup-retain-none p j ((i, w) ∷ m) h = ground (arith, lookup-retain-none p j m)

  pub lookup-retain :
      (p : V → Bool) (j : String) (m : Dict V)
      → Distinct m
      → lookup j (retain p m) ≡ filter_option p (lookup j m)
  unfolding lookup retain
  lookup-retain p j [] d = refl
  lookup-retain p j ((i, w) ∷ m) d =
      ground (arith, eq_iff i j, lookup-retain p j m d.1, lookup-retain-none p j m)

  pub Distinct-insert : (k : String) (v : V) (m : Dict V) → Distinct m → Distinct (insert k v m)
  unfolding lookup insert
  Distinct-insert k v [] d = (refl, tt)
  Distinct-insert k v ((i, w) ∷ m) d =
      ground (arith, eq_iff i k, eq_iff k i, lookup-insert k i v m, Distinct-insert k v m d.1)

  pub Distinct-delete : (k : String) (m : Dict V) → Distinct m → Distinct (delete k m)
  unfolding delete
  Distinct-delete k [] d = tt
  Distinct-delete k ((i, w) ∷ m) d = ground (arith, lookup-delete k i m, Distinct-delete k m d.1)

  pub Distinct-retain : (p : V → Bool) (m : Dict V) → Distinct m → Distinct (retain p m)
  unfolding retain
  Distinct-retain p [] d = tt
  Distinct-retain p ((i, w) ∷ m) d =
      ground (arith, lookup-retain-none p i m, Distinct-retain p m d.1)

  pub lookup_tail :
      (i k : String) (v w : V) (m : Dict V)
      → lookup i m ≡ none
      → lookup k m ≡ some v
      → lookup k ((i, w) ∷ m) ≡ some v
  unfolding lookup
  lookup_tail i k v w m fresh e = ground (arith, eq_iff i k)

  pub lookup_head : (i : String) (w : V) (m : Dict V) → lookup i ((i, w) ∷ m) ≡ some w
  unfolding lookup
  lookup_head i w m = ground (arith, eq_iff i i)

  abbrev Stored : (V → Bool) → V → Dict V → Type ℓ
  Stored p v m = (k : String) × (lookup k m ≡ some v) × (p v ≡ true)

  Stored-cons :
      (p : V → Bool) (v : V) (i : String) (w : V) (m : Dict V)
      → lookup i m ≡ none
      → Stored p v m
      → Stored p v ((i, w) ∷ m)
  Stored-cons p v i w m fresh (k, e, t) = (k, lookup_tail i k v w m fresh e, t)

  Stored-select :
      (p : V → Bool) (v : V) (i : String) (w : V) (m : Dict V)
      → lookup i m ≡ none
      → p w ≡ true
      → (Memᴰ v (select p m) → Stored p v m)
      → Memᴰ v (w ∷ select p m)
      → Stored p v ((i, w) ∷ m)
  Stored-select p v i w m fresh t ih (Memᴰ.head e) = (i, rw e (lookup_head i w m), rw e t)
  Stored-select p v i w m fresh t ih (Memᴰ.tail h) = Stored-cons p v i w m fresh (ih h)

  -- What a selecting range returns: the values that are stored under some key and pass the test.
  pub select_sound :
      (p : V → Bool) (v : V) (m : Dict V)
      → Distinct m
      → Memᴰ v (select p m)
      → (k : String) × (lookup k m ≡ some v) × (p v ≡ true)
  unfolding select
  select_sound p v [] d h = elim h [ ]
  select_sound p v ((i, w) ∷ m) d h = elim (Bool-cases (p w)) [
    | inl t ↦ Stored-select p v i w m d.0 t (select_sound p v m d.1) (rw t at h)
    | inr f ↦ Stored-cons p v i w m d.0 (select_sound p v m d.1 (rw f at h))
  ]

  lookup_nil : (k : String) (v : V) → lookup k [] ≡ some v → ⊥
  unfolding lookup
  lookup_nil k v e = cc

  select_mono :
      (p : V → Bool) (v : V) (i : String) (w : V) (m : Dict V)
      → Memᴰ v (select p m)
      → Memᴰ v (select p ((i, w) ∷ m))
  unfolding select
  select_mono p v i w m h = elim (Bool-cases (p w)) [ inl t ↦ rw t (Memᴰ.tail h) | inr f ↦ rw f h ]

  lookup_cons :
      (i k : String) (v w : V) (m : Dict V)
      → lookup k ((i, w) ∷ m) ≡ some v
      → (v ≡ w) ⊎ (lookup k m ≡ some v)
  unfolding lookup
  lookup_cons i k v w m e = ground arith

  pub select_complete :
      (p : V → Bool) (k : String) (v : V) (m : Dict V)
      → lookup k m ≡ some v
      → p v ≡ true
      → Memᴰ v (select p m)
  unfolding select
  select_complete p k v [] e t = absurd (lookup_nil k v e)
  select_complete p k v ((i, w) ∷ m) e t = elim (lookup_cons i k v w m e) [
    | inl here ↦ rw (← here, t) (Memᴰ.head refl)
    | inr later ↦ select_mono p v i w m (select_complete p k v m later t)
  ]
