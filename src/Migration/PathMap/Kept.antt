-- ===== src/Migration/PathMap/Kept.antt =====
-- internal/migration/pathmap.go, ApplyMapping where no mount is skipped, and round one skipped mount.
use mathlib.Core.List.{append_assoc, append-nil}
use mathlib.Core.Path.{ap₂}
use native.Mathlib.Nat.{add-zero, add-suc}
use dockation.Prelude.{
  ℕ, suc, ◌+◌, ◌≤◌, ◌≡◌, refl, ap, sym, ◌∙◌, Bool, false, Option, none, some, List, [], ◌∷◌, ◌++◌,
  map, arith, if◌then◌else◌, length, take, get_elem?, length-append, get_elem?-append, set-append,
  take-length,
}
use dockation.Prelude.Dict.{lookup}
use dockation.Migration.PathMap.{
  VolumeMount, ContainerState, PathMapping, PathMapper, returns, Slice, is_bind, remap, round,
  round_mapped, loop, apply_mapping, write,
}

-- The mapping that the loop applies to a mount, where there is one.
abbrev pub mapping_of : PathMapper → VolumeMount → Option PathMapping
mapping_of pm v = if is_bind v then lookup v.source pm.mappings else none

abbrev pub skips : Option PathMapping → Bool
skips none = false
skips (some m) = m.skip

abbrev pub mapped : Option PathMapping → VolumeMount → VolumeMount
mapped none v = v
mapped (some m) v = remap m v

-- What the configuration makes of a mount by itself.
abbrev pub translate : PathMapper → VolumeMount → VolumeMount
translate pm v = mapped (mapping_of pm v) v

abbrev pub NoneSkipped : PathMapper → List VolumeMount → Type 0
NoneSkipped pm [] = Unit
NoneSkipped pm (v ∷ vs) = (skips (mapping_of pm v) ≡ false) × NoneSkipped pm vs

abbrev pub slice : List VolumeMount → ℕ → Slice
slice array len = record { array = array; len = len }

pub round-mapping_of :
    (pm : PathMapper) (i : ℕ) (v : VolumeMount) (s : Slice)
    → round pm i v s ≡ round_mapped i v s (mapping_of pm v)
unfolding round
round-mapping_of pm i v s = ground arith

round_mapped_kept :
    (pre tail : List VolumeMount) (v : VolumeMount) (len : ℕ) (o : Option PathMapping)
    → length pre + 1 ≤ len
    → skips o ≡ false
    → round_mapped (length pre) v (slice (pre ++ v ∷ tail) len) o
      ≡ returns (slice (pre ++ mapped o v ∷ tail) len)
unfolding write
round_mapped_kept pre tail v len none fits kept = refl
round_mapped_kept pre tail v len (some m) fits kept =
    ground (arith, set-append pre v tail (remap m v))

-- One round over a mount that is not skipped replaces it in place.
round_kept :
    (pm : PathMapper) (pre tail : List VolumeMount) (v : VolumeMount) (len : ℕ)
    → length pre + 1 ≤ len
    → skips (mapping_of pm v) ≡ false
    → round pm (length pre) v (slice (pre ++ v ∷ tail) len)
      ≡ returns (slice (pre ++ translate pm v ∷ tail) len)
round_kept pm pre tail v len fits kept =
    round-mapping_of pm (length pre) v _
    ∙ round_mapped_kept pre tail v len (mapping_of pm v) fits kept

pub get-here :
    (pre tail : List VolumeMount) (v : VolumeMount)
    → get_elem? (pre ++ v ∷ tail) (length pre) ≡ some v
get-here pre tail v =
    ap (get_elem? (pre ++ v ∷ tail)) (omega arith) ∙ get_elem?-append pre (v ∷ tail) 0

length-snoc : (pre : List VolumeMount) (v : VolumeMount) → length (pre ++ v ∷ []) ≡ length pre + 1
length-snoc pre v = omega (arith, length-append pre (v ∷ []))

pub loop_step :
    (pm : PathMapper) (left i : ℕ) (v : VolumeMount) (s s' : Slice)
    → get_elem? s.array i ≡ some v
    → round pm i v s ≡ returns s'
    → loop pm (suc left) i s ≡ loop pm left (i + 1) s'
unfolding loop
loop_step pm left i v s s' e f = rw (e, f) refl

snoc_append :
    (pre rest : List VolumeMount) (v : VolumeMount) → (pre ++ v ∷ []) ++ rest ≡ pre ++ v ∷ rest
snoc_append pre rest v = append_assoc pre (v ∷ []) rest

-- Rounds over mounts that are not skipped, with anything behind them.
pub loop_kept :
    (pm : PathMapper) (k : ℕ) (pre rest tail : List VolumeMount) (len : ℕ)
    → length pre + length rest ≤ len
    → NoneSkipped pm rest
    → loop pm (k + length rest) (length pre) (slice (pre ++ (rest ++ tail)) len)
      ≡ loop pm k (length pre + length rest) (slice (pre ++ (map (translate pm) rest ++ tail)) len)
loop_kept pm k pre [] tail len fits kept = rw (add-zero k, add-zero (length pre))
loop_kept pm k pre (v ∷ rest) tail len fits kept =
    let w = translate pm v in
    let pre' = pre ++ w ∷ [] in
    rw (add-suc k (length rest)) (
      loop_step pm (k + length rest) (length pre) v _ _ (get-here pre (rest ++ tail) v)
        (round_kept pm pre (rest ++ tail) v len (omega arith) kept.0)
      ∙ ap₂ (λ i array. loop pm (k + length rest) i (slice array len)) (sym (length-snoc pre w))
          (sym (snoc_append pre (rest ++ tail) w))
      ∙ loop_kept pm k pre' rest tail len (omega (arith, length-snoc pre w)) kept.1
      ∙ ap₂ (λ i array. loop pm k i (slice array len)) (omega (arith, length-snoc pre w))
          (snoc_append pre (map (translate pm) rest ++ tail) w))

length-translate :
    (pm : PathMapper) (vs : List VolumeMount) → length (map (translate pm) vs) ≡ length vs
length-translate pm [] = refl
length-translate pm (v ∷ vs) = ap suc (length-translate pm vs)

loop_all :
    (pm : PathMapper) (vs : List VolumeMount)
    → NoneSkipped pm vs
    → loop pm (length vs) 0 (slice vs (length vs))
      ≡ returns (slice (map (translate pm) vs) (length vs))
loop_all pm vs kept =
    ap₂ (λ n array. loop pm n 0 (slice array (length vs))) (omega arith) (sym (append-nil vs))
    ∙ loop_kept pm 0 [] vs [] (length vs) (omega arith) kept
    ∙ unfold loop in
      ap (λ array. returns (slice array (length vs))) (append-nil (map (translate pm) vs))

-- Where no mount of the container is skipped, ApplyMapping does not panic, and returns the same
-- configuration with each mount translated by itself, in the same order.
pub apply_mapping_kept :
    (pm : PathMapper) (state : ContainerState)
    → NoneSkipped pm state.volumes
    → apply_mapping pm state ≡ returns (record state { volumes = map (translate pm) state.volumes })
unfolding apply_mapping
apply_mapping_kept pm state kept =
    rw (loop_all pm state.volumes kept) (ap (λ vs. returns (record state { volumes = vs })) exact)
  where
    exact :
        take (length state.volumes) (map (translate pm) state.volumes)
        ≡ map (translate pm) state.volumes
    exact =
        rw (← length-translate pm state.volumes) (take-length (map (translate pm) state.volumes))
