-- ===== src/Migration/PathMap/Skipped.antt =====
-- internal/migration/pathmap.go, ApplyMapping where a mount is skipped.
use dockation.Prelude.{
  ℕ, zero, suc, ◌+◌, ◌-◌, ◌≤◌, ◌<◌, ◌≡◌, ◌≢◌, refl, ap, ◌∙◌, true, Option, none, some, List, [],
  ◌∷◌, ◌++◌, inl, inr, arith, leb, ltb, length, take, drop, get_elem?, Bool-cases, Option-cases,
  length-append, length-take, length-drop, get_elem?-append_right, get_elem?-drop, get_elem?-lt,
  get_elem?-set_ne,
}
use dockation.Migration.PathMap.{
  VolumeMount, ContainerState, PathMapping, PathMapper, Outcome, returns, panics, Slice, remap,
  round_mapped, loop, apply_mapping, write, cut, ◌>>=◌, with_volumes,
}
use dockation.Migration.PathMap.Kept.{mapping_of, slice, round-mapping_of, get-here}

-- The slice has lost an element, and the array still ends in the mount `w` that it began with.
record Short (n : ℕ) (w : VolumeMount) (s : Slice) : Type 0 where
  shorter : s.len ≤ n
  last : get_elem? s.array n ≡ some w

-- A round panics, or leaves such a slice.
abbrev Holds : ℕ → VolumeMount → Outcome Slice → Type 0
Holds n w (returns s) = Short n w s
Holds n w panics = Unit

module _ (n : ℕ) (w : VolumeMount) where
  cut_last :
      (i : ℕ) (s : Slice)
      → s.len ≤ suc n
      → get_elem? s.array n ≡ some w
      → i + 1 ≤ s.len
      → get_elem?
          (take i s.array ++ (drop (i + 1) (take s.len s.array) ++ drop (s.len - 1) s.array))
          n
        ≡ some w
  cut_last i s fits last here =
      let inside : n < length s.array = get_elem?-lt s.array n w last in
      let a = take i s.array in
      let b = drop (i + 1) (take s.len s.array) in
      let la : length a ≡ i = length-take i s.array (omega arith) in
      let lb : length b ≡ s.len - 1 - i = omega (
        arith,
        length-drop (i + 1) (take s.len s.array),
        length-take s.len s.array (omega arith),
      ) in
      get_elem?-append_right a (b ++ drop (s.len - 1) s.array) n (omega arith)
      ∙ get_elem?-append_right b (drop (s.len - 1) s.array) (n - length a) (omega arith)
      ∙ get_elem?-drop (s.len - 1) (n - length a - length b) s.array
      ∙ ap (get_elem? s.array) (omega arith)
      ∙ last

  cut-Holds :
      (i : ℕ) (s : Slice) → s.len ≤ suc n → get_elem? s.array n ≡ some w → Holds n w (cut i s)
  unfolding cut
  cut-Holds i s fits last = elim (Bool-cases (leb (i + 1) s.len)) [
    | inl t ↦
        rw (t, cut) (record { shorter = omega arith; last = cut_last i s fits last (ground arith) })
    | inr f ↦ rw (f, cut) tt
  ]

  write-Holds :
      (i : ℕ) (v : VolumeMount) (s : Slice) → i ≢ n → Short n w s → Holds n w (write i v s)
  unfolding write
  write-Holds i v s ne short = elim (Bool-cases (ltb i s.len)) [
    | inl t ↦
        rw (t, write)
          (record {
            shorter = short.shorter;
            last = get_elem?-set_ne s.array i n v ne ∙ short.last;
          })
    | inr f ↦ rw (f, write) tt
  ]

  round_Holds :
      (i : ℕ) (v : VolumeMount) (s : Slice) (o : Option PathMapping)
      → i ≢ n
      → Short n w s
      → Holds n w (round_mapped i v s o)
  round_Holds i v s none ne short = short
  round_Holds i v s (some m) ne short = elim (Bool-cases m.skip) [
    | inl t ↦ rw t (cut-Holds i s (omega arith) short.last)
    | inr f ↦ rw f (write-Holds i (remap m v) s ne short)
  ]

  bind_panics :
      (out : Outcome Slice) (k : Slice → Outcome Slice)
      → Holds n w out
      → ((s : Slice) → Short n w s → k s ≡ panics)
      → (out >>= k) ≡ panics
  bind_panics (returns s) k h f = f s h
  bind_panics panics k h f = refl

  last_panics : (m : PathMapping) (s : Slice) → Short n w s → round_mapped n w s (some m) ≡ panics
  unfolding cut write
  last_panics m s short = ground arith

module _ (pm : PathMapper) (n : ℕ) (w : VolumeMount) (m : PathMapping)
    (has : mapping_of pm w ≡ some m) where
  loop_panics :
      (left i : ℕ) (s : Slice)
      → suc left + i ≡ suc n
      → Short n w s
      → loop pm (suc left) i s ≡ panics
  unfolding loop
  loop_panics zero i s e short =
      let at_end : i ≡ n = omega arith in
      rw (at_end, short.last, round-mapping_of pm n w s, has, last_panics n w m s short)
  loop_panics (suc left) i s e short = elim (Option-cases (get_elem? s.array i)) [
    | inl gone ↦ rw gone
    | inr (v, here) ↦
        rw (here, round-mapping_of pm i v s)
          (bind_panics n w _ _ (round_Holds n w i v s (mapping_of pm v) (omega arith) short)
            (λ s' short'. loop_panics left (i + 1) s' (omega arith) short'))
  ]

-- The loop of ApplyMapping over a container whose first mount is skipped and whose last mount has a
-- mapping: the length that the skip took off is missed at the last mount.
loop_skip_panics :
    (pm : PathMapper) (v w : VolumeMount) (vs : List VolumeMount) (m m' : PathMapping)
    → mapping_of pm v ≡ some m
    → m.skip ≡ true
    → mapping_of pm w ≡ some m'
    → let volumes = v ∷ (vs ++ w ∷ []) in
      loop pm (length volumes) 0 (slice volumes (length volumes)) ≡ panics
unfolding loop
loop_skip_panics pm v w vs m m' has skip has' =
    let n = length vs + 1 in
    let volumes = v ∷ (vs ++ w ∷ []) in
    let ln : length (vs ++ w ∷ []) ≡ suc (length vs) = omega (arith, length-append vs (w ∷ [])) in
    let last : get_elem? volumes (suc (length vs)) ≡ some w = get-here vs [] w in
    rw (ln, round-mapping_of pm 0 v _, has, skip)
      (bind_panics (suc (length vs)) w _ _
        (cut-Holds (suc (length vs)) w 0 (slice volumes (suc (suc (length vs)))) (omega arith) last)
        (λ s short. loop_panics pm (suc (length vs)) w m' has' (length vs) 1 s (omega arith) short))

-- Where the first mount of a container is skipped and the last one has a mapping, of whatever kind,
-- ApplyMapping panics, whatever the mounts between.
pub apply_mapping_skip_panics :
    (pm : PathMapper) (state : ContainerState) (v w : VolumeMount) (vs : List VolumeMount)
    (m m' : PathMapping)
    → state.volumes ≡ v ∷ (vs ++ w ∷ [])
    → mapping_of pm v ≡ some m
    → m.skip ≡ true
    → mapping_of pm w ≡ some m'
    → apply_mapping pm state ≡ panics
unfolding apply_mapping
apply_mapping_skip_panics pm state v w vs m m' e has skip has' =
    ap (λ volumes. with_volumes state (loop pm (length volumes) 0 (slice volumes (length volumes))))
      e
    ∙ ap (with_volumes state) (loop_skip_panics pm v w vs m m' has skip has')
