-- ===== src/Peer/Transfer/ChunkSize.antt =====
-- internal/peer/transfer.go, DynamicChunkSize.
use dockation.Prelude.{
  ℕ, ◌+◌, ◌-◌, ◌*◌, ◌/◌, ◌≤◌, ◌<◌, ◌≡◌, refl, true, List, [], ◌∷◌, ◌⊎◌, inl, inr, arith, ltb,
  if◌then◌else◌, length, drop, Bool-cases,
}
use dockation.Peer.Chunks.{min_chunk_size, default_chunk_size, max_chunk_size}
use dockation.Peer.Transfer.{
  Transfer, Checkpoint, second, stable_chunk_count, is_stable, dynamic_chunk_size,
}

-- Each checkpoint follows the one before within two seconds.
abbrev pub IsSteady : List Checkpoint → Type 0
IsSteady [] = Unit
IsSteady (a ∷ []) = Unit
IsSteady (a ∷ b ∷ cs) = (b.timestamp ≤ a.timestamp + 2 * second) × IsSteady (b ∷ cs)

steady : (cs : List Checkpoint) → is_stable cs ≡ true → IsSteady cs
unfolding is_stable
steady [] h = tt
steady (a ∷ []) h = tt
steady (a ∷ b ∷ cs) h = ground (arith, steady (b ∷ cs))

stable : (cs : List Checkpoint) → IsSteady cs → is_stable cs ≡ true
unfolding is_stable
stable [] h = refl
stable (a ∷ []) h = refl
stable (a ∷ b ∷ cs) h = ground (arith, stable (b ∷ cs) h.1)

-- The last ten checkpoints, or all of them where there are fewer.
abbrev pub recent : Transfer → List Checkpoint
recent t =
    if ltb stable_chunk_count (length t.checkpoints)
    then drop (length t.checkpoints - stable_chunk_count) t.checkpoints
    else t.checkpoints

abbrev pub WithinLimits : ℕ → Type 0
WithinLimits n = (min_chunk_size ≤ n) × (n ≤ max_chunk_size)

-- With fewer than ten checkpoints the size is the default. From then on it is doubled, and capped by
-- the upper limit, where each recent checkpoint follows the one before within two seconds, and
-- halved, but not under the lower limit, where some does not; the size lies within the limits.
pub dynamic_chunk_size_lem :
    (t : Transfer)
    → WithinLimits t.chunk_size
    → (length t.checkpoints < stable_chunk_count → dynamic_chunk_size t ≡ default_chunk_size)
      × (stable_chunk_count ≤ length t.checkpoints
          → IsSteady (recent t)
          → (dynamic_chunk_size t ≡ t.chunk_size * 2)
            ⊎ ((dynamic_chunk_size t ≡ max_chunk_size) × (max_chunk_size ≤ t.chunk_size * 2)))
      × (stable_chunk_count ≤ length t.checkpoints
          → ¬ IsSteady (recent t)
          → (dynamic_chunk_size t ≡ t.chunk_size / 2)
            ⊎ ((dynamic_chunk_size t ≡ min_chunk_size) × (t.chunk_size / 2 ≤ min_chunk_size)))
unfolding dynamic_chunk_size
dynamic_chunk_size_lem t w = (
  (λ h. ground arith),
  (λ h s. ground (arith, stable (recent t) s)),
  (λ h s. elim (Bool-cases (is_stable (recent t))) [
    | inl y ↦ absurd (s (steady (recent t) y))
    | inr n ↦ ground arith
  ]),
)
