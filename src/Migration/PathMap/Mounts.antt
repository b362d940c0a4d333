-- ===== src/Migration/PathMap/Mounts.antt =====
-- internal/migration/pathmap.go, DetectBindMounts: exactly the bind mounts of the containers.
use mathlib.Core.List.{Memᴰ}
use dockation.Prelude.{String, ◌≡◌, refl, true, List, [], ◌∷◌, ◌++◌, ◌⊎◌, inl, inr, ◌↔◌, Bool-cases}
use dockation.Migration.PathMap.{
  VolumeMount, ContainerState, BindMount, is_bind, bind_mounts_of, detect_bind_mounts,
}

-- How a bind mount is reported: the container's name, and the volume's two paths and mode.
abbrev pub mount_of : String → VolumeMount → BindMount
mount_of name volume = record {
  container_id = "";
  container_name = name;
  source_path = volume.source;
  target_path = volume.destination;
  read_only = volume.read_only;
}

in_left : (a : BindMount) (xs ys : List BindMount) → Memᴰ a xs → Memᴰ a (xs ++ ys)
in_left a [] ys h = elim h [ ]
in_left a (x ∷ xs) ys (Memᴰ.head e) = Memᴰ.head e
in_left a (x ∷ xs) ys (Memᴰ.tail h) = Memᴰ.tail (in_left a xs ys h)

in_right : (a : BindMount) (xs ys : List BindMount) → Memᴰ a ys → Memᴰ a (xs ++ ys)
in_right a [] ys h = h
in_right a (x ∷ xs) ys h = Memᴰ.tail (in_right a xs ys h)

in_append : (a : BindMount) (xs ys : List BindMount) → Memᴰ a (xs ++ ys) → Memᴰ a xs ⊎ Memᴰ a ys
in_append a [] ys h = inr h
in_append a (x ∷ xs) ys (Memᴰ.head e) = inl (Memᴰ.head e)
in_append a (x ∷ xs) ys (Memᴰ.tail h) = elim (in_append a xs ys h) [
  | inl k ↦ inl (Memᴰ.tail k)
  | inr k ↦ inr k
]

abbrev Mounted : String → List VolumeMount → BindMount → Type 0
Mounted name vs b = (v : VolumeMount) × Memᴰ v vs × (is_bind v ≡ true) × (b ≡ mount_of name v)

later :
    (name : String) (v : VolumeMount) (vs : List VolumeMount) (b : BindMount)
    → Mounted name vs b
    → Mounted name (v ∷ vs) b
later name v vs b (u, m, t, e) = (u, Memᴰ.tail m, t, e)

first :
    (name : String) (v : VolumeMount) (vs : List VolumeMount) (b : BindMount)
    → is_bind v ≡ true
    → (Memᴰ b (bind_mounts_of name vs) → Mounted name vs b)
    → Memᴰ b (mount_of name v ∷ bind_mounts_of name vs)
    → Mounted name (v ∷ vs) b
first name v vs b t ih (Memᴰ.head e) = (v, Memᴰ.head refl, t, e)
first name v vs b t ih (Memᴰ.tail h) = later name v vs b (ih h)

found :
    (name : String) (vs : List VolumeMount) (b : BindMount)
    → Memᴰ b (bind_mounts_of name vs)
    → Mounted name vs b
unfolding bind_mounts_of
found name [] b h = elim h [ ]
found name (v ∷ vs) b h = elim (Bool-cases (is_bind v)) [
  | inl t ↦ first name v vs b t (found name vs b) (rw t at h)
  | inr f ↦ later name v vs b (found name vs b (rw f at h))
]

reported :
    (name : String) (vs : List VolumeMount) (v : VolumeMount)
    → Memᴰ v vs
    → is_bind v ≡ true
    → Memᴰ (mount_of name v) (bind_mounts_of name vs)
unfolding bind_mounts_of
reported name [] v h t = elim h [ ]
reported name (u ∷ vs) v (Memᴰ.head e) t = rw (← e, t) (Memᴰ.head refl)
reported name (u ∷ vs) v (Memᴰ.tail h) t = elim (Bool-cases (is_bind u)) [
  | inl b ↦ rw b (Memᴰ.tail (reported name vs v h t))
  | inr b ↦ rw b (reported name vs v h t)
]

abbrev pub IsMountOf : List ContainerState → BindMount → Type 0
IsMountOf cs b =
    (c : ContainerState) × (v : VolumeMount) × Memᴰ c cs
    × Memᴰ v c.volumes
    × (is_bind v ≡ true)
    × (b ≡ mount_of c.name v)

detected :
    (cs : List ContainerState) (b : BindMount) → Memᴰ b (detect_bind_mounts cs) → IsMountOf cs b
unfolding detect_bind_mounts
detected [] b h = elim h [ ]
detected (c ∷ cs) b h =
    elim (in_append b (bind_mounts_of c.name c.volumes) (detect_bind_mounts cs) h) [
      | inl k ↦ let (v, m, t, e) = found c.name c.volumes b k in (c, v, Memᴰ.head refl, m, t, e)
      | inr k ↦ let (d, v, i, m, t, e) = detected cs b k in (d, v, Memᴰ.tail i, m, t, e)
    ]

all_detected :
    (cs : List ContainerState) (c : ContainerState) (v : VolumeMount)
    → Memᴰ c cs
    → Memᴰ v c.volumes
    → is_bind v ≡ true
    → Memᴰ (mount_of c.name v) (detect_bind_mounts cs)
unfolding detect_bind_mounts
all_detected [] c v h m t = elim h [ ]
all_detected (d ∷ cs) c v (Memᴰ.head e) m t =
    in_left _ (bind_mounts_of d.name d.volumes) (detect_bind_mounts cs)
      (rw (← e) (reported c.name c.volumes v m t))
all_detected (d ∷ cs) c v (Memᴰ.tail h) m t =
    in_right _ (bind_mounts_of d.name d.volumes) _ (all_detected cs c v h m t)

-- DetectBindMounts reports exactly the volumes of type bind of the given containers, each with its
-- container's name and its own two paths and mode, and with an empty container ID.
pub detect_bind_mounts_iff :
    (cs : List ContainerState) (b : BindMount) → Memᴰ b (detect_bind_mounts cs) ↔ IsMountOf cs b
detect_bind_mounts_iff cs b =
    (detected cs b, λ m. let (c, v, i, j, t, e) = m in rw e (all_detected cs c v i j t))
