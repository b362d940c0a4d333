-- ===== src/Migration/PathMap.antt =====
-- internal/migration/pathmap.go, and the container configuration of internal/migration/container.go.
-- ApplyMapping ranges over a slice while it cuts elements out of that slice in place. So the loop
-- works on the backing array and the slice's current length: the range reads the array up to the
-- first length, writes and cuts are checked against the current one, and a failed check is a panic.
pub mod Kept
pub mod Skipped
pub mod Names
pub mod Mounts
mod Tests
use Prim.Native.Char.{code}
use Prim.Native.String.{◌++◌ as str_append}
use dockation.Prelude.{
  ℕ, zero, suc, ◌+◌, ◌-◌, String, Bool, true, false, Option, none, some, List, [], ◌∷◌, ◌++◌, leb,
  ltb, ◌==◌, str_eq, if◌then◌else◌, length, take, drop, get_elem?, set,
}
use dockation.Prelude.Dict.{Dict, lookup, insert}

pub record VolumeMount : Type 0 where
  pub source : String
  pub destination : String
  pub read_only : Bool
  pub mount_type : String

pub record NetworkAttach : Type 0 where
  pub name : String
  pub aliases : List String
  pub ip_addr : String

pub record PortMapping : Type 0 where
  pub container_port : ℕ
  pub host_port : ℕ
  pub protocol : String
  pub host_ip : String

pub record RestartPolicy : Type 0 where
  pub name : String
  pub maximum_retry_count : ℕ

pub record ResourceLimits : Type 0 where
  pub cpu_shares : ℕ
  pub memory : ℕ
  pub memory_swap : ℕ
  pub cpu_period : ℕ
  pub cpu_quota : ℕ

pub record ContainerState : Type 0 where
  pub name : String
  pub image : String
  pub image_id : String
  pub command : List String
  pub entrypoint : List String
  pub env : List String
  pub labels : Dict String
  pub volumes : List VolumeMount
  pub networks : List NetworkAttach
  pub ports : List PortMapping
  pub restart_policy : RestartPolicy
  pub resources : ResourceLimits
  pub working_dir : String
  pub user : String
  pub hostname : String

pub record PathMapping : Type 0 where
  pub source_path : String
  pub target_path : String
  pub convert_to_volume : Bool
  pub volume_name : String
  pub skip : Bool

pub record BindMount : Type 0 where
  pub container_id : String
  pub container_name : String
  pub source_path : String
  pub target_path : String
  pub read_only : Bool

pub record PathMapper : Type 0 where
  pub mappings : Dict PathMapping

unfoldable pub new_path_mapper : PathMapper
new_path_mapper = record { mappings = [] }

unfoldable pub add_mapping : PathMapper → PathMapping → PathMapper
add_mapping pm mapping = record pm { mappings = insert mapping.source_path mapping pm.mappings }

unfoldable pub get_mapping : PathMapper → String → Option PathMapping
get_mapping pm path = lookup path pm.mappings

abbrev pub is_bind : VolumeMount → Bool
is_bind volume = str_eq volume.mount_type "bind"

-- The inner loop of DetectBindMounts, over the volumes of one container; the code leaves the
-- container's ID empty.
unfoldable pub bind_mounts_of : String → List VolumeMount → List BindMount
bind_mounts_of name [] = []
bind_mounts_of name (volume ∷ volumes) =
    let mount : BindMount = record {
      container_id = "";
      container_name = name;
      source_path = volume.source;
      target_path = volume.destination;
      read_only = volume.read_only;
    } in
    if is_bind volume then mount ∷ bind_mounts_of name volumes else bind_mounts_of name volumes

unfoldable pub detect_bind_mounts : List ContainerState → List BindMount
detect_bind_mounts [] = []
detect_bind_mounts (container ∷ containers) =
    bind_mounts_of container.name container.volumes ++ detect_bind_mounts containers

pub data Outcome {ℓ} (A : Type ℓ) : Type ℓ where
  returns : A → Outcome A
  panics : Outcome A

-- The backing array and the length of `modified.Volumes`.
pub record Slice : Type 0 where
  pub array : List VolumeMount
  pub len : ℕ

-- append(s[:i], s[i+1:]...), in place: the elements after `i` move down by one, and what stood at
-- the old end stays in the array behind the new length.
unfoldable pub cut : ℕ → Slice → Outcome Slice
cut i s =
    if leb (i + 1) s.len
    then returns (record {
      array = take i s.array ++ (drop (i + 1) (take s.len s.array) ++ drop (s.len - 1) s.array);
      len = s.len - 1;
    })
    else panics

-- s[i] = change(s[i])
unfoldable pub write : ℕ → VolumeMount → Slice → Outcome Slice
write i volume s =
    if ltb i s.len then returns (record s { array = set s.array i volume }) else panics

-- What the mapping makes of a mount that it does not skip.
abbrev pub remap : PathMapping → VolumeMount → VolumeMount
remap mapping volume =
    if mapping.convert_to_volume
    then record volume { mount_type = "volume"; source = mapping.volume_name }
    else record volume { source = mapping.target_path }

abbrev pub round_mapped : ℕ → VolumeMount → Slice → Option PathMapping → Outcome Slice
round_mapped i volume s none = returns s
round_mapped i volume s (some mapping) =
    if mapping.skip then cut i s else write i (remap mapping volume) s

-- One round of the loop, with the volume that the range has read.
unfoldable pub round : PathMapper → ℕ → VolumeMount → Slice → Outcome Slice
unfolding cut write
round pm i volume s =
    if is_bind volume then round_mapped i volume s (lookup volume.source pm.mappings) else returns s

abbrev read_then : Option VolumeMount → (VolumeMount → Outcome Slice) → Outcome Slice
read_then none f = panics
read_then (some volume) f = f volume

infixl 5 ◌>>=◌
abbrev pub ◌>>=◌ : Outcome Slice → (Slice → Outcome Slice) → Outcome Slice
returns s >>= f = f s
panics >>= f = panics

-- The loop of ApplyMapping with `left` rounds to go, at index `i`.
unfoldable pub loop : PathMapper → ℕ → ℕ → Slice → Outcome Slice
loop pm zero i s = returns s
loop pm (suc left) i s = do
  s' ← read_then (get_elem? s.array i) (λ volume. round pm i volume s)
  loop pm left (i + 1) s'

abbrev pub with_volumes : ContainerState → Outcome Slice → Outcome ContainerState
with_volumes state (returns s) = returns (record state { volumes = take s.len s.array })
with_volumes state panics = panics

unfoldable pub apply_mapping : PathMapper → ContainerState → Outcome ContainerState
unfolding loop
apply_mapping pm state =
    let n = length state.volumes in
    with_volumes state (loop pm n 0 (record { array = state.volumes; len = n }))

-- sanitizePath: one leading slash is dropped.
unfoldable pub sanitize_path : String → String
sanitize_path String.[] = String.[]
sanitize_path (String.◌∷◌ c path) = if code c == b'/' then path else String.◌∷◌ c path

unfoldable pub convert_to_volume : BindMount → String
convert_to_volume mount = str_append "migrated-" (sanitize_path mount.source_path)
