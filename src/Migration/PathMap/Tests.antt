-- ===== src/Migration/PathMap/Tests.antt =====
-- internal/migration/pathmap.go: the theorems at a concrete container.
use dockation.Prelude.{String, ◌≡◌, refl, true, false, List, [], ◌∷◌, map}
use dockation.Prelude.Dict.{lookup}
use dockation.Migration.PathMap.{
  VolumeMount, ContainerState, PathMapping, BindMount, PathMapper, returns, panics, apply_mapping,
}
use dockation.Migration.PathMap.Kept.{translate, apply_mapping_kept}
use dockation.Migration.PathMap.Skipped.{apply_mapping_skip_panics}

abbrev bind : String → VolumeMount
bind path = record { source = path; destination = "/data"; read_only = false; mount_type = "bind" }

abbrev container : List VolumeMount → ContainerState
container volumes = record {
  name = "web";
  image = "nginx";
  image_id = "sha256:1";
  command = [];
  entrypoint = [];
  env = [];
  labels = [];
  volumes = volumes;
  networks = [];
  ports = [];
  restart_policy = record { name = "always"; maximum_retry_count = 0 };
  resources = record { cpu_shares = 0; memory = 0; memory_swap = 0; cpu_period = 0; cpu_quota = 0 };
  working_dir = "";
  user = "";
  hostname = "web";
}

abbrev renamed : PathMapping
renamed = record {
  source_path = "/srv";
  target_path = "/mnt/srv";
  convert_to_volume = false;
  volume_name = "";
  skip = false;
}

abbrev dropped : PathMapping
dropped = record {
  source_path = "/tmp";
  target_path = "";
  convert_to_volume = false;
  volume_name = "";
  skip = true;
}

abbrev mapper : PathMapper
mapper = record { mappings = ("/srv", renamed) ∷ ("/tmp", dropped) ∷ [] }

apply_mapping_kept_example :
    apply_mapping mapper (container (bind "/srv" ∷ bind "/opt" ∷ []))
    ≡ returns (record (container (bind "/srv" ∷ bind "/opt" ∷ [])) {
      volumes = map (translate mapper) (bind "/srv" ∷ bind "/opt" ∷ []);
    })
unfolding lookup
apply_mapping_kept_example =
    apply_mapping_kept mapper (container (bind "/srv" ∷ bind "/opt" ∷ [])) (refl, (refl, tt))

apply_mapping_skip_panics_example :
    apply_mapping mapper (container (bind "/tmp" ∷ bind "/opt" ∷ bind "/srv" ∷ [])) ≡ panics
unfolding lookup
apply_mapping_skip_panics_example =
    apply_mapping_skip_panics mapper (container (bind "/tmp" ∷ bind "/opt" ∷ bind "/srv" ∷ []))
      (bind "/tmp") (bind "/srv") (bind "/opt" ∷ []) dropped renamed refl refl refl refl

abbrev mount : String → BindMount
mount path = record {
  container_id = "";
  container_name = "web";
  source_path = path;
  target_path = "/data";
  read_only = false;
}
