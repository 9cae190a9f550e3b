-- ===== src/Examples/Reviewed.antt =====
-- Runs of cmd/sentinel-gen/validate.go.
use slo_sentinel.Prelude.{◌≡◌, refl, ◌↔◌, true, none, [], ◌∷◌, ok, err}
use slo_sentinel.Prelude.Int.{ℤ}
use slo_sentinel.Prelude.Float.{fixed}
use slo_sentinel.Files.{FileSystem, plain_file}
use slo_sentinel.Capacity.Defs.{Def, load_defs}
use slo_sentinel.Generator.{Copy, detect_kind, static_validate, contains}
use slo_sentinel.Generator.Reviews.{IsAccepted, static_validate-capacity}

abbrev disk_files : FileSystem
disk_files = record {
  stat = λ p. plain_file;
  read_dir = λ p. ok [];
  read_file = λ p. ok "";
  ext = λ p. ".yaml";
  join = λ a b. b;
}

abbrev disk : Def ℤ
disk = record {
  id = "disk";
  desc = "";
  metric_value = "used";
  metric_ceiling = "size";
  horizons = [];
  thresholds = none;
  service = "";
  scope = "";
  cluster = "";
}

abbrev no_copy : Copy
no_copy = err "no directory"

-- A file with one sensor, which the review takes for one of capacity.
detected : detect_kind "version: 1\nsensors:\n" ≡ "capacity"
unfolding detect_kind contains slo_sentinel.Promdur.trim_space slo_sentinel.Promdur.drop_spaces
detected = refl

load_disk : load_defs disk_files (λ t. ok (disk ∷ [])) "disk.yaml" ≡ ok (disk ∷ [])
unfolding load_defs slo_sentinel.Capacity.Defs.check_def slo_sentinel.Files.load
    slo_sentinel.Files.definition_paths slo_sentinel.Files.load_files slo_sentinel.Files.check_items
load_disk = refl

static_validate-capacity_example :
    (static_validate ⦃fl = fixed⦄
        (λ t. true)
        disk_files
        (λ t. ok (disk ∷ []))
        (λ t. ok [])
        no_copy
        "disk.yaml"
        "capacity"
      ≡ ok [])
    ↔ IsAccepted ⦃fl = fixed⦄ (load_defs disk_files (λ t. ok (disk ∷ [])) "disk.yaml")
static_validate-capacity_example =
    static_validate-capacity ⦃fl = fixed⦄ (λ t. true) disk_files (λ t. ok (disk ∷ [])) (λ t. ok [])
      no_copy "disk.yaml"
