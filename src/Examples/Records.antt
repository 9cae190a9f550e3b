-- ===== src/Examples/Records.antt =====
-- Runs of internal/store, config and internal/spec.
use slo_sentinel.Prelude.{
  ℕ, ◌+◌, ◌*◌, String, ◌≡◌, refl, true, false, none, some, [], ◌∷◌, arith, ok,
}
use slo_sentinel.Prelude.Int.{ℤ, pos}
use slo_sentinel.Prelude.Dict.{Dict, lookup}
use slo_sentinel.Config.{Config, defaults, RawValue, int_value, Reply, content, load, is_positive}
use slo_sentinel.Config.Loaded.{IsValid, load-IsValid}
use slo_sentinel.Store.Stamp.{stamp_less}
use slo_sentinel.Store.Stamp.Order.{stamp_less_whole}
use slo_sentinel.Store.Migrations.{Database, migrate, AllDone, Replies, created, migrate_idem}
use slo_sentinel.Store.Predictions.{
  Prediction, Table, prune_predictions, list_predictions, count_predictions, prune_predictions_lem,
}
use slo_sentinel.Store.WasteRows.{WasteEntry}

-- A file that asks for a retention of 0 days and a poll every 30 seconds.
abbrev raw_file : Dict RawValue
raw_file =
    ("poll_interval_sec", int_value (pos 30))
    ∷ ("predictions_retention_days", int_value (pos 0))
    ∷ []

abbrev over_file : Config
over_file = record {
  poll_interval_sec = pos 30;
  prometheus_url = "";
  alert_manager_url = "";
  telegram_token = "";
  rules_dir = "";
  slo_defs_dir = "";
  capacity_defs_dir = "";
  db_path = "";
  listen_addr = "";
  metrics_addr = "";
  log_format = "";
  waste_scan_interval_sec = pos 0;
  daily_digest_time = "";
  predictions_retention_days = pos 0;
}

abbrev files : String → Reply
files path = content (some raw_file) (some over_file)

abbrev loaded : Config
loaded = record defaults { poll_interval_sec = pos 30 }

load_files : load files "config.yaml" ≡ ok loaded
unfolding load slo_sentinel.Config.validate is_positive slo_sentinel.Config.override_waste_interval
    lookup slo_sentinel.Config.apply slo_sentinel.Config.set_positive slo_sentinel.Config.set_str
    slo_sentinel.Config.is_negative
load_files = refl

load-IsValid_example : IsValid loaded
load-IsValid_example = load-IsValid files "config.yaml" loaded load_files

stamp_less_whole_example :
    (stamp_less (pos (1700000000 * 1000000000 + 500000000)) (pos (1700000000 * 1000000000)) ≡ true)
    × (stamp_less (pos (1700000000 * 1000000000)) (pos (1700000000 * 1000000000 + 500000000))
        ≡ false)
stamp_less_whole_example = stamp_less_whole 1700000000 500000000 (omega arith) (omega arith)

-- The first migration was done by an earlier run.
abbrev started : Database
started = record { versions = 1 ∷ []; log = 1 ∷ [] }

abbrev all_works : Replies
all_works = record {
  creates = true;
  answers = λ n. true;
  executes = λ n. true;
  records = λ n. true;
}

-- A database that only answers.
abbrev read_only : Replies
read_only = record {
  creates = true;
  answers = λ n. true;
  executes = λ n. false;
  records = λ n. false;
}

migrated : (migrate all_works 2 started).0 ≡ ok tt
unfolding migrate slo_sentinel.Store.Migrations.migrate_from
migrated = refl

migrate_idem_example :
    AllDone 1 2 (migrate all_works 2 started).1.versions
    × (migrate read_only 2 (migrate all_works 2 started).1
        ≡ (ok tt, created (migrate all_works 2 started).1))
migrate_idem_example = migrate_idem all_works read_only 2 started migrated refl (refl, (refl, tt))

abbrev row : ℕ → ℤ → Prediction ℤ
row id at = record {
  id = id;
  sensor_id = "disk";
  predicted_at = at;
  eta_aggressive = none;
  eta_conservative = none;
  actual_value = pos 0;
  catalog_version = "";
  ceiling = none;
  utilization = none;
}

abbrev two_rows : Table ℤ
two_rows = record { rows = row 1 (pos 1000000000) ∷ row 2 (pos 5000000000) ∷ []; next_id = 3 }

abbrev one_row : Table ℤ
one_row = record { rows = row 2 (pos 5000000000) ∷ []; next_id = 3 }

prune_predictions_lem_example :
    (list_predictions "disk" (pos 3000000000) one_row
      ≡ list_predictions "disk" (pos 3000000000) two_rows)
    × (count_predictions one_row + 1 ≡ count_predictions two_rows)
unfolding prune_predictions slo_sentinel.Store.Predictions.keep_rows stamp_less
    slo_sentinel.Prelude.Text.text_less
prune_predictions_lem_example =
    prune_predictions_lem (pos 3000000000) (pos 3000000000) "disk" two_rows one_row 1 refl refl

abbrev idle : WasteEntry ℤ
idle = record {
  sensor_id = "idle";
  resource_id = "i-1";
  reason = "";
  state = "notified";
  first_seen = none;
  last_notified = pos 0;
  renotify = pos 1500000000;
  waste_usd_per_day = pos 0;
  total_waste_usd = pos 0;
  dismiss_reason = "";
  dismiss_until = none;
}
