-- ===== src/Config.antt =====
-- config/config.go: the settings, read over the defaults and checked.
pub mod Loaded
use slo_sentinel.Prelude.{
  String, Bool, ◌&&◌, not, Option, none, some, [], arith, str_eq, if◌then◌else◌, Result, ok, err,
  ◌>>=◌, ◌>>◌, fail_if,
}
use slo_sentinel.Prelude.Int.{ℤ, pos, ltb_ℤ}
use slo_sentinel.Prelude.Dict.{Dict, lookup}

pub record Config : Type 0 where
  pub poll_interval_sec : ℤ
  pub prometheus_url : String
  pub alert_manager_url : String
  pub telegram_token : String
  pub rules_dir : String
  pub slo_defs_dir : String
  pub capacity_defs_dir : String
  pub db_path : String
  pub listen_addr : String
  pub metrics_addr : String
  pub log_format : String
  pub waste_scan_interval_sec : ℤ
  pub daily_digest_time : String
  pub predictions_retention_days : ℤ

abbrev pub defaults : Config
defaults = record {
  poll_interval_sec = pos 60;
  prometheus_url = "http://localhost:9090";
  alert_manager_url = "http://localhost:9093";
  telegram_token = "";
  rules_dir = "rules.d";
  slo_defs_dir = "slo_defs";
  capacity_defs_dir = "capacity_defs";
  db_path = "sentinel.db";
  listen_addr = "127.0.0.1:9099";
  metrics_addr = "127.0.0.1:9102";
  log_format = "json";
  waste_scan_interval_sec = pos 21600;
  daily_digest_time = "09:00";
  predictions_retention_days = pos 90;
}

-- A value of the untyped decoding: an integer, or anything else.
pub data RawValue : Type 0 where
  int_value : ℤ → RawValue
  other_value : RawValue

pub data ConfigError : Type 0 where
  read_failed not_yaml bad_poll_interval bad_log_format bad_waste_interval bad_retention :
      ConfigError

-- What reading the file gives; the decodings of its text are the YAML library's, and one or both
-- may fail.
pub data Reply : Type 0 where
  absent : Reply
  unreadable : Reply
  content : Option (Dict RawValue) → Option Config → Reply

unfoldable pub is_positive : ℤ → Bool
is_positive n = ltb_ℤ (pos 0) n

unfoldable pub is_negative : ℤ → Bool
is_negative n = ltb_ℤ n (pos 0)

unfoldable pub set_str : String → String → String
set_str base over = if str_eq over "" then base else over

unfoldable pub set_positive : ℤ → ℤ → ℤ
set_positive base over = if is_positive over then over else base

unfoldable pub apply : Config → Config → Config
apply base over = record {
  poll_interval_sec = set_positive base.poll_interval_sec over.poll_interval_sec;
  prometheus_url = set_str base.prometheus_url over.prometheus_url;
  alert_manager_url = set_str base.alert_manager_url over.alert_manager_url;
  telegram_token = set_str base.telegram_token over.telegram_token;
  rules_dir = set_str base.rules_dir over.rules_dir;
  slo_defs_dir = set_str base.slo_defs_dir over.slo_defs_dir;
  capacity_defs_dir = set_str base.capacity_defs_dir over.capacity_defs_dir;
  db_path = set_str base.db_path over.db_path;
  listen_addr = set_str base.listen_addr over.listen_addr;
  metrics_addr = set_str base.metrics_addr over.metrics_addr;
  log_format = set_str base.log_format over.log_format;
  waste_scan_interval_sec = set_positive base.waste_scan_interval_sec over.waste_scan_interval_sec;
  daily_digest_time = set_str base.daily_digest_time over.daily_digest_time;
  predictions_retention_days =
      set_positive base.predictions_retention_days over.predictions_retention_days;
}

abbrev pub to_int : RawValue → Option ℤ
to_int (int_value n) = some n
to_int other_value = none

abbrev pub not_negative_or : ℤ → Option ℤ → ℤ
not_negative_or base none = base
not_negative_or base (some n) = if is_negative n then base else n

-- A key that is there gives its value where that is an integer and not negative.
abbrev pub raw_or : ℤ → Option RawValue → ℤ
raw_or base none = base
raw_or base (some v) = not_negative_or base (to_int v)

-- The retention is only looked at where the other key is there: the code returns early.
abbrev pub override_present : Option RawValue → Option RawValue → Config → Config
override_present none retention cfg = cfg
override_present (some v) retention cfg = record cfg {
  waste_scan_interval_sec = raw_or cfg.waste_scan_interval_sec (some v);
  predictions_retention_days = raw_or cfg.predictions_retention_days retention;
}

unfoldable pub override_waste_interval : Dict RawValue → Config → Config
override_waste_interval raw cfg =
    override_present (lookup "waste_scan_interval_sec" raw)
      (lookup "predictions_retention_days" raw) cfg

unfoldable pub validate : Config → Result ConfigError (Unit {0})
validate c =
    fail_if (not (is_positive c.poll_interval_sec)) bad_poll_interval
    >> fail_if (not (str_eq c.log_format "json") && not (str_eq c.log_format "text")) bad_log_format
    >> fail_if (is_negative c.waste_scan_interval_sec) bad_waste_interval
    >> fail_if (is_negative c.predictions_retention_days) bad_retention

abbrev pub checked : Config → Result ConfigError Config
checked c = validate c >>= λ u. ok c

abbrev pub load_reply : Reply → Result ConfigError Config
load_reply absent = ok defaults
load_reply unreadable = err read_failed
load_reply (content none over) = err not_yaml
load_reply (content (some raw) none) = err not_yaml
load_reply (content (some raw) (some over)) =
    checked (override_waste_interval raw (apply defaults over))

-- `Load`: `files` is what reading a path gives.
unfoldable pub load : (String → Reply) → String → Result ConfigError Config
load files path = if str_eq path "" then ok defaults else load_reply (files path)
