-- ===== src/Pricing/Cache.antt =====
-- internal/pricing/cache.go: quotes on disk. The hash of a key, the JSON of a quote and what the disk
-- does are parameters; a file that does not decode to an envelope is none.
use slo_sentinel.Prelude.{
  ℕ, String, Bool, Option, none, some, List, [], ◌∷◌, ◌++◌, str_eq, if◌then◌else◌,
}
use slo_sentinel.Prelude.Int.{ℤ, ltb_ℤ, ◌-ℤ◌}
use slo_sentinel.Prelude.Dict.{Dict, lookup, update}
use slo_sentinel.Prelude.Text.{codes}
use slo_sentinel.Pricing.Types.{Attrs, attr}
use slo_sentinel.Pricing.Rates.{sort_strings, keys}

-- `cacheEnvelope`; a payload is raw JSON.
pub record Envelope (Raw : Type 0) : Type 0 where
  pub stored_at : ℤ
  pub payload : Raw

-- A `FileCache` with what lies in its directory: `none` for a file that does not decode.
pub record FileCache (Raw : Type 0) : Type 0 where
  pub dir : String
  pub files : Dict (Option (Envelope Raw))

-- `LoadResult` with `OK` set.
pub record Hit (Raw : Type 0) : Type 0 where
  pub payload : Raw
  pub fresh : Bool

abbrev pub opened {ℓ} : {A : Type ℓ} → Option (Option A) → Option A
opened none = none
opened (some a) = a

abbrev pub as_hit : {Raw : Type 0} → ℤ → ℤ → Option (Envelope Raw) → Option (Hit Raw)
as_hit now ttl none = none
as_hit now ttl (some e) =
    some (record { payload = e.payload; fresh = ltb_ℤ (now -ℤ e.stored_at) ttl })

-- What the disk does with a write. `os.WriteFile` opens and empties the file before it writes, so one
-- that fails leaves the file as it was where it cannot be opened, and else with a part of the text,
-- which does not decode.
pub data Disk : Type 0 where
  writes : Disk
  refuses : Disk
  tears : Disk

abbrev pub on_disk : {Raw : Type 0} → Disk → String → Envelope Raw → FileCache Raw → FileCache Raw
on_disk writes name e c = record c { files = update name (some e) c.files }
on_disk refuses name e c = c
on_disk tears name e c = record c { files = update name none c.files }

module _ {Raw : Type 0} (hash : List ℕ → String) where
  -- `Store` at the time `now`; the caller drops its error.
  unfoldable pub store : ℤ → Disk → List ℕ → Raw → FileCache Raw → FileCache Raw
  store now disk key payload c =
      if str_eq c.dir ""
      then c
      else on_disk disk (hash key) (record { stored_at = now; payload = payload }) c

  abbrev pub envelope_at : List ℕ → FileCache Raw → Option (Envelope Raw)
  envelope_at key c = opened (lookup (hash key) c.files)

  -- `Load`: `none` where `OK` is not set.
  unfoldable pub load : ℤ → ℤ → List ℕ → FileCache Raw → Option (Hit Raw)
  load now ttl key c = if str_eq c.dir "" then none else as_hit now ttl (envelope_at key c)

pub key_parts : Attrs → List String → List ℕ
key_parts attrs [] = []
key_parts attrs (k ∷ ks) = b'|' ∷ (codes k ++ b'=' ∷ (codes (attr k attrs) ++ key_parts attrs ks))

-- `CacheKey`.
pub cache_key : String → Attrs → List ℕ
cache_key family attrs = codes family ++ key_parts attrs (sort_strings (keys attrs))
