-- ===== src/Daemon/Setup/Switch.antt =====
-- A reload that fails keeps the sensors that were there.
use slo_sentinel.Prelude.Dict.{Dict}
use slo_sentinel.Prelude.Float.{Float}
