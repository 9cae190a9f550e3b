-- ===== src/Pricing/Catalog/Refines.antt =====
-- `Quote` refines the abstract cache, over any history of requests.
use slo_sentinel.Prelude.Float.{Float}
