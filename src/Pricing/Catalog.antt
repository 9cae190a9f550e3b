-- ===== src/Pricing/Catalog.antt =====
-- internal/pricing/catalog.go: a quote from the cache, from its provider, or from an old file.
pub mod Abstract
pub mod Refines
use slo_sentinel.Prelude.{ℕ, String, true, Option, none, some, List, if◌then◌else◌, Result, ok, err}
use slo_sentinel.Prelude.Int.{ℤ, pos, ltb_ℤ}
use slo_sentinel.Prelude.Float.{Float}
use slo_sentinel.Pricing.Types.{Attrs, Quote, QuoteError}
use slo_sentinel.Pricing.Skus.{AlicloudSku}
use slo_sentinel.Pricing.Cache.{Disk, FileCache, Hit, store, load, cache_key}
use slo_sentinel.Pricing.Providers.{Providers, resolve}

-- `Catalog`, without its clients but for `ali`, `none` where that is nil.
pub record Catalog : Type 0 where
  pub ttl : ℤ
  pub cache_dir : String
  pub ali : Option AlicloudSku

module _ ⦃fl : Float⦄ where
  open fl use {F}

  abbrev pub day : ℤ
  day = pos 86400000000000

  abbrev pub ttl_or_day : ℤ → ℤ
  ttl_or_day ttl = if ltb_ℤ (pos 0) ttl then ttl else day

  abbrev pub as_stale : QuoteError → Option (Quote F) → Result QuoteError (Quote F)
  as_stale e none = err e
  as_stale e (some q) = ok (record q { stale = true })

  module _ {Raw : Type 0} (hash : List ℕ → String) (decode : Raw → Option (Quote F))
      (encode : Quote F → Option Raw) where
    -- A fresh file that decodes.
    abbrev pub fresh_quote : Option (Hit Raw) → Option (Quote F)
    fresh_quote none = none
    fresh_quote (some h) = if h.fresh then decode h.payload else none

    -- Any file that decodes, marked as old.
    abbrev pub stale_quote : QuoteError → Option (Hit Raw) → Result QuoteError (Quote F)
    stale_quote e none = err e
    stale_quote e (some h) = as_stale e (decode h.payload)

    abbrev pub keep : ℤ → Disk → List ℕ → Option Raw → FileCache Raw → FileCache Raw
    keep later disk key none c = c
    keep later disk key (some raw) c = store hash later disk key raw c

    -- What `Quote` does where no fresh file serves it.
    abbrev pub quote_resolved :
        ℤ
        → ℤ
        → ℤ
        → Disk
        → List ℕ
        → Result QuoteError (Quote F)
        → FileCache Raw
        → FileCache Raw × Result QuoteError (Quote F)
    quote_resolved now later ttl disk key (err e) c = (c, stale_quote e (load hash now ttl key c))
    quote_resolved now later ttl disk key (ok q) c = (keep later disk key (encode q) c, ok q)

    abbrev pub quote_or_resolve :
        ℤ
        → ℤ
        → ℤ
        → Disk
        → List ℕ
        → Result QuoteError (Quote F)
        → FileCache Raw
        → Option (Quote F)
        → FileCache Raw × Result QuoteError (Quote F)
    quote_or_resolve now later ttl disk key resolved c (some q) = (c, ok q)
    quote_or_resolve now later ttl disk key resolved c none =
        quote_resolved now later ttl disk key resolved c

    -- `Quote`, asked at the time `now` and answered by the provider at `later`.
    pub quote :
        ℤ
        → ℤ
        → ℤ
        → Disk
        → List ℕ
        → Result QuoteError (Quote F)
        → FileCache Raw
        → FileCache Raw × Result QuoteError (Quote F)
    quote ttl now later disk key resolved c =
        quote_or_resolve now later (ttl_or_day ttl) disk key resolved c
          (fresh_quote (load hash now (ttl_or_day ttl) key c))

    -- `Quote` with the key and the provider's answer of its arguments.
    pub catalog_quote :
        Catalog
        → Providers F
        → ℤ
        → ℤ
        → Disk
        → String
        → Attrs
        → FileCache Raw
        → FileCache Raw × Result QuoteError (Quote F)
    catalog_quote cat p now later disk family attrs c =
        quote cat.ttl now later disk (cache_key family attrs) (resolve cat.ali p family attrs)
          (record c { dir = cat.cache_dir })

    abbrev pub price_of : Result QuoteError (Quote F) → Result QuoteError (F × String)
    price_of (ok q) = ok (q.unit_price, q.currency)
    price_of (err e) = err e

    -- `Price`.
    pub price :
        Catalog
        → Providers F
        → ℤ
        → ℤ
        → Disk
        → String
        → Attrs
        → FileCache Raw
        → FileCache Raw × Result QuoteError (F × String)
    price cat p now later disk family attrs c =
        let (after, result) = catalog_quote cat p now later disk family attrs c in
        (after, price_of result)
