-- ===== src/Pricing.antt =====
-- internal/pricing: unit prices from the price lists of cloud providers, with a cache on disk.
pub mod Types
pub mod Rates
pub mod Products
pub mod Bulk
pub mod Skus
pub mod Cache
pub mod Providers
pub mod Catalog
