-- ===== src/Lib.antt =====
-- slo-sentinel: a daemon that polls capacity and error-budget sensors, forecasts when each runs
-- out, and tells people once per change.
--
-- How the parts interact. A sensor queries Prometheus through a source and hands the samples to the
-- forecast engine, which returns a forecast with a state (healthy, warning or critical). The
-- daemon's round polls every sensor, records the forecast in the store, asks AlertManager whether a
-- static alert fires already, decides by the deduplication and the back-off whether to send, hands
-- capacity alarms to the triage gate or sends a card itself, and stores the sensor's state. Rule
-- files drive the waste scan, which asks the price catalog what a resource costs; the tracker follows
-- the candidates until they are resolved, and its entries are rows of the store that the command line
-- reads and writes too. Once a day a digest, and once a week a summary of the costs, is sent.
--
-- Which file models which part:
--   Query               internal/query: source.go, samples, series and a source; Prometheus the client
--                       (get, Instant, Range) over the answers of a server
--   Budget              internal/budget: Types the data, Engine the slopes, runs and minimum
--                       numbers of samples (TheilSenSlope, OLSSlope, SplitByGaps), Evaluate the
--                       windows and the decision (Evaluate, evalWindow, decide)
--   Alert               internal/alert: Dedupe (Peek, Commit), Telegram (Send), Coord
--                       (HasFiringAlerts)
--   Promdur             internal/promdur/promdur.go: Parse
--   Files, Spec         internal/spec/spec.go: Load and Validate
--   Capacity            internal/capacity: Defs (LoadDefs, Resolve), Sensor (New, Poll)
--   Store               internal/store: States, Predictions, WasteRows, Migrations, and Stamp, the
--                       order of timestamps as the texts that the database compares
--   Catalog             internal/catalog: Types, Classify, Load, Auto (classifyRuleNode), and
--                       filterCatalog of internal/waste/k8s.go, with Namespaces its
--                       ExcludeNamespaces
--   Waste               internal/waste: Tracker (Observe, Dismiss, Resolve, Restore), Rightsizing,
--                       Scanner (Scan, applyPricing); Persist, what cmd/sentinel/daemon.go and
--                       waste_cli.go read and write of the entries (runWasteScan, waste dismiss)
--   Pricing             internal/pricing: Types, Rates, Products (GetProducts), Bulk (the offer file
--                       as tokens), Skus (QuerySkuPriceList, popEncode), Cache, Providers (the quotes
--                       of each provider), Catalog (Quote, with the cache and its stale fall-back)
--   Cost                internal/cost: Days (daysInMonth), Forecast (cost.go), Estimate, Weekly
--   Daemon              cmd/sentinel: Notify (allowNotify, markNotifyResult, triageHandled and the
--                       part of runOnePoll that sends), Round (runOnePoll, maybePrunePredictions),
--                       Setup (setupSensors), Digest (daily_digest.go), Weekly (maybeWeeklyCost),
--                       Loop (Run, whose rounds, scans and duties are an interface)
--   Api                 cmd/sentinel/api.go: the handlers, and the metrics by name
--   Config              config/config.go: Load
--   Generator           cmd/sentinel-gen/validate.go: detectKind and staticValidate
--   Prelude             shared names, integers, results, maps and the record of float64 operations
--   Examples            runs on concrete values
--
-- How the code is modelled. A function is a function by clauses, a method that changes its receiver
-- returns the new one, and an error is a value of a result type. A time.Time or time.Duration is a
-- number of nanoseconds in ℤ; the sum that Parse builds from a text wraps around as its int64 does. A
-- float64 is a value of a record of operations, of which no law is assumed but where a theorem names
-- it; a second instance counts millionths and makes the examples run. A Go map is an association
-- list, and what the code reads of it does not hang on its order, save in Dismiss and Resolve, where
-- the order of the list stands for the order of one iteration. Loops are structural recursion, but
-- for the page loop of GetProducts, which is on fuel: the code leaves it once the page counter is past
-- 100, so the 102 rounds it is given are enough.
--
-- What is a parameter: the answers of Prometheus, AlertManager, Telegram, the triage gate and the
-- database, the price services and the bills, the file system, the YAML, XML and JSON decoders and
-- encoders, the hash of cache keys, promtool and the regular expressions.
--
-- What is not modelled: HTTP, JSON and SQL themselves, logs, message and report texts, the mutexes
-- of types that one goroutine uses, the billing adapters and the signing of requests, the tickers,
-- servers and directory watches around the main loop, and the command line tools but for the waste
-- commands and the static review of the generator.
pub mod Alert
pub mod Api
pub mod Budget
pub mod Capacity
pub mod Catalog
pub mod Config
pub mod Cost
pub mod Daemon
pub mod Examples
pub mod Files
pub mod Generator
pub mod Prelude
pub mod Pricing
pub mod Promdur
pub mod Query
pub mod Spec
pub mod Store
pub mod Waste
