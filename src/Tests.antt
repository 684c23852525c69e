-- ===== src/Tests.antt =====
-- Runs of the models at fixed inputs, and the theorems at inputs that meet their hypotheses.
mod Samples
mod Tokens
mod BreakerTests
mod CacheTests
mod ProviderTests
mod InsightTests
mod AuthTests
mod CoinTests
mod WatchlistTests
mod AccessTests
mod WorkerTests
mod HistoryTests
mod RefreshTests
mod ServedTests
mod PasswordTests
mod ApplicationTests
mod PageTests
mod RefinementTests
mod MigrationTests
mod LimitTests
mod SessionTests
