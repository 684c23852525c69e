-- ===== src/RefreshEndpoint/Markers.antt =====
-- The markers of `refresh_cryptocurrencies` (app/api/v1/endpoints/cryptocurrencies.py).
use crypto_back.World.{World}
use crypto_back.Redis.{Redis}
