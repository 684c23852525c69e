-- ===== src/Tests/PageTests.antt =====
-- A page of coins, over the store and the tables in memory.
use crypto_back.Json.{Json}
use crypto_back.CoinEndpoints.{Messages}

abbrev messages : Messages
messages = record {
  too_small = λ n. "Input should be greater";
  too_large = λ n. "Input should be less";
  not_uuid = "Input should be a valid UUID";
}
