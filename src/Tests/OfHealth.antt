-- ===== src/Tests/OfHealth.antt =====
-- The theorems on the probes.
use rt_financial_anomaly_det.Prelude.{ℕ, ◌≡◌, ◌≢◌, ◌↔◌, ◌⊎◌, arith, Bool, true, false, leb}
use rt_financial_anomaly_det.Health.{
  Ping, ping_database, not_initialized, client, gateway_readyz, processor_readyz, publisher_readyz,
}
use rt_financial_anomaly_det.Health.Readiness.{
  Succeeds, Fails, Reached, ping_database_effect, readyz_ready,
}

-- a database that answers from the third attempt on
abbrev connects : ℕ → Bool
connects attempt = leb 3 attempt

ping_database_effect_example :
    Succeeds connects 5 1 (ping_database connects 5 true 1)
    ⊎ Fails connects 5 1 (ping_database connects 5 true 1)
ping_database_effect_example = ping_database_effect connects 5 1 (omega arith)

abbrev ping : Ping
ping = (ping_database connects 5 true 1).0

readyz_ready_example :
    ((gateway_readyz ping not_initialized).status_code ≡ 200
      ↔ (((true ≡ true) × Reached connects 5) × (not_initialized ≢ client false)))
    × ((processor_readyz false ping true).status_code ≡ 200
        ↔ (((true ≡ true) × Reached connects 5) × (true ≡ true) × (false ≡ true)))
    × ((publisher_readyz ping true).status_code ≡ 200
        ↔ (((true ≡ true) × Reached connects 5) × (true ≡ true)))
readyz_ready_example = readyz_ready connects 5 1 (omega arith) true not_initialized true false
