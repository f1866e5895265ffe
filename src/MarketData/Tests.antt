-- ===== src/MarketData/Tests.antt =====
-- A primary that fails twice, and a fallback that works.
use aistock.Common.{
  some, true, ℕ, ◌≤◌, ◌≡◌, inr, refl, false, List, [], ◌∷◌, arith, ℕ_eq, text_eq, pair_eq, none, ok,
  All, codes,
}
use aistock.Domain.Time.{aware}
use aistock.MarketData.Fallback.{
  ProviderStatus, ok_status, error_status, ProviderRecord, ProviderResponse, ResearchDataProvider,
  FallbackPolicy, new_circuit, fetch, fetch_at, fallback_result, check_fallback, after_primary,
}
use aistock.MarketData.Quality.{
  degraded, fail, conflict_dimension, QualityAssessment, ProviderHealthSignals,
  derive_provider_health,
}
use aistock.MarketData.Quality.Worst.{
  rank, worse, cursor_rank, worst_job, worst_observation, derive_provider_health-rank,
}
use aistock.MarketData.Fallback.Visible.{fetch-IsVisible}
use aistock.MarketData.Fallback.Breaker.{
  Query, Fails, fetch_all, fetch_all-IsSettled, IsSettled, fetch_tripped,
}

abbrev policy : FallbackPolicy
policy = record {
  max_staleness = 50;
  failure_threshold = 2;
  reset_timeout = 30;
  compare_on_success = false;
}

abbrev bar : ProviderRecord ℕ
bar = record {
  symbol = codes "AAPL";
  feed_type = codes "bars";
  provider = codes "b";
  event_time = 90;
  available_at = 95;
  ingested_at = 96;
  content_hash = codes "h";
  raw_object_key = codes "k";
  payload = 7;
  normalized_record_id = none;
  is_delayed = false;
  quality_flags = [];
}

abbrev response : ProviderStatus → List (ProviderRecord ℕ) → ProviderResponse ℕ
response status records = record {
  status = status;
  provider = codes "b";
  feed_type = codes "bars";
  symbol = codes "AAPL";
  query_as_of = 100;
  records = records;
  warnings = [];
  trace_id = none;
  missingness = none;
}

abbrev broken : ResearchDataProvider ℕ
broken = record { name = codes "a"; fetch = λ f s t. ok (response error_status []) }

abbrev backup : ResearchDataProvider ℕ
backup = record { name = codes "b"; fetch = λ f s t. ok (response ok_status (bar ∷ [])) }

abbrev answer : ProviderResponse ℕ
answer = record (response ok_status (bar ∷ [])) { warnings = codes "fallback_from=a" ∷ [] }

answered :
    (fetch policy broken backup (codes "bars") (codes "AAPL") (aware 100) (aware 101) new_circuit).0
    ≡ ok answer
unfolding fetch fetch_at after_primary fallback_result check_fallback
answered = refl

fetch-IsVisible_example : All (λ (x : ProviderRecord ℕ). x.available_at ≤ 100) (bar ∷ [])
fetch-IsVisible_example =
    fetch-IsVisible policy broken backup (codes "bars") (codes "AAPL") 100 101 new_circuit answer
      answered refl

abbrev query : ℕ → Query ℕ
query now = record {
  primary = broken;
  fallback = backup;
  feed_type = codes "bars";
  symbol = codes "AAPL";
  as_of = aware 100;
  now = aware now;
}

fails : (now : ℕ) → Fails (query now) now
fails now = record {
  cutoff = 100;
  at = refl;
  asks = refl;
  response = response error_status [];
  answers = refl;
  fails = inr (refl, refl);
}

fetch_all-IsSettled_example :
    IsSettled policy (fetch_all policy new_circuit (query 101 ∷ query 102 ∷ query 140 ∷ []))
fetch_all-IsSettled_example =
    fetch_all-IsSettled policy (query 101 ∷ query 102 ∷ query 140 ∷ []) (ground arith)

fetch_tripped_example :
    fetch policy backup backup
      (codes "bars")
      (codes "AAPL")
      (aware 100)
      (aware 120)
      (fetch_all policy new_circuit (query 101 ∷ query 102 ∷ []))
    ≡ (
      fallback_result policy backup (codes "bars") (codes "AAPL") 100 (codes "circuit_open=b"),
      fetch_all policy new_circuit (query 101 ∷ query 102 ∷ []),
    )
fetch_tripped_example =
    fetch_tripped policy (query 101 ∷ query 102 ∷ []) 102 backup backup (codes "bars")
      (codes "AAPL") 100 120 refl ((101, fails 101), fails 102) (ground arith)

abbrev conflicting : QualityAssessment
conflicting = record {
  dimension = conflict_dimension;
  status = fail;
  provider = codes "a";
  dataset = codes "bars";
  observed_at = 5;
  freshness = none;
  coverage = none;
  delay = none;
  conflict = true;
  policy_version = codes "v1";
}

abbrev signals : ProviderHealthSignals
signals = record {
  provider = codes "a";
  job_states = codes "COMPLETED" ∷ codes "RETRY_SCHEDULED" ∷ [];
  cursor = some (7, degraded);
  observations = conflicting ∷ [];
}

derive_provider_health-rank_example :
    rank (derive_provider_health signals)
    ≡ worse
        (worse (cursor_rank signals.cursor) (worst_job signals.job_states))
        (worst_observation signals.observations)
derive_provider_health-rank_example = derive_provider_health-rank signals
