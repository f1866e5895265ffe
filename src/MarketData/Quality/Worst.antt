-- ===== src/MarketData/Quality/Worst.antt =====
-- The health of a provider is the worst of its signals.
use aistock.Common.{
  ℕ, ◌≡◌, refl, Bool, true, false, ◌||◌, List, [], ◌∷◌, arith, ltb, if◌then◌else◌, Text, any, ℕ_eq,
  text_eq, pair_eq, Option, none, some, ap₂, ap, sym, ◌∙◌,
}
use aistock.MarketData.Quality.{
  QualityStatus, pass, degraded, unavailable, fail, QualityAssessment, ProviderHealthSignals,
  derive_provider_health, is_bad, is_degraded, cursor_is, is_failed, is_retried,
}

-- How bad a status is: a failed check is as bad as data that is unavailable.
abbrev pub rank : QualityStatus → ℕ
rank pass = 0
rank degraded = 1
rank unavailable = 2
rank fail = 2

abbrev pub worse : ℕ → ℕ → ℕ
worse a b = if ltb a b then b else a

-- How bad the state of a job is.
abbrev pub job_rank : Text → ℕ
job_rank state = if is_failed state then 2 else if is_retried state then 1 else 0

abbrev pub cursor_rank : Option (ℕ × QualityStatus) → ℕ
cursor_rank none = 0
cursor_rank (some (lag, status)) = rank status

abbrev pub worst_job : List Text → ℕ
worst_job [] = 0
worst_job (s ∷ ss) = worse (job_rank s) (worst_job ss)

abbrev pub worst_observation : List QualityAssessment → ℕ
worst_observation [] = 0
worst_observation (o ∷ os) = worse (rank o.status) (worst_observation os)

-- What two tests say of a rank.
abbrev level : (bad some_bad : Bool) → ℕ
level bad some_bad = if bad then 2 else if some_bad then 1 else 0

worse-level : (a b c d : Bool) → worse (level a b) (level c d) ≡ level (a || c) (b || d)
worse-level true b c d = ground arith
worse-level false true true d = ground arith
worse-level false true false d = ground arith
worse-level false false c d = ground arith

rank-level : (s : QualityStatus) → rank s ≡ level (is_bad s) (is_degraded s)
rank-level pass = refl
rank-level degraded = refl
rank-level unavailable = refl
rank-level fail = refl

worst_job-level : (ss : List Text) → worst_job ss ≡ level (any is_failed ss) (any is_retried ss)
worst_job-level [] = refl
worst_job-level (s ∷ ss) =
    ap (worse (job_rank s)) (worst_job-level ss)
    ∙ worse-level (is_failed s) (is_retried s) (any is_failed ss) (any is_retried ss)

worst_observation-level :
    (os : List QualityAssessment)
    → worst_observation os
      ≡ level
          (any (λ (o : QualityAssessment). is_bad o.status) os)
          (any (λ (o : QualityAssessment). is_degraded o.status) os)
worst_observation-level [] = refl
worst_observation-level (o ∷ os) =
    ap₂ worse (rank-level o.status) (worst_observation-level os)
    ∙ worse-level (is_bad o.status) (is_degraded o.status) _ _

cursor_rank-level :
    (c : Option (ℕ × QualityStatus))
    → cursor_rank c ≡ level (cursor_is is_bad c) (cursor_is is_degraded c)
cursor_rank-level none = refl
cursor_rank-level (some (lag, status)) = rank-level status

ranked : (a b : Bool) → rank (if a then unavailable else if b then degraded else pass) ≡ level a b
ranked true b = refl
ranked false true = refl
ranked false false = refl

health-level :
    (s : ProviderHealthSignals)
    → rank (derive_provider_health s)
      ≡ level
          (cursor_is is_bad s.cursor
            || any is_failed s.job_states
            || any (λ (o : QualityAssessment). is_bad o.status) s.observations)
          (cursor_is is_degraded s.cursor
            || any is_retried s.job_states
            || any (λ (o : QualityAssessment). is_degraded o.status) s.observations)
unfolding derive_provider_health
health-level s = ranked _ _

-- The health that is derived for a provider is as bad as the worst of the status of its cursor, the
-- states of its jobs and the statuses of its observations, and no worse; so it depends neither on
-- their order nor on how often they occur.
pub derive_provider_health-rank :
    (s : ProviderHealthSignals)
    → rank (derive_provider_health s)
      ≡ worse
          (worse (cursor_rank s.cursor) (worst_job s.job_states))
          (worst_observation s.observations)
derive_provider_health-rank s =
    health-level s
    ∙ sym (
        ap₂ worse
          (ap₂ worse (cursor_rank-level s.cursor) (worst_job-level s.job_states)
            ∙ worse-level _ _ _ _)
          (worst_observation-level s.observations)
        ∙ worse-level _ _ _ _)
