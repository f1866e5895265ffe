-- ===== src/Alerting/Features.antt =====
-- application/alerting/features.py. The square and the square root of a decimal are parameters. Numbers are
-- finite; the raw payload of a bar, which is only stored, is left out, and so is the text of the metrics.
use aistock.Common.{
  ℕ, ◌+◌, ◌-◌, Bool, ◌&&◌, ◌||◌, not, List, [], ◌∷◌, map, leb, ltb, nat_eq, if◌then◌else◌, Text,
  length, any, ◌==◌, ℕ_eq, text_eq, pair_eq, Option, none, some, Result, ok, raise, value_error,
  ◌>>=◌, ◌>>◌, raise_if, sort_by,
}
use aistock.Decimal.{Decimal, whole, sub, div, abs, lt, eq, min_of, max_of, sum_from}
use aistock.Domain.Ids.{symbol}
use aistock.Domain.Time.{Datetime, Instant, require_aware}

pub record MinuteBar : Type 0 where
  pub symbol : Text
  pub event_time : Instant
  pub available_at : Instant
  pub ingested_at : Instant
  pub open_price : Decimal
  pub high : Decimal
  pub low : Decimal
  pub close : Decimal
  pub volume : Decimal
  pub previous_close : Option Decimal
  pub provider : Text
  pub content_hash : Text
  pub raw_object_key : Text
  pub conflict : Bool

-- The checks of `__post_init__`, on a bar whose times are given apart.
unfoldable pub minute_bar :
    (event_time available_at ingested_at : Datetime) → MinuteBar → Result MinuteBar
minute_bar event_time available_at ingested_at b = do
  s ← symbol b.symbol
  e ← require_aware event_time
  a ← require_aware available_at
  i ← require_aware ingested_at
  raise_if (not (leb e a && leb a i))
      (value_error "bar timestamps must satisfy event_time <= available_at <= ingested_at")
  raise_if (lt b.volume (whole 0)) (value_error "volume cannot be negative")
  raise_if (not (nat_eq (length b.content_hash) 64)) (value_error "content_hash must be SHA-256")
  ok (record b { symbol = s; event_time = e; available_at = a; ingested_at = i })

pub record DataQuality : Type 0 where
  pub freshness : ℕ
  pub coverage : Decimal
  pub provider : Text
  pub delay : ℕ
  pub conflict : Bool

pub record GapContext : Type 0 where
  pub session_open : Decimal
  pub previous_close : Decimal

pub record AnomalyFeatures : Type 0 where
  pub symbol : Text
  pub event_time : Instant
  pub five_minute_return : Option Decimal
  pub relative_volume : Option Decimal
  pub return_zscore : Option Decimal
  pub volume_zscore : Option Decimal
  pub volatility_zscore : Option Decimal
  pub gap : Option Decimal
  pub breakout : Option Bool
  pub data_quality : DataQuality

-- `_mean`
unfoldable pub mean : List Decimal → Option Decimal
mean [] = none
mean (x ∷ xs) = some (div (sum_from (whole 0) (x ∷ xs)) (whole (length (x ∷ xs))))

abbrev pub is_some {ℓ} : {A : Type ℓ} → Option A → ℕ
is_some none = 0
is_some (some a) = 1

-- How many of the seven features there are.
unfoldable pub available : AnomalyFeatures → ℕ
available f =
    is_some f.five_minute_return
    + is_some f.relative_volume
    + is_some f.return_zscore
    + is_some f.volume_zscore
    + is_some f.volatility_zscore
    + is_some f.gap
    + is_some f.breakout

-- The last of a list that is not empty, and what stands before it.
abbrev last_of {ℓ} : {A : Type ℓ} → A → List A → A
last_of x [] = x
last_of x (y ∷ ys) = last_of y ys

abbrev before_last {ℓ} : {A : Type ℓ} → A → List A → List A
before_last x [] = []
before_last x (y ∷ ys) = x ∷ before_last y ys

abbrev drop {ℓ} : {A : Type ℓ} → ℕ → List A → List A
drop n [] = []
drop n (x ∷ xs) = if nat_eq n 0 then x ∷ xs else drop (n - 1) xs

abbrev last_option {ℓ} : {A : Type ℓ} → List A → Option A
last_option [] = none
last_option (x ∷ xs) = some (last_of x xs)

abbrev without_last {ℓ} : {A : Type ℓ} → List A → List A
without_last [] = []
without_last (x ∷ xs) = before_last x xs

abbrev is_zero : Decimal → Bool
is_zero d = eq d (whole 0)

-- `current.close / previous.close - 1` along a window.
unfoldable pub returns_along : MinuteBar → List MinuteBar → List Decimal
returns_along p [] = []
returns_along p (c ∷ bars) =
    if is_zero p.close
    then returns_along c bars
    else sub (div c.close p.close) (whole 1) ∷ returns_along c bars

-- `a / b`, and `a / b - 1`, unless `b` is zero.
abbrev ratio : Decimal → Decimal → Option Decimal
ratio a b = if is_zero b then none else some (div a b)

abbrev ratio_change : Decimal → Decimal → Option Decimal
ratio_change a b = if is_zero b then none else some (sub (div a b) (whole 1))

unfoldable pub gap_of : Option GapContext → Option Decimal
gap_of none = none
gap_of (some g) = ratio_change g.session_open g.previous_close

abbrev highest : Decimal → List MinuteBar → Decimal
highest best [] = best
highest best (b ∷ bars) = highest (max_of best b.high) bars

abbrev lowest : Decimal → List MinuteBar → Decimal
lowest best [] = best
lowest best (b ∷ bars) = lowest (min_of best b.low) bars

unfoldable pub breakout_of : MinuteBar → List MinuteBar → Option Bool
breakout_of latest [] = none
breakout_of latest (b ∷ prior) =
    some (lt (highest b.high prior) latest.close || lt latest.close (lowest b.low prior))

unfoldable pub relative_volume_of : MinuteBar → List MinuteBar → Option Decimal
relative_volume_of latest prior = elim (mean (map (λ b. b.volume) prior)) [
  | none ↦ none
  | some m ↦ ratio latest.volume m
]

unfoldable pub five_minute_return_of : (lookback : ℕ) → MinuteBar → List MinuteBar → Option Decimal
five_minute_return_of lookback first rest =
    if nat_eq (length (first ∷ rest)) (lookback + 1)
    then ratio_change (last_of first rest).close first.close
    else none

abbrev abs_option : Option Decimal → Option Decimal
abs_option none = none
abs_option (some d) = some (abs d)

abbrev time_lt : MinuteBar → MinuteBar → Bool
time_lt a b = ltb a.event_time b.event_time

module _ (sqrt square : Decimal → Decimal) where
  -- `_zscore`
  unfoldable pub zscore : Decimal → List Decimal → Option Decimal
  zscore value history = elim (mean history) [
    | none ↦ none
    | some m ↦
        if ltb (length history) 2
        then none
        else (let variance =
              div (sum_from (whole 0) (map (λ x. square (sub x m)) history))
                (whole (length history)) in
            if is_zero variance then some (whole 0) else some (div (sub value m) (sqrt variance)))
  ]

  abbrev zscore_of : Option Decimal → List Decimal → Option Decimal
  zscore_of none history = none
  zscore_of (some value) history = zscore value history

  -- The features of a window, of which the first bar is given apart.
  unfoldable pub features_of :
      (lookback : ℕ) → Instant → Option GapContext → MinuteBar → List MinuteBar → AnomalyFeatures
  features_of lookback cutoff gap_context first rest =
      let latest = last_of first rest in
      let prior = before_last first rest in
      let returns = returns_along first rest in
      let current = last_option returns in
      let history = without_last returns in
      let f : AnomalyFeatures = record {
        symbol = latest.symbol;
        event_time = latest.event_time;
        five_minute_return = five_minute_return_of lookback first rest;
        relative_volume = relative_volume_of latest prior;
        return_zscore = zscore_of current history;
        volume_zscore = zscore latest.volume (map (λ b. b.volume) prior);
        volatility_zscore = zscore_of (abs_option current) (map abs history);
        gap = gap_of gap_context;
        breakout = breakout_of latest prior;
        data_quality = record {
          freshness = cutoff - latest.available_at;
          coverage = whole 0;
          provider = latest.provider;
          delay = latest.ingested_at - latest.event_time;
          conflict = any (λ (b : MinuteBar). b.conflict) (first ∷ rest);
        };
      } in
      record f {
        data_quality = record f.data_quality { coverage = div (whole (available f)) (whole 7) };
      }

  -- The checks of `calculate` on the sorted bars, and its features.
  unfoldable pub calculate_sorted :
      (lookback : ℕ)
      → Instant
      → Option GapContext
      → (ordered window : List MinuteBar) → Result AnomalyFeatures
  calculate_sorted lookback cutoff gap_context ordered [] =
      raise (value_error "at least one bar is required")
  calculate_sorted lookback cutoff gap_context ordered (first ∷ rest) = do
    raise_if (any (λ (b : MinuteBar). ltb cutoff b.available_at) ordered)
        (value_error "all bars must be available at evaluation time")
    raise_if (any (λ (b : MinuteBar). not (b.symbol == (last_of first rest).symbol)) ordered)
        (value_error "all bars must have the same symbol")
    ok (features_of lookback cutoff gap_context first rest)

  -- `FeatureCalculator.calculate`
  unfoldable pub calculate :
      (lookback : ℕ)
      → List MinuteBar
      → (evaluated_at : Datetime) → Option GapContext
      → Result AnomalyFeatures
  calculate lookback bars evaluated_at gap_context = do
    cutoff ← require_aware evaluated_at
    let ordered = sort_by time_lt bars
    calculate_sorted lookback cutoff gap_context ordered
        (drop (length ordered - (lookback + 1)) ordered)
