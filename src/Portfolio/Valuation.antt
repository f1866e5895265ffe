-- ===== src/Portfolio/Valuation.antt =====
-- application/portfolio/valuation.py, and the choice of bar revisions that it shares with
-- application/portfolio/execution.py.
pub mod Revisions
use aistock.Common.{
  Bool, ◌&&◌, ◌||◌, not, List, [], ◌∷◌, map, leb, ltb, nat_eq, if◌then◌else◌, Text, filter, ◌==◌,
  ℕ_eq, text_eq, text_lt, pair_eq, Option, none, some, Result, ok, raise, value_error, ◌>>=◌,
}
use aistock.Decimal.{Decimal, eq}
use aistock.Domain.Time.{Datetime, Instant, require_aware}
use aistock.Dict.{Dict, lookup, insert, values}
use aistock.Portfolio.Fill.{ExecutionBar}

-- `(a, s) > (b, t)` for the identities of two revisions.
abbrev pub newer : Instant × Text → Instant × Text → Bool
newer (a, s) (b, t) = ltb b a || nat_eq a b && text_lt t s

abbrev pub identity : ExecutionBar → Instant × Text
identity b = (b.available_at, b.content_hash)

-- `(bar.open, bar.volume) != (current.open, current.volume)`
abbrev pub differs : ExecutionBar → ExecutionBar → Bool
differs a b = not (eq a.open_price b.open_price && eq a.volume b.volume)

abbrev pub Revisions : Type 0
Revisions = Dict (Text × Instant) ExecutionBar

-- The body of the loop over the bars, for the revision that is known so far.
unfoldable pub revise : ExecutionBar → Option ExecutionBar → Revisions → Result Revisions
revise bar none d = ok (insert (bar.symbol, bar.event_time) bar d)
revise bar (some current) d =
    if identity bar == identity current && differs bar current
    then raise (value_error "conflicting bars share a revision identity")
    else ok (
        if newer (identity bar) (identity current)
        then insert (bar.symbol, bar.event_time) bar d
        else d)

unfoldable pub revisions_from : Revisions → List ExecutionBar → Result Revisions
revisions_from d [] = ok d
revisions_from d (bar ∷ bars) = do
  d' ← revise bar (lookup (bar.symbol, bar.event_time) d) d
  revisions_from d' bars

-- `(bar.event_time, bar.available_at, bar.content_hash) > …`
abbrev pub later : ExecutionBar → ExecutionBar → Bool
later a b =
    ltb b.event_time a.event_time
    || nat_eq a.event_time b.event_time && newer (identity a) (identity b)

unfoldable pub keep_latest : ExecutionBar → Dict Text ExecutionBar → Dict Text ExecutionBar
keep_latest bar d = elim (lookup bar.symbol d) [
  | none ↦ insert bar.symbol bar d
  | some current ↦ if later bar current then insert bar.symbol bar d else d
]

unfoldable pub latest_from : Dict Text ExecutionBar → List ExecutionBar → Dict Text ExecutionBar
latest_from d [] = d
latest_from d (bar ∷ bars) = latest_from (keep_latest bar d) bars

abbrev pub is_visible : Instant → Instant → ExecutionBar → Bool
is_visible event_time available_at bar =
    leb bar.event_time event_time && leb bar.available_at available_at

unfoldable pub visible_bar_prices :
    List ExecutionBar → Datetime → Datetime → Result (Dict Text Decimal)
visible_bar_prices bars event_cutoff available_cutoff = do
  event_time ← require_aware event_cutoff
  available_at ← require_aware available_cutoff
  revisions ← revisions_from [] (filter (is_visible event_time available_at) bars)
  ok (map (λ (p : Text × ExecutionBar). (p.0, p.1.open_price)) (latest_from [] (values revisions)))
