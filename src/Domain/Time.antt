-- ===== src/Domain/Time.antt =====
-- domain/common/time.py. A timestamp is naive, or the instant that it denotes, in microseconds; the
-- comparisons of aware timestamps go by the instant.
use aistock.Common.{
  Option, none, some, ℕ, ◌≤◌, ◌<◌, ◌≡◌, ◌⊎◌, Bool, true, false, ◌&&◌, not, arith, leb, Result, ok,
  raise, value_error, ◌>>=◌, ◌>>◌, raise_if,
}

pub data Datetime : Type 0 where
  naive : Datetime
  aware : ℕ → Datetime

abbrev pub Instant : Type 0
Instant = ℕ

-- `require_aware(value)`, alone or followed by `.astimezone(UTC)`: both denote the same instant. That
-- Python compares two timestamps of one zone by their wall time is left out.
abbrev pub require_aware : Datetime → Result Instant
require_aware naive = raise (value_error "timestamp must be timezone-aware")
require_aware (aware t) = ok t

-- `require_aware(as_of) if as_of is not None else None`
abbrev pub optional_aware : Option Datetime → Result (Option Instant)
optional_aware none = ok none
optional_aware (some t) = do c ← require_aware t; ok (some c)

pub record PointInTimeRecord : Type 0 where
  pub event_time : Instant
  pub available_at : Instant
  pub ingested_at : Instant

-- The constructor with its `__post_init__`.
unfoldable pub point_in_time_record :
    (event_time available_at ingested_at : Datetime) → Result PointInTimeRecord
point_in_time_record event_time available_at ingested_at = do
  e ← require_aware event_time
  a ← require_aware available_at
  i ← require_aware ingested_at
  raise_if (not (leb e a && leb a i))
      (value_error "timestamps must satisfy event_time <= available_at <= ingested_at")
  ok (record { event_time = e; available_at = a; ingested_at = i })

unfoldable pub is_visible_at : PointInTimeRecord → Datetime → Result Bool
is_visible_at r decision_time = do t ← require_aware decision_time; ok (leb r.available_at t)

-- No look-ahead: what a record that was constructed shows at a decision time has happened and was
-- available by then, and what is not visible becomes available only later.
pub is_visible_at_sound :
    (e a i : Datetime) (r : PointInTimeRecord) (t : Instant) (b : Bool)
    → point_in_time_record e a i ≡ ok r
    → is_visible_at r (aware t) ≡ ok b
    → (b ≡ true) × (r.event_time ≤ t) × (r.available_at ≤ t)
      ⊎ (b ≡ false) × (t < r.available_at) × (t < r.ingested_at)
unfolding point_in_time_record is_visible_at
is_visible_at_sound naive a i r t b h k = cc
is_visible_at_sound (aware e) naive i r t b h k = cc
is_visible_at_sound (aware e) (aware a) naive r t b h k = cc
is_visible_at_sound (aware e) (aware a) (aware i) r t b h k = ground arith
