-- ===== src/Portfolio/Position.antt =====
-- domain/portfolio/position.py.
pub mod Reversed
use aistock.Common.{
  ℕ, Bool, true, false, ◌&&◌, ◌||◌, not, List, [], ◌∷◌, ◌++◌, map, leb, ltb, nat_eq, if◌then◌else◌,
  Text, any, filter, ◌==◌, ℕ_eq, text_eq, pair_eq, Option, none, some, Result, ok, ◌>>=◌, sort_by,
}
use aistock.Decimal.{Decimal, whole, add, mul, eq}
use aistock.Domain.Ids.{Uuid}
use aistock.Domain.Time.{Datetime, Instant, require_aware, optional_aware}
use aistock.Dict.{Dict, get_or, insert, unique_by}
use aistock.Int.{negsuc}
use aistock.Portfolio.Order.{OrderSide, buy, sell, is_none}
use aistock.Portfolio.Fill.{PaperFill}

-- `applied_split_ids` is a set: only membership is read.
pub record Position : Type 0 where
  pub symbol : Text
  pub quantity : Decimal
  pub applied_split_ids : List Uuid

-- The protocol `SplitAdjustment`.
pub record SplitAdjustment : Type 0 where
  pub id : Uuid
  pub symbol : Text
  pub effective_at : Datetime
  pub available_at : Datetime
  pub ratio : Decimal

abbrev pub minus_one : Decimal
minus_one = record { coeff = negsuc 0; scale = 0 }

-- The tuples that are sorted. A split has an id, a fill has none.
pub record PositionEvent : Type 0 where
  pub at : Instant
  pub priority : ℕ
  pub key : Uuid
  pub symbol : Text
  pub value : Decimal
  pub split_id : Option Uuid

-- `<` on the tuples. Ids are unique among the fills and among the splits, so that two tuples differ
-- in the first three places; the text of a UUID sorts as its number.
abbrev event_lt : PositionEvent → PositionEvent → Bool
event_lt a b =
    ltb a.at b.at
    || nat_eq a.at b.at
      && (ltb a.priority b.priority || nat_eq a.priority b.priority && ltb a.key b.key)

-- `cutoff is None or moment <= cutoff`
abbrev pub within : Option Instant → Instant → Bool
within none t = true
within (some c) t = leb t c

abbrev pub unique_fills : List PaperFill → List PaperFill
unique_fills = unique_by (λ (f : PaperFill). f.id)

abbrev reverses : Uuid → PaperFill → Bool
reverses id f = elim f.reversal_of_id [ none ↦ false | some r ↦ r == id ]

-- Neither a reversal nor reversed by one of `fills`.
unfoldable pub is_effective : List PaperFill → PaperFill → Bool
is_effective fills f = is_none f.reversal_of_id && not (any (reverses f.id) fills)

abbrev pub direction : OrderSide → Decimal
direction buy = whole 1
direction sell = minus_one

abbrev pub fill_event : PaperFill → PositionEvent
fill_event f = record {
  at = f.filled_at;
  priority = 1;
  key = f.id;
  symbol = f.symbol;
  value = mul (direction f.side) f.quantity;
  split_id = none;
}

unfoldable pub fill_events : List PaperFill → List PositionEvent
fill_events fills = map fill_event (filter (is_effective fills) fills)

abbrev split_event : SplitAdjustment → Instant → Instant → PositionEvent
split_event a effective_at available_at = record {
  at = if ltb effective_at available_at then available_at else effective_at;
  priority = 0;
  key = a.id;
  symbol = a.symbol;
  value = a.ratio;
  split_id = some a.id;
}

unfoldable pub split_events : Option Instant → List SplitAdjustment → Result (List PositionEvent)
split_events cutoff [] = ok []
split_events cutoff (a ∷ actions) = do
  e ← require_aware a.effective_at
  v ← require_aware a.available_at
  rest ← split_events cutoff actions
  ok (if within cutoff e && within cutoff v then split_event a e v ∷ rest else rest)

pub record Holdings : Type 0 where
  pub quantities : Dict Text Decimal
  pub applied_split_ids : Dict Text (List Uuid)

abbrev apply_event : PositionEvent → Holdings → Holdings
apply_event v h = elim v.split_id [
  | none ↦ record h {
    quantities =
        insert v.symbol (add (get_or v.symbol (whole 0) h.quantities) v.value) h.quantities;
  }
  | some id ↦ record {
    quantities =
        insert v.symbol (mul (get_or v.symbol (whole 0) h.quantities) v.value) h.quantities;
    applied_split_ids =
        insert v.symbol (id ∷ get_or v.symbol [] h.applied_split_ids) h.applied_split_ids;
  }
]

unfoldable pub apply_events : Holdings → List PositionEvent → Holdings
apply_events h [] = h
apply_events h (v ∷ vs) = apply_events (apply_event v h) vs

abbrev position : Holdings → Text × Decimal → Text × Position
position h (s, q) =
    (s, record { symbol = s; quantity = q; applied_split_ids = get_or s [] h.applied_split_ids })

abbrev is_open : Text × Decimal → Bool
is_open (s, q) = not (eq q (whole 0))

abbrev pub visible_fills : Option Instant → List PaperFill → List PaperFill
visible_fills cutoff fills =
    unique_fills (filter (λ (f : PaperFill). within cutoff f.filled_at) fills)

unfoldable pub rebuild_positions :
    List PaperFill → List SplitAdjustment → Option Datetime → Result (Dict Text Position)
rebuild_positions fills split_actions as_of = do
  cutoff ← optional_aware as_of
  splits ← split_events cutoff (unique_by (λ (a : SplitAdjustment). a.id) split_actions)
  let events = sort_by event_lt (fill_events (visible_fills cutoff fills) ++ splits)
  let h = apply_events (record { quantities = []; applied_split_ids = [] }) events
  ok (map (position h) (filter is_open h.quantities))
