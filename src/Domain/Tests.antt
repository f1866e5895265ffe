-- ===== src/Domain/Tests.antt =====
-- Symbols, amounts and points in time on small inputs.
use aistock.Common.{
  ◌↔◌, value_error, ◌∷◌, [], ℕ, ◌≡◌, ◌≤◌, ◌<◌, ◌⊎◌, refl, true, false, codes, Text, ok, raise,
  currency_mismatch, if◌then◌else◌, ◌==◌, text_eq,
}
use aistock.Decimal.{finite, whole, add}
use aistock.Domain.Ids.{
  symbol, iso_currency, symbol_lem, IsTicker, upper, lower, iso_currency_idem, strip,
  matches_symbol, is_symbol_char, is_letter,
}
use aistock.Domain.Time.{
  aware, PointInTimeRecord, point_in_time_record, is_visible_at, is_visible_at_sound,
}
use aistock.Domain.Money.{Money, money, add_money, matches_currency, add_money_lem}

brk : symbol (codes "brk.b") ≡ ok (codes "BRK.B")
unfolding symbol strip matches_symbol is_symbol_char
brk = refl

symbol_lem_example :
    ((symbol (codes "brk.b") ≡ ok (codes "BRK.B"))
      ↔ ((codes "BRK.B" ≡ upper (codes "brk.b")) × IsTicker (codes "BRK.B")))
    × ((symbol (codes "brk.b") ≡ ok (upper (codes "brk.b")))
        ⊎ (symbol (codes "brk.b") ≡ raise (value_error "symbol must match [A-Z.]{1,10}")))
    × ((symbol (lower (codes "BRK.B")) ≡ ok (codes "BRK.B")) ↔ IsTicker (codes "BRK.B"))
symbol_lem_example = symbol_lem (codes "brk.b") (codes "BRK.B")

-- A ligature becomes two letters, and a letter outside ASCII stays one.
ligature : symbol (64257 ∷ codes "ve") ≡ ok (codes "FIVE")
unfolding symbol matches_symbol is_symbol_char
ligature = refl

accent : symbol (233 ∷ []) ≡ raise (value_error "symbol must match [A-Z.]{1,10}")
unfolding symbol matches_symbol is_symbol_char
accent = refl

usd : iso_currency (codes "usd") ≡ ok (codes "USD")
unfolding iso_currency is_letter
usd = refl

iso_currency_idem_example : iso_currency (codes "USD") ≡ ok (codes "USD")
iso_currency_idem_example = iso_currency_idem (codes "usd") (codes "USD") usd

abbrev amount : ℕ → Text → Money
amount n c = record { amount = whole n; currency = c }

five : money (finite (whole 5)) (codes "usd") ≡ ok (amount 5 (codes "USD"))
unfolding money matches_currency
five = refl

seven : money (finite (whole 7)) (codes "EUR") ≡ ok (amount 7 (codes "EUR"))
unfolding money matches_currency
seven = refl

dollars_and_euros : add_money (amount 5 (codes "USD")) (amount 7 (codes "EUR")) ≡ (
    if (codes "USD") == (codes "EUR")
    then ok (record { amount = add (whole 5) (whole 7); currency = codes "USD" })
    else raise (currency_mismatch "cannot add two currencies"))
dollars_and_euros =
    add_money_lem (finite (whole 5)) (finite (whole 7)) (codes "usd") (codes "EUR")
      (amount 5 (codes "USD")) (amount 7 (codes "EUR")) five seven

abbrev known : PointInTimeRecord
known = record { event_time = 10; available_at = 20; ingested_at = 25 }

known_constructed : point_in_time_record (aware 10) (aware 20) (aware 25) ≡ ok known
unfolding point_in_time_record
known_constructed = refl

hidden : is_visible_at known (aware 15) ≡ ok false
unfolding is_visible_at
hidden = refl

is_visible_at_sound_example :
    (false ≡ true) × (10 ≤ 15) × (20 ≤ 15) ⊎ (false ≡ false) × (15 < 20) × (15 < 25)
is_visible_at_sound_example =
    is_visible_at_sound (aware 10) (aware 20) (aware 25) known 15 false known_constructed hidden
