-- ===== src/Domain/Money.antt =====
-- domain/common/money.py.
use aistock.Common.{
  ℕ, ◌≡◌, Bool, true, ◌&&◌, not, arith, leb, nat_eq, if◌then◌else◌, Text, length, all, ◌==◌, Result,
  ok, raise, value_error, currency_mismatch, ◌>>=◌, ◌>>◌, raise_if, text_eq,
}
use aistock.Decimal.{Decimal, Number, finite, not_finite, not_decimal, add, decimal_arg}
use aistock.Domain.Ids.{upper, upper_idem}

pub record Money : Type 0 where
  pub amount : Decimal
  pub currency : Text

abbrev is_upper_letter : ℕ → Bool
is_upper_letter c = leb b'A' c && leb c b'Z'

-- The regular expression [A-Z]{3} on a whole text.
unfoldable pub matches_currency : Text → Bool
matches_currency s = nat_eq (length s) 3 && all is_upper_letter s

-- The constructor with its `__post_init__`.
unfoldable pub money : Number → Text → Result Money
money amount currency = do
  d ← decimal_arg "amount must be a finite Decimal" amount
  raise_if (not (matches_currency (upper currency)))
      (value_error "currency must be a three-letter ISO code")
  ok (record { amount = d; currency = upper currency })

-- `Money.__add__` of two amounts.
unfoldable pub add_money : Money → Money → Result Money
add_money m n =
    if not (m.currency == n.currency)
    then raise (currency_mismatch "cannot add two currencies")
    else money (finite (add m.amount n.amount)) m.currency

money-currency :
    (a : Number) (s : Text) (m : Money)
    → money a s ≡ ok m
    → (upper m.currency ≡ m.currency) × (matches_currency m.currency ≡ true)
unfolding money
money-currency (finite d) s m h = ground (arith, upper_idem s)
money-currency not_finite s m h = cc
money-currency not_decimal s m h = cc

money_finite :
    (d : Decimal) (s : Text)
    → upper s ≡ s
    → matches_currency s ≡ true
    → money (finite d) s ≡ ok (record { amount = d; currency = s })
unfolding money
money_finite d s h k = rw (h, k)

-- Two amounts that were constructed add up in their common currency, to the rounded sum; amounts of
-- two currencies raise.
pub add_money_lem :
    (a b : Number) (s t : Text) (m n : Money)
    → money a s ≡ ok m
    → money b t ≡ ok n
    → add_money m n ≡ (
        if m.currency == n.currency
        then ok (record { amount = add m.amount n.amount; currency = m.currency })
        else raise (currency_mismatch "cannot add two currencies"))
unfolding add_money
add_money_lem a b s t m n h k =
    ground (arith, money-currency a s m h, money_finite (add m.amount n.amount) m.currency)
