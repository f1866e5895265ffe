-- ===== src/Portfolio/CorporateActions.antt =====
-- application/portfolio/corporate_actions.py: the kinds of action and `adjust_position_with_gaps`.
-- `supersedes_id` is read only through the chain, and `details` not at all.
pub mod Adjust
pub mod Dividends
use aistock.Common.{
  ℕ, zero, suc, ◌+◌, ◌-◌, ◌≤◌, ◌<◌, ◌≡◌, ◌≢◌, ◌⊎◌, inl, inr, refl, Bool, true, false, ◌&&◌, ◌||◌,
  not, List, [], ◌∷◌, ◌++◌, map, arith, leb, ltb, nat_eq, if◌then◌else◌, Text, length, all, any,
  filter, is_empty, Eq, ◌==◌, ℕ_eq, text_eq, pair_eq, Option, none, some, Result, ok, raise,
  value_error, type_error, key_error, ◌>>=◌, ◌>>◌, raise_if, Bool-cases, sort_by, All, sort_by-All,
  String, codes, All-append, any-append, ok-injective, >>=-eq-ok, >>-eq-ok, raise_if-eq-ok,
  Result-cases, ap, sym, ◌∙◌, subst,
}
use aistock.Decimal.{
  Decimal, Number, finite, not_finite, not_decimal, whole, add, sub, mul, div, neg, abs, le, lt, eq,
  min_of, max_of, sum_from, decimal_arg,
}
use aistock.Domain.Ids.{Uuid, symbol, iso_currency, strip, lower, is_blank}
use aistock.Domain.Time.{Datetime, naive, aware, Instant, require_aware}
use aistock.Dict.{
  Dict, lookup, contains, get_or, insert, values, unique_by, unique_by-All, unique_by_idem,
  any-unique_by,
}
use aistock.Domain.Ids.{upper}
use aistock.Portfolio.Ledger.{
  LedgerEntry, EntryArgs, ledger_entry, unique_entries, is_balanced, cash_account,
}
use aistock.Portfolio.Position.{Position}
use aistock.Portfolio.Accounting.{uuid_text}

-- The fields that all kinds of action have; `supersedes_chain` is a set, of which only membership is
-- read.
pub record ActionHeader : Type 0 where
  pub id : Uuid
  pub symbol : Text
  pub effective_at : Instant
  pub available_at : Instant
  pub supersedes_chain : List Uuid

pub record HeaderArgs : Type 0 where
  pub id : Uuid
  pub symbol : Text
  pub effective_at : Datetime
  pub available_at : Datetime
  pub supersedes_id : Option Uuid
  pub supersedes_chain : List Uuid

-- SplitAction, CashDividend, StockDividend, AdrRatioChange and ReferenceAction.
pub data ActionKind : Type 0 where
  split : (ratio : Decimal) → ActionKind
  cash_dividend : (cash_per_share : Decimal) (currency : Text) → ActionKind
  stock_dividend : (ratio : Decimal) → ActionKind
  adr_ratio_change : (old_ratio new_ratio : Decimal) → ActionKind
  reference_action : (action_type : Text) → ActionKind

pub record CorporateAction : Type 0 where
  pub header : ActionHeader
  pub kind : ActionKind

unfoldable pub revision_chain : Option Uuid → List Uuid → List Uuid
revision_chain none chain = chain
revision_chain (some direct) chain = direct ∷ chain

-- The lines that begin and end each `__post_init__`.
unfoldable pub action_header : HeaderArgs → Result ActionHeader
action_header h = do
  s ← symbol h.symbol
  e ← require_aware h.effective_at
  a ← require_aware h.available_at
  ok (record {
    id = h.id;
    symbol = s;
    effective_at = e;
    available_at = a;
    supersedes_chain = revision_chain h.supersedes_id h.supersedes_chain;
  })

abbrev positive_ratio : String → Number → Result Decimal
positive_ratio name n = do
  r ← decimal_arg name n
  raise_if (le r (whole 0)) (value_error "must be finite and positive")
  ok r

unfoldable pub split_action : HeaderArgs → Number → Result CorporateAction
split_action h ratio = do
  header ← action_header h
  r ← positive_ratio "split ratio" ratio
  ok (record { header = header; kind = split r })

unfoldable pub cash_dividend_action : HeaderArgs → Number → Text → Result CorporateAction
cash_dividend_action h amount currency = do
  header ← action_header h
  a ← decimal_arg "cash_per_share" amount
  raise_if (lt a (whole 0)) (value_error "cash_per_share must be finite and non-negative")
  ok (record { header = header; kind = cash_dividend a (upper currency) })

unfoldable pub stock_dividend_action : HeaderArgs → Number → Result CorporateAction
stock_dividend_action h ratio = do
  header ← action_header h
  r ← positive_ratio "stock dividend ratio" ratio
  ok (record { header = header; kind = stock_dividend r })

unfoldable pub adr_ratio_action : HeaderArgs → Number → Number → Result CorporateAction
adr_ratio_action h old_ratio new_ratio = do
  header ← action_header h
  o ← positive_ratio "old_ratio" old_ratio
  n ← positive_ratio "new_ratio" new_ratio
  ok (record { header = header; kind = adr_ratio_change o n })

unfoldable pub reference_action_of : HeaderArgs → Text → Result CorporateAction
reference_action_of h action_type = do
  header ← action_header h
  raise_if
      (not (
        any (λ (t : Text). t == action_type)
          (codes "SPIN_OFF" ∷ codes "SYMBOL_CHANGE" ∷ codes "MERGER_ACQUISITION" ∷ [])))
      (value_error "unsupported reference action type")
  ok (record { header = header; kind = reference_action action_type })

-- `{item.id: item for item in actions}.values()`
abbrev pub unique_actions : List CorporateAction → List CorporateAction
unique_actions = unique_by (λ (a : CorporateAction). a.header.id)

-- `(item.effective_at, item.available_at, item.id)` as a sort key.
abbrev pub action_lt : CorporateAction → CorporateAction → Bool
action_lt a b =
    ltb a.header.effective_at b.header.effective_at
    || nat_eq a.header.effective_at b.header.effective_at
      && (ltb a.header.available_at b.header.available_at
          || nat_eq a.header.available_at b.header.available_at && ltb a.header.id b.header.id)

pub data GapReason : Type 0 where
  revised_action_requires_replay unsupported_action : GapReason

pub record CorporateActionGap : Type 0 where
  pub action_id : Uuid
  pub reason : GapReason

-- The variables of the loop.
pub record Adjusting : Type 0 where
  pub quantity : Decimal
  pub applied_ids : List Uuid
  pub gaps : List CorporateActionGap

abbrev pub is_in : List Uuid → Uuid → Bool
is_in ids id = any (λ (x : Uuid). x == id) ids

-- `chain & ids` is not empty.
abbrev pub meets : List Uuid → List Uuid → Bool
meets chain ids = any (is_in ids) chain

abbrev pub gap : Uuid → GapReason → Adjusting → Adjusting
gap id reason s = record {
  quantity = s.quantity;
  applied_ids = s.applied_ids;
  gaps = s.gaps ++ record { action_id = id; reason = reason } ∷ [];
}

abbrev pub scale_by : Uuid → Decimal → Adjusting → Adjusting
scale_by id factor s = record {
  quantity = mul s.quantity factor;
  applied_ids = id ∷ s.applied_ids;
  gaps = s.gaps;
}

-- The chain of `isinstance` tests.
unfoldable pub apply_kind : Uuid → ActionKind → Adjusting → Adjusting
apply_kind id (split ratio) s = scale_by id ratio s
apply_kind id (stock_dividend ratio) s = scale_by id (add (whole 1) ratio) s
apply_kind id (adr_ratio_change old_ratio new_ratio) s = scale_by id (div new_ratio old_ratio) s
apply_kind id (reference_action t) s = gap id unsupported_action s
apply_kind id (cash_dividend amount currency) s = s

-- One round of the loop of `adjust_position_with_gaps`.
unfoldable pub adjust_by : Text → Adjusting → CorporateAction → Adjusting
adjust_by name s a =
    if not (a.header.symbol == name) || is_in s.applied_ids a.header.id
    then s
    else if meets a.header.supersedes_chain s.applied_ids
    then gap a.header.id revised_action_requires_replay s
    else apply_kind a.header.id a.kind s

unfoldable pub adjust_all : Text → Adjusting → List CorporateAction → Adjusting
adjust_all name s [] = s
adjust_all name s (a ∷ actions) = adjust_all name (adjust_by name s a) actions

unfoldable pub adjust_position_with_gaps :
    Position → List CorporateAction → Position × List CorporateActionGap
adjust_position_with_gaps p actions =
    let s =
      adjust_all p.symbol
        (record { quantity = p.quantity; applied_ids = p.applied_split_ids; gaps = [] })
        (sort_by action_lt (unique_actions actions)) in
    (record { symbol = p.symbol; quantity = s.quantity; applied_split_ids = s.applied_ids }, s.gaps)

unfoldable pub adjust_position : Position → List CorporateAction → Position
adjust_position p actions = (adjust_position_with_gaps p actions).0
