-- ===== src/Portfolio/Risk/Fits.antt =====
-- The verdicts and the quantities that the constructor of `RiskDecision` accepts.
use aistock.Common.{
  ◌≡◌, ◌⊎◌, inl, inr, refl, true, false, List, [], ◌∷◌, arith, is_empty, ℕ_eq, text_eq, pair_eq,
  Option, none, some, ok,
}
use aistock.Decimal.{Decimal, whole, sub, mul, abs, le, lt, eq}
use aistock.Domain.Ids.{symbol}
use aistock.Domain.Time.{Instant}
use aistock.Decimal.Order.{eq_refl, le_of_not_le}
use aistock.Decimal.Sign.{
  IsNonneg, lt_zero_iff, zero_le_iff, mul-IsNonneg, div-IsNonneg, abs-IsNonneg,
}
use aistock.Portfolio.Order.{is_none}
use aistock.Portfolio.Risk.Inputs.{RiskPolicy}
use aistock.Portfolio.Risk.Decision.{
  RiskDecisionStatus, approved, clipped, rejected, RiskReason, daily_turnover, RiskDecision,
  is_rejected, order_quantity, risk_decision, check_status, check_quantity, given_nonpositive,
}
use aistock.Portfolio.Risk.Gateway.{unique_reasons, maximum_quantity, Verdict, settle}
use aistock.Portfolio.Risk.Valid.{IsPositive}

-- What holds of every decision that the gateway returns at `cutoff`: its own constructor accepts it;
-- an increase is approved up to the position limit at most; a rejection authorizes no quantity.
pub record IsSound (policy : RiskPolicy) (cutoff : Instant) (d : RiskDecision) : Type 0 where
  pub accepted : risk_decision d ≡ ok d
  pub capped :
      (lt d.current_weight d.requested_weight ≡ false)
      ⊎ (le d.approved_weight policy.max_position_weight ≡ true)
  pub powerless : (is_rejected d.status ≡ false) ⊎ (d.max_order_quantity ≡ whole 0)
  pub decided : d.decided_at ≡ cutoff

-- A verdict on a proposal of weight `requested` that the constructor accepts.
pub record Fits (requested : Decimal) (v : Verdict) : Type 0 where
  pub consistent : check_status v.status requested v.weight (unique_reasons v.reasons) ≡ ok tt
  pub weight_nonneg : IsNonneg v.weight

pub unique_reasons-nonempty :
    (rs : List RiskReason) → is_empty rs ≡ false → is_empty (unique_reasons rs) ≡ false
unfolding unique_reasons
unique_reasons-nonempty [] h = cc
unique_reasons-nonempty (r ∷ rs) h = refl

pub rejected-Fits :
    (requested : Decimal) (rs : List RiskReason)
    → is_empty rs ≡ false
    → Fits requested (record { status = rejected; weight = whole 0; reasons = rs })
rejected-Fits requested rs h = record {
  consistent = rw (eq_refl (whole 0), unique_reasons-nonempty rs h) refl;
  weight_nonneg = refl;
}

pub settle-Fits :
    (current proposed w : Decimal) (rs : List RiskReason)
    → IsNonneg w
    → (w ≡ proposed) × (rs ≡ []) ⊎ (eq w proposed ≡ false) × (is_empty rs ≡ false)
    → Fits proposed (settle current proposed (w, rs))
unfolding settle unique_reasons
settle-Fits current proposed w rs h (inl (same, none_given)) =
    ground (
      arith,
      eq_refl proposed,
      eq_refl (whole 0),
      rejected-Fits proposed (daily_turnover ∷ []) refl,
    )
settle-Fits current proposed w rs h (inr (moved, given)) =
    ground (arith, unique_reasons-nonempty rs given, rejected-Fits proposed rs given)

-- The price at hand when a quantity is authorized.
abbrev pub nav_with : Decimal → Option Decimal → Option Decimal
nav_with nav price = elim price [ none ↦ none | some _ ↦ some nav ]

IsNonneg-of_positive : (d : Decimal) → IsPositive d → IsNonneg d
IsNonneg-of_positive d h = (zero_le_iff d).0 (le_of_not_le d (whole 0) h)

pub maximum_quantity-nonneg :
    (status : RiskDecisionStatus) (delta nav : Decimal) (price : Option Decimal)
    → IsPositive nav
    → given_nonpositive price ≡ false
    → lt (maximum_quantity status delta nav price) (whole 0) ≡ false
unfolding maximum_quantity
maximum_quantity-nonneg status delta nav none h k = (lt_zero_iff (whole 0)).1 refl
maximum_quantity-nonneg status delta nav (some price) h k =
    let quantity =
      div-IsNonneg (mul (abs delta) nav) price
        (mul-IsNonneg (abs delta) nav (abs-IsNonneg delta) (IsNonneg-of_positive nav h))
        (IsNonneg-of_positive price k) in
    ground (
      arith,
      (lt_zero_iff (whole 0)).1 refl,
      (lt_zero_iff (order_quantity delta nav price)).1 quantity,
    )

pub check_quantity-ok :
    (status : RiskDecisionStatus) (delta nav : Decimal) (price : Option Decimal)
    → (is_rejected status ≡ true) ⊎ ((d : Decimal) × (price ≡ some d))
    → check_quantity status delta
        (maximum_quantity status delta nav price)
        (nav_with nav price)
        price
      ≡ ok tt
unfolding maximum_quantity
check_quantity-ok status delta nav none (inl r) = ground (arith, eq_refl (whole 0))
check_quantity-ok status delta nav none (inr (d, e)) = cc
check_quantity-ok status delta nav (some price) h =
    ground (arith, eq_refl (whole 0), eq_refl (order_quantity delta nav price))

pub nav_with-positive :
    (nav : Decimal) (price : Option Decimal)
    → IsPositive nav
    → given_nonpositive (nav_with nav price) ≡ false
nav_with-positive nav none h = refl
nav_with-positive nav (some price) h = h

-- What the constructor asks for.
pub risk_decision-accepts :
    (d : RiskDecision)
    → symbol d.symbol ≡ ok d.symbol
    → lt d.requested_weight (whole 0) ≡ false
    → lt d.approved_weight (whole 0) ≡ false
    → lt d.current_weight (whole 0) ≡ false
    → lt d.max_order_quantity (whole 0) ≡ false
    → given_nonpositive d.reference_nav ≡ false
    → given_nonpositive d.reference_price ≡ false
    → eq d.approved_delta (sub d.approved_weight d.current_weight) ≡ true
    → is_none d.market_context_snapshot_id ≡ false
    → check_status d.status d.requested_weight d.approved_weight d.reason_codes ≡ ok tt
    → check_quantity d.status d.approved_delta d.max_order_quantity d.reference_nav
        d.reference_price
      ≡ ok tt
    → risk_decision d ≡ ok d
unfolding risk_decision
risk_decision-accepts d s q w c m n p e k h j = simp (s, q, w, c, m, n, p, e, k, h, j)

pub rejected_quantity :
    (status : RiskDecisionStatus) (delta nav : Decimal) (price : Option Decimal)
    → (is_rejected status ≡ false) ⊎ (maximum_quantity status delta nav price ≡ whole 0)
unfolding maximum_quantity
rejected_quantity rejected delta nav none = inr refl
rejected_quantity rejected delta nav (some price) = ground arith
rejected_quantity approved delta nav price = inl refl
rejected_quantity clipped delta nav price = inl refl
