-- ===== src/Portfolio/Valuation/Revisions.antt =====
-- What the choice of revisions and of the latest bars keeps.
use aistock.Common.{
  ◌<◌, ◌≤◌, ◌≡◌, ◌⊎◌, inl, inr, refl, sym, subst, ok-injective, >>=-eq-ok, filter-All, All-Memᴰ,
  true, false, List, [], ◌∷◌, map, arith, Text, filter, ℕ_eq, text_eq, pair_eq, Option, none, some,
  ok, All,
}
use aistock.Decimal.{Decimal}
use aistock.Domain.Time.{aware, Instant}
use aistock.Dict.{Dict, lookup, insert, values}
use mathlib.Core.List.{Memᴰ}
use aistock.Dict.{All-insert, All-insert_entry}
use aistock.Portfolio.Fill.{ExecutionBar}
use aistock.Portfolio.Valuation.{
  Revisions, revise, revisions_from, keep_latest, latest_from, is_visible, visible_bar_prices,
}

module _ {ℓ} (P : ExecutionBar → Type ℓ) where
  revise-All :
      (bar : ExecutionBar) (known : Option ExecutionBar) (d d' : Revisions)
      → P bar
      → All P (values d)
      → revise bar known d ≡ ok d'
      → All P (values d')
  unfolding revise
  revise-All bar none d d' p h e =
      ground (arith, All-insert P (bar.symbol, bar.event_time) bar d p h)
  revise-All bar (some c) d d' p h e =
      ground (arith, All-insert P (bar.symbol, bar.event_time) bar d p h)

  -- The revisions are bars that were given.
  pub revisions_from-All :
      (d : Revisions) (bars : List ExecutionBar) (d' : Revisions)
      → All P (values d)
      → All P bars
      → revisions_from d bars ≡ ok d'
      → All P (values d')
  unfolding revisions_from
  revisions_from-All d [] d' h k e = subst (λ (x : Revisions). All P (values x)) (ok-injective e) h
  revisions_from-All d (bar ∷ bars) d' h k e =
      let (known, first, rest) =
        >>=-eq-ok (revise bar (lookup (bar.symbol, bar.event_time) d) d)
          (λ (x : Revisions). revisions_from x bars) e in
      revisions_from-All known bars d'
        (revise-All bar (lookup (bar.symbol, bar.event_time) d) d known k.0 h first) k.1 rest

-- An entry of the latest bars: a bar with the property, under its own symbol.
abbrev IsUnder {ℓ} : (ExecutionBar → Type ℓ) → Text × ExecutionBar → Type ℓ
IsUnder P (s, bar) = P bar × (bar.symbol ≡ s)

keep_latest_cases :
    (bar : ExecutionBar) (d : Dict Text ExecutionBar)
    → (keep_latest bar d ≡ insert bar.symbol bar d) ⊎ (keep_latest bar d ≡ d)
unfolding keep_latest
keep_latest_cases bar d = ground arith

module _ {ℓ} (P : ExecutionBar → Type ℓ) where
  keep_latest-All :
      (bar : ExecutionBar) (d : Dict Text ExecutionBar)
      → P bar
      → All (IsUnder P) d
      → All (IsUnder P) (keep_latest bar d)
  keep_latest-All bar d p h = elim (keep_latest_cases bar d) [
    | inl new ↦
        subst (All (IsUnder P)) (sym new)
          (All-insert_entry (IsUnder P) bar.symbol bar d (p, refl) h)
    | inr same ↦ subst (All (IsUnder P)) (sym same) h
  ]

  pub latest_from-All :
      (d : Dict Text ExecutionBar) (bars : List ExecutionBar)
      → All (IsUnder P) d
      → All P bars
      → All (IsUnder P) (latest_from d bars)
  unfolding latest_from
  latest_from-All d [] h k = h
  latest_from-All d (bar ∷ bars) h k =
      latest_from-All (keep_latest bar d) bars (keep_latest-All bar d k.0 h) k.1

-- A price that is the opening price of a bar of its symbol, visible at both cutoffs.
pub record IsVisiblePrice (bars : List ExecutionBar) (event_time available_at : Instant)
    (entry : Text × Decimal) : Type 0 where
  pub bar : ExecutionBar
  pub given : Memᴰ bar bars
  pub of_symbol : bar.symbol ≡ entry.0
  pub happened : bar.event_time ≤ event_time
  pub available : bar.available_at ≤ available_at
  pub at_open : entry.1 ≡ bar.open_price

module _ (bars : List ExecutionBar) (event_time available_at : Instant) where
  abbrev Source : ExecutionBar → Type 0
  Source bar = Memᴰ bar bars × (is_visible event_time available_at bar ≡ true)

  prices-All :
      (d : Dict Text ExecutionBar)
      → All (IsUnder Source) d
      → All
          (IsVisiblePrice bars event_time available_at)
          (map (λ (p : Text × ExecutionBar). (p.0, p.1.open_price)) d)
  prices-All [] h = tt
  prices-All ((s, bar) ∷ d) h = (
    record {
      bar = bar;
      given = h.0.0.0;
      of_symbol = h.0.1;
      happened = visible_event bar h.0.0.1;
      available = visible_available bar h.0.0.1;
      at_open = refl;
    },
    prices-All d h.1,
  )
    where
      visible_event :
          (bar : ExecutionBar)
          → is_visible event_time available_at bar ≡ true
          → bar.event_time ≤ event_time
      visible_event bar h = ground arith

      visible_available :
          (bar : ExecutionBar)
          → is_visible event_time available_at bar ≡ true
          → bar.available_at ≤ available_at
      visible_available bar h = ground arith

  -- Every price that is returned is the opening price of one of the bars, of the symbol that it
  -- stands under, that opened by the event cutoff and was available by the other one.
  pub visible_bar_prices_sound :
      (prices : Dict Text Decimal)
      → visible_bar_prices bars (aware event_time) (aware available_at) ≡ ok prices
      → All (IsVisiblePrice bars event_time available_at) prices
  unfolding visible_bar_prices
  visible_bar_prices_sound prices e =
      let seen = filter (is_visible event_time available_at) bars in
      let (revisions, found, rest) =
        >>=-eq-ok (revisions_from [] seen)
          (λ (r : Revisions).
            ok (
              map (λ (p : Text × ExecutionBar). (p.0, p.1.open_price)) (latest_from [] (values r))))
          e in
      subst (λ (x : Dict Text Decimal). All (IsVisiblePrice bars event_time available_at) x)
        (ok-injective rest)
        (prices-All (latest_from [] (values revisions)) (
          latest_from-All Source [] (values revisions) tt (
            revisions_from-All Source [] seen revisions tt
              (filter-All (λ b. Memᴰ b bars) (is_visible event_time available_at) bars
                (All-Memᴰ bars))
              found)))

  -- The second list is the first one with bars added, anywhere, that opened after the event cutoff or
  -- were available only after the other one.
  pub data AddsLater : List ExecutionBar → List ExecutionBar → Type 0 where
    none_left : AddsLater [] []
    given_bar :
        (bar : ExecutionBar) (known more : List ExecutionBar)
        → AddsLater known more
        → AddsLater (bar ∷ known) (bar ∷ more)
    later_bar :
        (bar : ExecutionBar) (known more : List ExecutionBar)
        → (event_time < bar.event_time) ⊎ (available_at < bar.available_at)
        → AddsLater known more
        → AddsLater known (bar ∷ more)

  later_unseen :
      (bar : ExecutionBar)
      → (event_time < bar.event_time) ⊎ (available_at < bar.available_at)
      → is_visible event_time available_at bar ≡ false
  later_unseen bar h = ground arith

  AddsLater-filter :
      (known more : List ExecutionBar)
      → AddsLater known more
      → filter (is_visible event_time available_at) more
        ≡ filter (is_visible event_time available_at) known
  AddsLater-filter _ _ none_left = refl
  AddsLater-filter _ _ (given_bar bar known more h) = rw (AddsLater-filter known more h) refl
  AddsLater-filter _ _ (later_bar bar known more late h) =
      rw (later_unseen bar late) (AddsLater-filter known more h)

  -- No look-ahead: bars that opened after the event cutoff, or were available only after the other
  -- one, change neither the prices nor an error, wherever they stand among the others.
  pub visible_bar_prices-AddsLater :
      (more : List ExecutionBar)
      → AddsLater bars more
      → visible_bar_prices more (aware event_time) (aware available_at)
        ≡ visible_bar_prices bars (aware event_time) (aware available_at)
  unfolding visible_bar_prices
  visible_bar_prices-AddsLater more h = rw (AddsLater-filter bars more h) refl
