-- ===== src/Portfolio/Nav/Cutoff.antt =====
-- The valuation of a portfolio at a time looks at nothing that comes later.
use aistock.Decimal.{Decimal}
use aistock.Dict.{Dict}
