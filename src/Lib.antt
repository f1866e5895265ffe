-- ===== src/Lib.antt =====
-- AIstock: the deterministic core of the paper-trading backend, backend/src/stock_platform.
--
-- Agents propose target weights; everything that turns a proposal into an order, a fill, ledger
-- entries and a position is deterministic code, and that is what is modelled here:
--
--   proposals -> Risk.Gateway.evaluate -> orders -> Execution.execute -> fills
--     -> Accounting.apply_fill / reverse_fill -> ledger -> Position.rebuild_positions, Nav.rebuild_nav
--   bars -> Valuation.visible_bar_prices -> prices; CorporateActions -> positions and ledger
--   a run of the agents: Harness.Task (what it may do), Harness.Controller and Harness.Budget (how
--     much), Harness.Approval (what a human decided)
--   lessons of past runs -> Learning: candidates of a policy, which humans approve, activate, roll back
--   providers -> MarketData.Fallback -> bars; anomalies -> Alerting.Outbox -> notifications
--
-- Files and the code that they model (paths below backend/src/stock_platform):
--   Common, Int, Dict: lists, results, texts, integers and Python dicts; no code of the program.
--   Decimal: Python's decimal.Decimal, which the code uses throughout.
--   Domain/Ids, Domain/Time, Domain/Money: domain/common/ids.py, time.py, money.py.
--   Portfolio/Order, Fill, Ledger, Position, Nav: domain/portfolio/order.py, fill.py, ledger.py,
--     position.py, nav.py.
--   Portfolio/Valuation, Allocation, Execution, Accounting, CorporateActions: the file of that name
--     in application/portfolio.
--   Portfolio/Risk: application/portfolio/risk.py. Inputs and Decision are its dataclasses, Gateway is
--     RiskGateway; Limits, Valid, Gate, Fits and Total hold the proofs.
--   Harness/Controller, Harness/Budget: agents/harness/budget.py, trace.py, checkpoint.py.
--   Harness/Approval: agents/harness/approval.py.
--   Harness/Task: agents/harness/policy.py, completion.py, task_spec.py.
--   Learning/Policy: domain/learning/policy.py; Learning/Repository, Learning/Postgres: the service and
--     the two repositories of application/learning/promotion.py. Effect, Moves, Returned, Rows and the
--     modules named in the results hold the proofs.
--   Learning/Outcome: domain/learning/outcome.py, attribution.py, application/learning/eligibility.py.
--   Learning/Lesson: domain/learning/lesson.py, application/learning/replay.py, approval.py.
--   Alerting/Features: application/alerting/features.py. Alerting/Rules: rules.py and dedup.py there.
--   Alerting/Outbox: application/alerting/outbox.py, its messages, store in memory and dispatcher.
--   MarketData/Fallback: application/market_data/fallback.py and the responses of
--     infrastructure/providers/base.py. MarketData/Quality: quality.py there.
--   Modules named Tests run the definitions on concrete inputs.
--
-- How the state corresponds: a dataclass is a record, and its constructor with __post_init__ is a
-- function into Result (Exception or value), from a record of arguments where the checks may refuse
-- them. A generator over a dict is a fold over an association list in insertion order. The controller
-- of a run is explicit state: an action returns its result and the controller, also when it raises, so
-- that what was changed before an exception stays changed.
--
-- Bounds: a Decimal is an integer coefficient and a scale; operations round half to even to 28
-- significant digits, as the default context does. There are no exponent limits, no negative zero and
-- no NaN arithmetic: the constructors refuse what is not finite before it is used. Times are
-- microseconds of one clock, UUIDs are numbers, texts are lists of code points. upper and lower are
-- exact as far as the result is a text of ASCII (Domain/Ids); casefold and isalpha are those of ASCII.
-- An identity that the code hashes from isoformat() is keyed by the instant. Loops are structural recursion; the only fuel is in the digits of a number, where the number
-- itself bounds them (Harness.Controller.decimal_text), and in the 32 digits of a UUID.
--
-- Parameters: uuid5 of an identity text, the clock, the redaction of trace payloads, the adapters of
-- notification channels and the data providers, which may answer differently at each call, and the square and the
-- square root of a decimal.
--
-- Not modelled: the SQL stores but that of policies (PostgresPaperAccountingStore, PostgresAlertStore,
-- PostgresCorporateActionStore), research, runs, ingestion, the HTTP API, the workers and the language-model graphs.
pub mod Common
pub mod Int
pub mod Dict
pub mod Alerting
pub mod Decimal
pub mod Domain
pub mod Harness
pub mod Learning
pub mod MarketData
pub mod Portfolio
