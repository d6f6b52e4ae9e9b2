-- ===== src/Fees/Statement/Verdicts.antt =====
-- When two valuations count as the same positions at two prices.
use firstrade_platform.Prelude.{Option}
