-- ===== src/Fees.antt =====
-- application/firstrade_fee_schedule.py and application/statement_reconciliation.py: fees of a sale
-- and the explanation of gaps between statements.
pub mod Decimals
pub mod Schedule
pub mod Statement
pub mod Report
mod Tests
