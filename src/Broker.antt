-- ===== src/Broker.antt =====
-- application/firstrade_client.py, application/account_payload_utils.py and
-- application/runtime_broker_adapters.py: the broker's side of the program.
pub mod Payload
pub mod Fields
pub mod Order
pub mod Accounts
pub mod Adapters
pub mod Session
pub mod Orders
mod Tests
