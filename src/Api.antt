-- ===== src/Api.antt =====
-- lambda_function.py: the car health API, from the records of one device to its reports.
pub mod Values
pub mod PyText
pub mod Dtc
pub mod Merge
pub mod Health
pub mod Maintenance
pub mod Event
pub mod Trip
pub mod Handler
mod Tests
