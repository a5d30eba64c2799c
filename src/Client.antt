-- ===== src/Client.antt =====
-- The parts of the web client (front/src) that keep state or mirror a rule of the server.
pub mod Routes
pub mod Session
pub mod Sealed
pub mod Contracts
pub mod Countdown
pub mod FraudPage
