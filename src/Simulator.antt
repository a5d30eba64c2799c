-- ===== src/Simulator.antt =====
-- packages/simulator/src: synthetic bidders that drive the server, for the evaluation of the fraud
-- detector. Random draws are arguments, and so is the time.
pub mod Agents
pub mod Run
pub mod Dataset
pub mod Metrics
