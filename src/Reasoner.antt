-- ===== src/Reasoner.antt =====
-- include/sai/reasoner and src/reasoner: from facts and resolved rules to a verdict with its evidence.
pub mod Trace
pub mod Tree
pub mod Score
pub mod Walk
pub mod Landing
pub mod Evidence
pub mod Loader
pub mod Reason
pub mod Outcome
pub mod Links
mod Tests
mod LoaderTests
