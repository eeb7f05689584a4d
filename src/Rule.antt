-- ===== src/Rule.antt =====
-- include/sai/rule and src/rule: facts, expressions, rules and their conflicts.
pub mod Double
pub mod Value
pub mod FactBase
pub mod Expression
pub mod Evaluate
pub mod Meaning
pub mod Memo
pub mod Safety
pub mod Engine
pub mod Conflict
pub mod Overlap
pub mod GraphPaths
pub mod FactBuilder
pub mod VectorFacts
pub mod Yaml
pub mod Condition
pub mod Loader
pub mod Sample
mod Tests
mod OverlapTests
mod FactTests
mod LoaderTests
mod ConflictTests
mod ConditionTests
