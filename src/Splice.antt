-- ===== src/Splice.antt =====
-- saltyrtc/splice: what the server uses to delete a user's data by synthesis.
pub mod Constraints
pub mod Conjunction
pub mod Grammar
pub mod Order
pub mod Synthesis
pub mod HashTable
pub mod Taint
pub mod Tags
pub mod Strings
pub mod Tests
