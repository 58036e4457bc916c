-- ===== src/Abi.antt =====
-- The encoding of src/abiencode.
pub mod Bytes
pub mod Value
pub mod Ser
pub mod Spec
pub mod Passes
pub mod Writes
pub mod Element
pub mod Runs
pub mod Words
pub mod Static
pub mod Sizes
pub mod Refinement
pub mod Correct
pub mod Negative
