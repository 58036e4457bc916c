-- ===== src/Abi/Runs.antt =====
-- The passes of the serializer and what they compute.
pub mod HeadSize
pub mod TailSize
pub mod Head
pub mod Tail
