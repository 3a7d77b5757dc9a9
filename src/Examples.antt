-- ===== src/Examples.antt =====
-- Concrete inputs at which the theorems about the code of src/ and include/ are applied.
mod Samples
mod Completing
mod Choosing
mod Running
mod Building
mod Storing
mod Timing
mod Pooling
mod Threads
mod Regions
mod Mains
mod Flat
