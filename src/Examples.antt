-- ===== src/Examples.antt =====
-- Runs of the model at concrete inputs: a small plant, and one module for each part of the program.
pub mod ToyValue
pub mod ToyJson
pub mod Toy
pub mod Plant
pub mod States
pub mod Schedules
pub mod Names
pub mod Rounds
pub mod Course
pub mod Starts
pub mod References
pub mod Initial
pub mod Created
pub mod Stored
pub mod Entries
pub mod Output
pub mod Controllers
