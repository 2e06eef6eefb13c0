-- ===== src/Tests.antt =====
-- Concrete runs, and the theorems at concrete inputs.
mod Job
mod Machine
mod Bits
mod Bitmaps
mod Pinning
mod Regions
mod Setup
mod Folding
mod Sysfs
mod Ranges
mod Shifts
mod Areas
mod Start
mod Program
