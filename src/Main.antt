-- ===== src/Main.antt =====
-- `main` of mpipin.c.
pub mod Options
pub mod Enter
pub mod Meeting
pub mod Program
