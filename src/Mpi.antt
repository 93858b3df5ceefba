-- ===== src/Mpi.antt =====
-- src/components/mpi: operations that are carried out by MPI, whose calls are parameters.
pub mod Progresser
pub mod Transfer
