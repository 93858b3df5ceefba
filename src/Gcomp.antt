-- ===== src/Gcomp.antt =====
-- src/components/gcomp: the computations on the host.
pub mod Sum
pub mod Operator
pub mod Post
