-- ===== src/Psu.antt =====
-- instro/psu: the power supply and its simulator.
pub mod Driver
pub mod Instro
pub mod Sim
