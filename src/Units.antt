-- ===== src/Units.antt =====
-- modules/units: the units of the pizzeria.
pub mod Cnpj
pub mod Schema
pub mod Repository
pub mod Service
pub mod Controller
pub mod Reach
