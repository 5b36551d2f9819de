-- ===== src/Conversion.antt =====
-- internal/conversion: the custom resources as a configuration of FRR (Frr) and as parameters of
-- the host's interfaces (Host).
pub mod Timers
pub mod Frr
pub mod Host
pub mod Agreement
pub mod Rendered
