-- ===== src/Frr.antt =====
-- internal/frr: the configuration of FRR (Config), its text (Template) and its
-- application (Apply), and what vtysh prints (Parse).
pub mod Config
pub mod Template
pub mod Apply
pub mod Parse
