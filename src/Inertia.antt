-- ===== src/Inertia.antt =====
-- Package inertia: the props of a page (inertia/).
pub mod Notes
pub mod Props
pub mod Resolver
