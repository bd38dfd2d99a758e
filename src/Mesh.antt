-- ===== src/Mesh.antt =====
-- The mesh of server nodes: src/services/mesh-client.
pub mod Registry
