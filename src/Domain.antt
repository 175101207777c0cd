-- ===== src/Domain.antt =====
-- app/domain: the pipelines that the server owns.
pub mod Content
pub mod Pipelines
pub mod Catalog
pub mod Graphs
pub mod Positions
