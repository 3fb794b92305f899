-- ===== src/Staging.antt =====
-- src/builder/tile_staging.cpp: the elevation samples of a tile before their quantization, kept in a
-- file of their own, and the corners and edges that neighbouring tiles share.
pub mod UnionFind
pub mod Corners
pub mod Artifact
mod Tests
