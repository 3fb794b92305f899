-- ===== src/Database.antt =====
-- The reader of terrain databases: src/core/database.cpp. Its parsers stand in the order of the
-- file: the bytes, the header, the chunk directory, the registries, the tile index, the tiles, the queries.
pub mod Bytes
pub mod Text
pub mod Header
pub mod Chunks
pub mod Registry
pub mod Datasets
pub mod Packs
pub mod Index
pub mod Floats
pub mod Provenance
pub mod Open
pub mod Channels
pub mod Tiles
pub mod ReadTile
pub mod Query
