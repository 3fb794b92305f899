-- ===== src/Lib.antt =====
-- The lunar terrain builder packs elevation tiles of the Moon into a container of its own (a
-- manifest, LTDB, and pack files, LTP) and reads them back. This library models the parts of the
-- C++ program that decide how tiles are named, laid out, encoded and found.
--
-- - Base: names of the libraries, Boolean tests, lists, machine words and counted loops.
-- - Error: include/lunar/terrain/error.hpp, src/core/error.cpp and include/lunar/terrain/result.hpp.
--   A function that returns `Result<T>` is one into `Result`; early returns are `fail_if` and the
--   bind of a do block.
-- - TileKey: include/lunar/terrain/tile_key.hpp and src/core/tile_key.cpp, with the text form in
--   TileKey.Text. A key is its 64 bits; the order of keys is the order of these.
-- - Topology: include/lunar/terrain/qsc_topology.hpp and src/core/qsc_topology.cpp, the edges of the
--   cube and the neighbours of a tile across them.
-- - ByteIo: include/lunar/terrain/byte_io.hpp and src/core/byte_io.cpp, the checked little-endian
--   reader. ByteWriter: the byte-buffer helpers of src/builder/container_writer.cpp.
-- - Codec: `reverse_delta2d_u16` of src/core/codec.cpp, and the encoder in
--   src/builder/container_writer.cpp.
-- - Packing: src/builder/packing.cpp, which cuts the sorted tiles into pack files.
-- - Integrity: the checksum of src/core/integrity.cpp and the digest accumulator of
--   src/core/database.cpp.
-- - Database: the reader in src/core/database.cpp, parser by parser: Header, Chunks, Registry (the
--   strings and the datasets), Datasets, Packs, Index, Open (`parse_database`), and the queries of
--   `LunarTerrainDatabase` in Query.
--   The tiles follow in Provenance, Channels (the loop over the channel records), Tiles
--   (`decode_tile`) and ReadTile (`read_tile` and `ReadTile`). Floats has the arithmetic they use.
-- - Zstandard: `decompress_zstandard` of src/core/codec.cpp.
-- - TaskExecutor: `run_bounded_tasks` of src/builder/task_executor.cpp. A worker's turn is one access
--   to a shared variable, and a run is a list of turns and stop requests in any order.
-- - Hierarchy: `materialized_child_masks` and `nearest_materialized_ancestor` of
--   src/builder/hierarchy.cpp.
-- - Digest: the text form of a digest, src/core/digest.cpp.
-- - Execution: `check_execution` of src/builder/telemetry.cpp.
-- - Operators: `diff_databases` of src/builder/operators.cpp, the comparison of two databases.
-- - Validation: `validate_seams` and `validate_hierarchy` of src/builder/builder.cpp.
-- - Staging: src/builder/tile_staging.cpp. Corners holds the indices into a core and the part of
--   `resolve_elevation_boundaries` that collects its calls of `unite` and its patches, UnionFind
--   `find_root` and `unite`, Artifact `serialize_staged_core` and, on the bytes of the file,
--   `load_staged_elevation_tile`; the corner groups and what follows them are not modelled.
-- - The modules called Tests apply the theorems to concrete values.
--
-- Numbers are natural numbers; where the source computes in a type of w bits the remainder by 2 ^ w
-- is written out, and `std::size_t` has 64 bits. Floating-point values are bit patterns. A span, a
-- buffer and a string are lists of bytes, a map is an association list. `std::lower_bound` on a
-- sorted list is the first element that is not less, and `std::ranges::sort` is an insertion sort.
--
-- The planner's outer loop runs on fuel, as many rounds as there are tiles: each round takes at
-- least one. The loop of `parse_strings` runs on as many rounds as the chunk has bytes: each round
-- moves on by at least four. The loop of `nearest_materialized_ancestor` has as many rounds as the
-- level of the tile: each round goes one level up. Where the fuel runs out these functions return
-- `none`. `run_bounded_tasks` is `none` where the events leave a worker at work.
--
-- OpenSSL, zstd and the arithmetic of `double` are parameters, records of their operations. So are
-- the read of a pack file and the path of a pack beside the manifest. The stop token of the planner
-- is a function from the places where the code asks it, and what `check_execution` finds is a function
-- of the count of its calls. The tasks of the executor are given by how their calls end.
--
-- The two loops of `find_root` run on the node as fuel: in the parents that `iota` and `unite` make,
-- each round goes to a smaller node.
--
-- Not modelled: opening and reading files, the floating-point geometry of
-- src/core/qsc_projection.cpp, src/builder/hierarchy.cpp, src/builder/fusion.cpp and
-- src/builder/raster_source.cpp, the parts of src/builder that call SQLite, GDAL or a TOML parser,
-- and the command line.

pub mod Base
pub mod Error
pub mod TileKey
pub mod Topology
pub mod ByteIo
pub mod ByteWriter
pub mod Codec
pub mod Packing
pub mod TaskExecutor
pub mod Hierarchy
pub mod Execution
pub mod Operators
pub mod Validation
pub mod Staging
pub mod Digest
pub mod Zstandard
pub mod Integrity
pub mod Database
pub mod Tests
