-- ===== src/Tests.antt =====
-- The theorems applied to concrete tiles, buffers and databases.
mod Keys
mod Bytes
mod Databases
