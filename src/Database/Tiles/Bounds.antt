-- ===== src/Database/Tiles/Bounds.antt =====
-- Where the channel records stand that `decode_tile` reads.
use lunar_terrain_builder.Base.{ℕ, ◌+◌, ◌*◌, ◌^◌, ◌≤◌, ◌<◌, ◌≡◌, arith, String, true, length, u64}
use lunar_terrain_builder.Error.{success}
use lunar_terrain_builder.ByteIo.{Bytes}
use lunar_terrain_builder.ByteWriter.{align8}
use lunar_terrain_builder.ByteWriter.Laws.{align8_least}
use lunar_terrain_builder.Database.Bytes.{read_u16, read_u32, range_fits}
use lunar_terrain_builder.Database.Index.{TileIndexEntry}
use lunar_terrain_builder.Database.Channels.{channel_record}
use lunar_terrain_builder.Database.Tiles.{framing_ok, check_tile_header}

check_tile_header-framed :
    (payload : Bytes) (entry : TileIndexEntry) (path : String)
    → check_tile_header payload entry path ≡ success tt
    → framing_ok payload (read_u16 payload 20) ≡ true
unfolding check_tile_header
check_tile_header-framed payload entry path h = ground arith

framing_ok-facts :
    (payload : Bytes) (n : ℕ)
    → framing_ok payload n ≡ true
    → (read_u32 payload 56 ≡ n * channel_record)
      × (read_u32 payload 60 ≡ align8 (u64 (read_u32 payload 52 + read_u32 payload 56)))
      × (read_u32 payload 52 + read_u32 payload 56 ≤ length payload)
      × (read_u32 payload 60 ≤ length payload)
unfolding framing_ok range_fits
framing_ok-facts payload n h = (ground arith, ground arith, ground arith, ground arith)

-- Where the tests of the header go through on a payload that memory can hold, the channel records
-- that the loop reads lie in front of the data region, and that starts in the payload.
pub check_tile_header-in_bounds :
    (payload : Bytes) (entry : TileIndexEntry) (path : String) (i : ℕ)
    → length payload + 8 ≤ 2 ^ 64
    → check_tile_header payload entry path ≡ success tt
    → i < read_u16 payload 20
    → (read_u32 payload 52 + i * channel_record + channel_record ≤ read_u32 payload 60)
      × (read_u32 payload 60 ≤ length payload)
check_tile_header-in_bounds payload entry path i small h lt =
    let (size, region, fits, inside) =
      framing_ok-facts payload (read_u16 payload 20)
        (check_tile_header-framed payload entry path h) in
    let whole : u64 (read_u32 payload 52 + read_u32 payload 56)
        ≡ read_u32 payload 52 + read_u32 payload 56 =
      omega arith in
    let after = align8_least (u64 (read_u32 payload 52 + read_u32 payload 56)) (omega arith) in
    (omega (arith, size, region, after, whole), inside)
