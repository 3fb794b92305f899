-- ===== src/Database/Text.antt =====
-- `valid_utf8` and `portable_relative_path` of src/core/database.cpp.
use lunar_terrain_builder.Base.{
  ℕ, zero, suc, ◌+◌, ◌-◌, [], ◌∷◌, ◌++◌, Bool, true, false, not, ◌&&◌, ◌||◌, Option, none, some,
  length, get_or, leb, ◌==◌, if◌then◌else◌,
}
use lunar_terrain_builder.ByteIo.{Bytes}
use lunar_terrain_builder.TileKey.Text.{codes, bytes_eq}

-- How many continuation bytes follow a first byte above 0x7F; `none` where it starts no character.
pub continuation_count : ℕ → Option ℕ
continuation_count first =
    if leb 0xC2 first && leb first 0xDF
    then some 1
    else if leb 0xE0 first && leb first 0xEF
    then some 2
    else if leb 0xF0 first && leb first 0xF4
    then some 3
    else none

pub second_min : ℕ → ℕ
second_min first = if first == 0xE0 then 0xA0 else if first == 0xF0 then 0x90 else 0x80

pub second_max : ℕ → ℕ
second_max first = if first == 0xED then 0x9F else if first == 0xF4 then 0x8F else 0xBF

-- The loop over the continuation bytes behind the second: the next `count` bytes.
pub continued : ℕ → Bytes → Bool
continued zero bytes = true
continued (suc count) [] = false
continued (suc count) (b ∷ rest) = leb 0x80 b && leb b 0xBF && continued count rest

pub character : ℕ → Bytes → Option ℕ → Bool
unfolding second_min second_max continued
character first [] count = false
character first (second ∷ rest) none = false
character first (second ∷ rest) (some count) =
    leb count (suc (length rest))
    && leb (second_min first) second
    && leb second (second_max first)
    && continued (count - 1) rest

-- How far `index` moves at a first byte.
pub stride : ℕ → Option ℕ → ℕ
stride first none = 1
stride first (some count) = count + 1

-- The loop from `index` on. The argument `skip` counts the bytes before the next `index`, which the
-- round before has checked.
pub valid_from : Bool → ℕ → Bytes → Bool
unfolding continuation_count character
valid_from reject_nul skip [] = true
valid_from reject_nul (suc skip) (b ∷ rest) = valid_from reject_nul skip rest
valid_from reject_nul zero (first ∷ rest) =
    if leb first 0x7F
    then not (reject_nul && first == 0) && valid_from reject_nul 0 rest
    else (let count = continuation_count first in
        character first rest count && valid_from reject_nul (stride first count - 1) rest)

pub valid_utf8 : Bytes → Bool → Bool
unfolding valid_from stride
valid_utf8 text reject_nul = valid_from reject_nul 0 text

-- `value.find(c) != std::string::npos`
pub contains : ℕ → Bytes → Bool
contains c [] = false
contains c (b ∷ rest) = b == c || contains c rest

pub is_letter : ℕ → Bool
is_letter c = leb b'A' c && leb c b'Z' || leb b'a' c && leb c b'z'

-- `segment.empty() || segment == "." || segment == ".."`
pub bad_segment : Bytes → Bool
bad_segment [] = true
bad_segment (a ∷ as') = bytes_eq (a ∷ as') (codes ".") || bytes_eq (a ∷ as') (codes "..")

-- The loop over the segments; `segment` is what stands between `begin` and the place reached.
pub segments_ok : Bytes → Bytes → Bool
unfolding bad_segment
segments_ok segment [] = not (bad_segment segment)
segments_ok segment (c ∷ rest) =
    if c == b'/'
    then not (bad_segment segment) && segments_ok [] rest
    else segments_ok (segment ++ c ∷ []) rest

pub portable_relative_path : Bytes → Bool
unfolding contains is_letter segments_ok
portable_relative_path value =
    if length value == 0
      || get_or value 0 0 == b'/'
      || contains b'\\' value
      || (leb 2 (length value) && is_letter (get_or value 0 0) && get_or value 1 0 == b':')
    then false
    else segments_ok [] value
