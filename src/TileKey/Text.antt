-- ===== src/TileKey/Text.antt =====
-- The text form QSC/Ff/Lll/xxxx/yyyy: `parse` and `to_string` of src/core/tile_key.cpp. A string is
-- the list of its bytes.
pub mod Decimal
pub mod Equality
pub mod Canonical
use Prim.Native.Char.{code}
use Prim.Native.String.{String}
use lunar_terrain_builder.Base.{
  ℕ, zero, suc, ◌+◌, ◌-◌, ◌*◌, ◌/◌, ◌%◌, Bool, true, false, not, ◌&&◌, ◌||◌, Option, none, some,
  List, [], ◌∷◌, ◌++◌, length, drop, get_or, replicate, ltb, leb, ◌==◌, ◌/=◌, if◌then◌else◌,
  u32_max,
}
use lunar_terrain_builder.Error.{ErrorCode, make_error, Result, success, failure, ◌>>=◌}
use lunar_terrain_builder.TileKey.{LunarTileKey, face, level, x, y, create}

abbrev pub Bytes : Type 0
Bytes = List ℕ

-- The bytes of an ASCII literal.
abbrev pub codes : String → Bytes
codes String.[] = []
codes (String.◌∷◌ c s) = code c ∷ codes s

unfoldable pub bytes_eq : Bytes → Bytes → Bool
bytes_eq [] [] = true
bytes_eq [] (b ∷ bs) = false
bytes_eq (a ∷ as') [] = false
bytes_eq (a ∷ as') (b ∷ bs) = a == b && bytes_eq as' bs

pub is_digit : ℕ → Bool
is_digit c = leb b'0' c && leb c b'9'

-- `std::from_chars` on a `std::uint32_t`: the longest run of digits, its value, and what follows;
-- `none` is an error code (no digit, or a value out of range).
pub digits_run : ℕ → Bytes → ℕ × Bytes
digits_run acc [] = (acc, [])
digits_run acc (c ∷ cs) =
    if is_digit c then digits_run (acc * 10 + (c - b'0')) cs else (acc, c ∷ cs)

pub from_chars : Bytes → Option (ℕ × Bytes)
unfolding is_digit digits_run
from_chars [] = none
from_chars (c ∷ cs) =
    if is_digit c
    then (let (v, rest) = digits_run 0 (c ∷ cs) in if leb v u32_max then some (v, rest) else none)
    else none

at_end : Option (ℕ × Bytes) → Option ℕ
at_end none = none
at_end (some (v, [])) = some v
at_end (some (v, c ∷ cs)) = none

-- The result parameter of the source is the value in `some`.
pub parse_decimal : Bytes → Option ℕ
unfolding from_chars at_end
parse_decimal [] = none
parse_decimal (c ∷ cs) = at_end (from_chars (c ∷ cs))

-- `text.find('/', begin)`, with the text before the slash and the text behind it.
pub find_slash : Bytes → Option (Bytes × Bytes)
find_slash [] = none
find_slash (c ∷ cs) =
    if c == b'/'
    then some ([], cs)
    else elim (find_slash cs) [ none ↦ none | some (before, rest) ↦ some (c ∷ before, rest) ]

-- The loop of `split_key`, by the number of parts still to read; `none` is `return {}`.
pub split_parts : ℕ → Bytes → Option (List Bytes)
unfolding find_slash
split_parts zero text = none
split_parts (suc zero) text = elim (find_slash text) [ none ↦ some (text ∷ []) | some p ↦ none ]
split_parts (suc (suc n)) text = elim (find_slash text) [
  | none ↦ none
  | some (before, rest) ↦ elim (split_parts (suc n) rest) [
    | none ↦ none
    | some parts ↦ some (before ∷ parts)
  ]
]

pub split_key : Bytes → List Bytes
unfolding split_parts
split_key text = elim (split_parts 5 text) [ none ↦ replicate 5 [] | some parts ↦ parts ]

-- `std::ostream << unsigned`; 20 digits hold every 64-bit value.
pub decimal_digits : ℕ → ℕ → Bytes
decimal_digits zero n = []
decimal_digits (suc fuel) n =
    let more = decimal_digits fuel (n / 10) in
    if ltb n 10 then (b'0' + n) ∷ [] else more ++ (b'0' + n % 10) ∷ []

pub decimal : ℕ → Bytes
unfolding decimal_digits
decimal n = decimal_digits 20 n

-- `std::setfill('0') << std::setw(width)`
pub padded : ℕ → Bytes → Bytes
padded width text = replicate (width - length text) b'0' ++ text

pub to_string : LunarTileKey → Bytes
unfolding decimal padded
to_string k =
    codes "QSC/F"
    ++ (decimal (face k)
        ++ (codes "/L"
            ++ (padded 2 (decimal (level k))
                ++ (b'/' ∷ (padded 4 (decimal (x k)) ++ (b'/' ∷ padded 4 (decimal (y k))))))))

pub bad_form : List Bytes → Bool
unfolding bytes_eq
bad_form parts =
    not (bytes_eq (get_or parts 0 []) (codes "QSC"))
    || length (get_or parts 1 []) /= 2
    || get_or (get_or parts 1 []) 0 0 /= b'F'
    || length (get_or parts 2 []) /= 3
    || get_or (get_or parts 2 []) 0 0 /= b'L'
    || ltb (length (get_or parts 3 [])) 4
    || ltb (length (get_or parts 4 [])) 4

bad_field : Result ℕ
bad_field = failure (make_error ErrorCode.parse_error "tile key contains an invalid decimal field")

pub field : Bytes → Result ℕ
unfolding parse_decimal bad_field
field text = elim (parse_decimal text) [ none ↦ bad_field | some v ↦ success v ]

-- The test on the spelling that ends `parse`.
pub spelled : Bytes → LunarTileKey → Result LunarTileKey
unfolding bytes_eq to_string
spelled text k =
    if bytes_eq (to_string k) text
    then success k
    else failure (make_error ErrorCode.parse_error "tile key spelling is not canonical")

pub parse : Bytes → Result LunarTileKey
unfolding split_key bad_form field spelled
parse text =
    let parts = split_key text in
    if bad_form parts
    then failure (
        make_error ErrorCode.parse_error
          "tile key does not use canonical QSC/Ff/Lll/xxxx/yyyy form")
    else do
      f ← field (drop 1 (get_or parts 1 []))
      l ← field (drop 1 (get_or parts 2 []))
      a ← field (get_or parts 3 [])
      b ← field (get_or parts 4 [])
      k ← create f l a b
      spelled text k
