-- ===== src/Audio/Formats.antt =====
-- audio.c: `sfmt_same_bps` and `sfmt_best_matching`.
-- A mask of formats is the number that C has; a single format is a value of the type.
pub mod Preferred
pub mod Best
use mocp.Prelude.{
  ℕ, ◌+◌, ◌/◌, ◌%◌, ◌^◌, ◌≤◌, ◌≡◌, refl, Bool, true, false, not, ◌&&◌, ◌||◌, Option, none, some,
  List, [], ◌∷◌, ◌==◌, if◌then◌else◌, leb, arith, inl, inr, Bool-cases, ap, sym, ◌∙◌,
}
use mocp.Sound.{Format}
use mocp.Sound.Format.{s8, u8, s16, u16, s24, u24, s32, u32, s24_3, u24_3, float}

-- the bit of a format in `enum sfmt_type`
abbrev pub bit : Format → ℕ
bit s8 = 0
bit u8 = 1
bit s16 = 2
bit u16 = 3
bit s24 = 4
bit u24 = 5
bit s32 = 6
bit u32 = 7
bit s24_3 = 8
bit u24_3 = 9
bit float = 10

-- `m & (1 << k)`
unfoldable pub has_bit : ℕ → ℕ → Bool
has_bit m k = m / 2 ^ k % 2 == 1

abbrev pub has : ℕ → Format → Bool
has m f = has_bit m (bit f)

-- `SFMT_LE` and `SFMT_BE`
abbrev pub sfmt_le : ℕ
sfmt_le = 12

abbrev pub sfmt_be : ℕ
sfmt_be = 13

abbrev pub has_one_of : ℕ → Format → Format → Bool
has_one_of m f g = has m f || has m g

unfoldable pub sfmt_same_bps : ℕ → ℕ → Bool
sfmt_same_bps fmt1 fmt2 =
    if has_one_of fmt1 s8 u8 && has_one_of fmt2 s8 u8
    then true
    else if has_one_of fmt1 s16 u16 && has_one_of fmt2 s16 u16
    then true
    else if has_one_of fmt1 s24 u24 && has_one_of fmt2 s24 u24
    then true
    else if has_one_of fmt1 s24_3 u24_3 && has_one_of fmt2 s24_3 u24_3
    then true
    else if has_one_of fmt1 s32 u32 && has_one_of fmt2 s32 u32
    then true
    else has fmt1 float && has fmt2 float

-- the formats in the order in which `sfmt_best_matching` tries them for a format that is not there
unfoldable pub preference : Format → List Format
preference s8 = s8 ∷ u8 ∷ s16 ∷ u16 ∷ s24_3 ∷ u24_3 ∷ s24 ∷ u24 ∷ s32 ∷ u32 ∷ float ∷ []
preference u8 = s8 ∷ u8 ∷ s16 ∷ u16 ∷ s24_3 ∷ u24_3 ∷ s24 ∷ u24 ∷ s32 ∷ u32 ∷ float ∷ []
preference s16 = s16 ∷ u16 ∷ s24_3 ∷ u24_3 ∷ s24 ∷ u24 ∷ s32 ∷ u32 ∷ float ∷ s8 ∷ u8 ∷ []
preference u16 = s16 ∷ u16 ∷ s24_3 ∷ u24_3 ∷ s24 ∷ u24 ∷ s32 ∷ u32 ∷ float ∷ s8 ∷ u8 ∷ []
preference s24 = s24 ∷ u24 ∷ s24_3 ∷ u24_3 ∷ s32 ∷ u32 ∷ float ∷ s16 ∷ u16 ∷ s8 ∷ u8 ∷ []
preference u24 = s24 ∷ u24 ∷ s24_3 ∷ u24_3 ∷ s32 ∷ u32 ∷ float ∷ s16 ∷ u16 ∷ s8 ∷ u8 ∷ []
preference s24_3 = s24_3 ∷ u24_3 ∷ s24 ∷ u24 ∷ s32 ∷ u32 ∷ float ∷ s16 ∷ u16 ∷ s8 ∷ u8 ∷ []
preference u24_3 = s24_3 ∷ u24_3 ∷ s24 ∷ u24 ∷ s32 ∷ u32 ∷ float ∷ s16 ∷ u16 ∷ s8 ∷ u8 ∷ []
preference s32 = s32 ∷ u32 ∷ float ∷ s24_3 ∷ u24_3 ∷ s24 ∷ u24 ∷ s16 ∷ u16 ∷ s8 ∷ u8 ∷ []
preference u32 = s32 ∷ u32 ∷ float ∷ s24_3 ∷ u24_3 ∷ s24 ∷ u24 ∷ s16 ∷ u16 ∷ s8 ∷ u8 ∷ []
preference float = s32 ∷ u32 ∷ s24_3 ∷ u24_3 ∷ s24 ∷ u24 ∷ s16 ∷ u16 ∷ s8 ∷ u8 ∷ []

-- the chain of `else if (formats & f) best = f;`
unfoldable pub first_of : ℕ → List Format → Option Format
first_of formats [] = none
first_of formats (f ∷ fs) = let rest = first_of formats fs in if has formats f then some f else rest

-- `best & (SFMT_S8 | SFMT_U8 | SFMT_FLOAT)`
abbrev pub has_no_endian : Format → Bool
has_no_endian s8 = true
has_no_endian u8 = true
has_no_endian s16 = false
has_no_endian u16 = false
has_no_endian s24 = false
has_no_endian u24 = false
has_no_endian s32 = false
has_no_endian u32 = false
has_no_endian s24_3 = false
has_no_endian u24_3 = false
has_no_endian float = true

-- a format with the bits of its byte order, little and big; `none` where the assertion fails
abbrev pub with_endian : ℕ → Format → Option (Format × (Bool × Bool))
with_endian formats f =
    if has_no_endian f
    then some (f, (false, false))
    else if has_bit formats sfmt_le || has_bit formats sfmt_be
    then some (f, (has_bit formats sfmt_le, has_bit formats sfmt_be))
    else none

abbrev pub with_endian_if : ℕ → Option Format → Option (Format × (Bool × Bool))
with_endian_if formats none = none
with_endian_if formats (some f) = with_endian formats f

-- `sfmt_best_matching` for a request of one format; `none` where an assertion fails
unfoldable pub sfmt_best_matching : ℕ → Format → Option (Format × (Bool × Bool))
sfmt_best_matching formats req =
    with_endian_if formats (if has formats req then some req else first_of formats (preference req))
