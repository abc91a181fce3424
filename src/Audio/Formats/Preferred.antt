-- ===== src/Audio/Formats/Preferred.antt =====
-- audio.c: the formats that `sfmt_best_matching` tries for a format.
use mocp.Prelude.{List, [], ◌∷◌, All, arith}
use mocp.Sound.{Format}
use mocp.Sound.Format.{s8, u8, s16, u16, s24, u24, s32, u32, s24_3, u24_3, float}
use mocp.Audio.Formats.{preference}

-- the formats in the order of the enumeration
abbrev pub formats_all : List Format
formats_all = s8 ∷ u8 ∷ s16 ∷ u16 ∷ s24 ∷ u24 ∷ s32 ∷ u32 ∷ s24_3 ∷ u24_3 ∷ float ∷ []

pub every : (P : Format → Type 0) (g : Format) → All P formats_all → P g
every P s8 h = ground arith
every P u8 h = ground arith
every P s16 h = ground arith
every P u16 h = ground arith
every P s24 h = ground arith
every P u24 h = ground arith
every P s32 h = ground arith
every P u32 h = ground arith
every P s24_3 h = ground arith
every P u24_3 h = ground arith
every P float h = ground arith

-- The preferences of a format leave out no other format.
pub preferred :
    (P : Format → Type 0) (req : Format) → All P (preference req) → P req → All P formats_all
unfolding preference
preferred P s8 h p = ground arith
preferred P u8 h p = ground arith
preferred P s16 h p = ground arith
preferred P u16 h p = ground arith
preferred P s24 h p = ground arith
preferred P u24 h p = ground arith
preferred P s32 h p = ground arith
preferred P u32 h p = ground arith
preferred P s24_3 h p = ground arith
preferred P u24_3 h p = ground arith
preferred P float h p = ground arith
