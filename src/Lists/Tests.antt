-- ===== src/Lists/Tests.antt =====
-- Lists of strings at concrete entries.
use mocp.Prelude.{◌≡◌, ◌++◌, List, [], ◌∷◌, length, arith}
use mocp.Bytes.{Str}
use mocp.Files.{chars}
use mocp.Lists.{Strs, lists_strs_split}
use mocp.Lists.Tokens.{AllTokens, flat, kept, split-tokens}
use mocp.Lists.Inv.{HasRoom}

-- an array that is full
abbrev full : Strs
full = record { capacity = 2; strs = chars "mad" ∷ chars "vorbis" ∷ [] }

full-HasRoom : HasRoom full
full-HasRoom = record { some_room = omega arith; fits = omega arith }

abbrev saved : List Str
saved = chars "flac" ∷ chars "" ∷ []

split-tokens_example :
    (ts : List Str) × ((lists_strs_split full (chars "a:bc::d") (chars ":")).0 ≡ length ts)
    × ((lists_strs_split full (chars "a:bc::d") (chars ":")).1.strs ≡ full.strs ++ ts)
    × AllTokens (chars ":") ts
    × (flat ts ≡ kept (chars ":") (chars "a:bc::d"))
split-tokens_example = split-tokens full (chars "a:bc::d") (chars ":")
