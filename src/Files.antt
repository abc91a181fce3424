-- ===== src/Files.antt =====
-- The kind of a file: `file_type`, `is_url`, `ext_pos` of files.c and `is_plist_file` of
-- playlist_file.c. What stat(2) and the decoder plugins answer is a parameter.
use mocp.Prelude.{
  ℕ, suc, ◌+◌, Bool, true, false, ◌&&◌, ◌||◌, Option, none, some, [], ◌∷◌, leb, ◌==◌, if◌then◌else◌,
  ltb, get_or, drop, not, ◌-◌,
}
use Prim.Native.String.{String}
use Prim.Native.Char.{code}
use mocp.Prelude.Int.{ℤ, negsuc}
use mocp.Bytes.{Str}

-- `enum file_type`
pub data FileType : Type 0 where
  f_dir f_sound f_url f_playlist f_theme f_other : FileType

-- What the file system and the decoders say of a name. `stat` is `none` where stat(2) fails.
pub record FileStat : Type 0 where
  pub is_directory : Bool
  pub mtime : ℤ

pub record World : Type 0 where
  pub stat : Str → Option FileStat
  pub is_sound_file : Str → Bool

-- the bytes of a literal
abbrev pub chars : String → Str
chars String.[] = []
chars (String.◌∷◌ c s) = code c ∷ chars s

-- tolower (3) in the C locale
abbrev pub to_lower : ℕ → ℕ
to_lower c = if leb b'A' c && leb c b'Z' then c + 32 else c

-- `!strcasecmp (s, t)`
unfoldable pub same_nocase : Str → Str → Bool
same_nocase [] [] = true
same_nocase [] (d ∷ t) = false
same_nocase (c ∷ s) [] = false
same_nocase (c ∷ s) (d ∷ t) = to_lower c == to_lower d && same_nocase s t

-- `!strncasecmp (s, t, strlen (t))`
unfoldable pub prefix_nocase : Str → Str → Bool
prefix_nocase s [] = true
prefix_nocase [] (d ∷ t) = false
prefix_nocase (c ∷ s) (d ∷ t) = to_lower c == to_lower d && prefix_nocase s t

unfoldable pub is_url : Str → Bool
unfolding prefix_nocase
is_url s =
    prefix_nocase s (chars "http://")
    || (prefix_nocase s (chars "https://") || prefix_nocase s (chars "ftp://"))

-- strrchr (3): the index of the last `c`
unfoldable pub strrchr : Str → ℕ → Option ℕ
strrchr [] c = none
strrchr (x ∷ s) c = elim (strrchr s c) [
  | some i ↦ some (suc i)
  | none ↦ if x == c then some 0 else none
]

abbrev is_none_or_below : Option ℕ → ℕ → Bool
is_none_or_below none i = true
is_none_or_below (some j) i = ltb j i

-- `ext_pos`: the text behind the last dot, `none` for NULL
unfoldable pub ext_pos : Str → Option Str
ext_pos file = elim (strrchr file b'.') [
  | none ↦ none
  | some ext ↦
      if is_none_or_below (strrchr file b'/') ext
        && (not (ext == 0) && not (get_or file (ext - 1) 0 == b'/'))
      then some (drop (suc ext) file)
      else none
]

unfoldable pub is_plist_file : Str → Bool
unfolding ext_pos same_nocase strrchr
is_plist_file name = elim (ext_pos name) [
  | none ↦ false
  | some ext ↦ same_nocase ext (chars "m3u") || same_nocase ext (chars "pls")
]

module _ (w : World) where
  unfoldable pub file_type : Str → FileType
  file_type file = if is_url file then f_url else elim (w.stat file) [
    | none ↦ f_other
    | some st ↦
        if st.is_directory
        then f_dir
        else if w.is_sound_file file
        then f_sound
        else if is_plist_file file
        then f_playlist
        else f_other
  ]

  -- `get_mtime`: -1 where stat(2) fails
  unfoldable pub get_mtime : Str → ℤ
  get_mtime file = elim (w.stat file) [ none ↦ negsuc 0 | some st ↦ st.mtime ]
