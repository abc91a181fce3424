-- ===== src/Options.antt =====
-- options.c: the hash table of options, with open addressing.
-- An `unsigned int` has 32 bits. A name is made of ASCII characters. The values of the options and the
-- constraints on them are left out.
pub mod Probe
pub mod Table
pub mod Added
mod Tests
use mocp.Prelude.{
  ℕ, zero, suc, ◌+◌, ◌*◌, ◌%◌, ◌^◌, Bool, true, false, not, ◌&&◌, ◌||◌, Option, none, some, List,
  [], ◌∷◌, ltb, ◌==◌, if◌then◌else◌, length, drop, take, set,
}
use mocp.Bytes.{Str}
use mocp.Files.{chars, to_lower, same_nocase}

-- `enum option_type`; OPTION_FREE marks a slot that holds no option
pub data OptionType : Type 0 where
  option_int option_bool option_str option_symb option_list option_path option_any : OptionType

-- `type & options[i].type`
abbrev pub bits : OptionType → ℕ
bits option_int = 1
bits option_bool = 2
bits option_str = 4
bits option_symb = 8
bits option_list = 16
bits option_path = 32
bits option_any = 255

abbrev pub overlaps : OptionType → OptionType → Bool
overlaps option_any t = true
overlaps t option_any = true
overlaps t u = bits t == bits u

-- `struct option` of a slot that is not free
pub record Entry : Type 0 where
  pub name : Str
  pub kind : OptionType
  pub ignore_in_config : Bool
  pub set_in_config : Bool
  pub hash : ℕ

-- `options` and `options_num`
pub record Options : Type 0 where
  pub slots : List (Option Entry)
  pub options_num : ℕ

abbrev pub options_max : ℕ
options_max = 181

abbrev pub option_name_max : ℕ
option_name_max = 32

-- `hash`, from the value so far
unfoldable pub hash_from : ℕ → Str → ℕ
hash_from h [] = h
hash_from h (c ∷ s) = hash_from ((h * 2 ^ 5 + h + to_lower c) % 2 ^ 32) s

abbrev pub hash : Str → ℕ
hash name = hash_from 5381 name

-- What a loop of `find_option` comes to: the index it returns, a free slot, or the end of the loop.
pub data Scan : Type 0 where
  hit : ℕ → Scan
  miss over : Scan

-- `h == options[i].hash && type & options[i].type && !strcasecmp (name, options[i].name)`
abbrev pub answers : Str → ℕ → OptionType → Entry → Bool
answers name h type e = (h == e.hash && overlaps type e.kind) && same_nocase name e.name

-- a loop over the slots from number i on
unfoldable pub find_loop : Str → ℕ → OptionType → List (Option Entry) → ℕ → Scan
find_loop name h type [] i = over
find_loop name h type (none ∷ slots) i = miss
find_loop name h type (some e ∷ slots) i =
    let rest = find_loop name h type slots (suc i) in if answers name h type e then hit i else rest

abbrev pub again : Scan → Scan → Option ℕ
again (hit i) second = some i
again miss second = none
again over (hit i) = some i
again over miss = none
again over over = none

-- `find_option`: none for -1
unfoldable pub find_option : List (Option Entry) → Str → OptionType → Option ℕ
find_option slots name type =
    let h = hash name in
    let init_pos = h % options_max in
    again (find_loop name h type (drop init_pos slots) init_pos)
      (find_loop name h type (take init_pos slots) 0)

-- a loop of `find_free`
unfoldable pub free_loop : List (Option Entry) → ℕ → Option ℕ
free_loop [] i = none
free_loop (none ∷ slots) i = some i
free_loop (some e ∷ slots) i = free_loop slots (suc i)

abbrev pub or_else : Option ℕ → Option ℕ → Option ℕ
or_else none o = o
or_else (some i) o = some i

-- `find_free`: none where the assertion fails or the code returns -1
unfoldable pub find_free : Options → ℕ → Option ℕ
find_free o h =
    if ltb o.options_num options_max
    then or_else (free_loop (drop (h % options_max) o.slots) (h % options_max))
        (free_loop (take (h % options_max) o.slots) 0)
    else none

-- strchr (3) finds the character.
abbrev pub has_char : Str → ℕ → Bool
has_char [] c = false
has_char (d ∷ s) c = c == d || has_char s c

abbrev pub all_chars : Str → Str → Bool
all_chars valid [] = true
all_chars valid (c ∷ s) = has_char valid c && all_chars valid s

-- `is_valid_symbol` of common.c
unfoldable pub is_valid_symbol : Str → Bool
is_valid_symbol [] = false
is_valid_symbol (c ∷ s) =
    all_chars
      (chars "abcdefghijklmnopqrstuvwxyzABCDEFGHIJKLMNOPQRSTUVWXYZ0123456789@?!.+-*/<=>:$%^&_~")
      (c ∷ s)
    && not (has_char (chars "+-.0123456789@") c)

-- `init_option`, with the position that it returns
unfoldable pub init_option : Options → Str → OptionType → Option (Options × ℕ)
init_option o name type = elim (find_free o (hash name)) [
  | none ↦ none
  | some p ↦
      if ltb (length name) option_name_max && is_valid_symbol name
      then some (
        record {
          slots = set o.slots p (
              some (record {
                name = name;
                kind = type;
                ignore_in_config = false;
                set_in_config = false;
                hash = hash name;
              }));
          options_num = o.options_num + 1;
        },
        p,
      )
      else none
]
