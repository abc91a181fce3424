-- ===== src/Softmixer/Config.antt =====
-- softmixer.c: the configuration file, which `softmixer_init` reads and `softmixer_shutdown` writes. A file is
-- the list of its lines, as `read_line` returns them. sscanf (3) and fprintf (3) are parameters.
use mocp.Prelude.{
  All, ℕ, ◌<◌, ◌^◌, ◌≡◌, Bool, true, false, not, ◌&&◌, Option, none, some, List, [], ◌∷◌, ◌++◌,
  if◌then◌else◌,
}
use mocp.Prelude.Int.{ℤ, pos, pos_part, ltb_ℤ}
use mocp.Bytes.{Str}
use mocp.Files.{chars, prefix_nocase}
use mocp.Softmixer.{Mixer, Maths, softmixer_min, softmixer_max, softmixer_set_value}

-- `SOFTMIXER_CFG_ACTIVE` and its kin
abbrev pub cfg_active : Str
cfg_active = chars "Active:"

abbrev pub cfg_amp : Str
cfg_amp = chars "Amplification:"

abbrev pub cfg_value : Str
cfg_value = chars "Value:"

abbrev pub cfg_mono : Str
cfg_mono = chars "Mono:"

-- The number that `sscanf (line, "%*s %i", &tmp)` stores if it returns more than 0, and what "%i" prints of a
-- number that is not negative.
pub record Text : Type 0 where
  pub scan : Str → Option ℤ
  pub print : ℕ → Str

-- `"%*s %i"` skips a word and reads the number that "%i" printed behind it.
pub record Reads (tx : Text) : Type 0 where
  pub reads :
      (c : ℕ) (word : Str) (n : ℕ)
      → All (λ x. 32 < x) (c ∷ word)
      → n < 2 ^ 31
      → tx.scan ((c ∷ word) ++ b' ' ∷ tx.print n) ≡ some (pos n)

-- `RANGE (min, val, max)`
abbrev pub within_limits : ℕ → ℤ → ℕ → Bool
within_limits min val max = not (ltb_ℤ val (pos min)) && not (ltb_ℤ (pos max) val)

-- what the number of a line does to the mixer
abbrev pub read_active : ℤ → Mixer → Mixer
read_active tmp m =
    if ltb_ℤ (pos 0) tmp then record m { active = true } else record m { active = false }

abbrev pub read_amp : ℤ → Mixer → Mixer
read_amp tmp m =
    if within_limits softmixer_min tmp softmixer_max
    then record m { mixer_amp = pos_part tmp }
    else m

abbrev pub read_value : Maths → ℤ → Mixer → Mixer
read_value mt tmp m = if within_limits 0 tmp 100 then softmixer_set_value mt m tmp else m

abbrev pub read_mono : ℤ → Mixer → Mixer
read_mono tmp m =
    if ltb_ℤ (pos 0) tmp then record m { mix_mono = true } else record m { mix_mono = false }

-- `if (sscanf (linebuffer, "%*s %i", &tmp) > 0)`
abbrev pub if_read : Option ℤ → (ℤ → Mixer → Mixer) → Mixer → Mixer
if_read none act m = m
if_read (some tmp) act m = act tmp m

module _ (mt : Maths) (tx : Text) where
  -- a line that begins with the name
  abbrev pub if_named : Str → (ℤ → Mixer → Mixer) → Str → Mixer → Mixer
  if_named name act line m = if prefix_nocase line name then if_read (tx.scan line) act m else m

  -- a turn of the loop
  unfoldable pub read_config_line : Mixer → Str → Mixer
  read_config_line m line =
      let m = if_named cfg_active read_active line m in
      let m = if_named cfg_amp read_amp line m in
      let m = if_named cfg_value (read_value mt) line m in if_named cfg_mono read_mono line m

  unfoldable pub read_config_lines : Mixer → List Str → Mixer
  read_config_lines m [] = m
  read_config_lines m (line ∷ lines) = read_config_lines (read_config_line m line) lines

  -- `softmixer_read_config`; `none` is a file that cannot be opened
  abbrev pub softmixer_read_config : Option (List Str) → Mixer → Mixer
  softmixer_read_config none m = m
  softmixer_read_config (some lines) m = read_config_lines m lines

  unfoldable pub softmixer_init : Option (List Str) → Mixer → Mixer
  softmixer_init file m = softmixer_read_config file (
      softmixer_set_value mt (record m { active = false; mix_mono = false; mixer_amp = 100 })
        (pos 100))

abbrev pub of_bool : Bool → ℕ
of_bool true = 1
of_bool false = 0

-- the lines that `softmixer_write_config` writes
unfoldable pub softmixer_write_config : Text → Mixer → List Str
softmixer_write_config tx m =
    (cfg_active ++ b' ' ∷ tx.print (of_bool m.active))
    ∷ (cfg_amp ++ b' ' ∷ tx.print m.mixer_amp)
    ∷ (cfg_value ++ b' ' ∷ tx.print m.mixer_val)
    ∷ (cfg_mono ++ b' ' ∷ tx.print (of_bool m.mix_mono))
    ∷ []
