-- ===== src/Softmixer/Saved.antt =====
-- softmixer.c: what `softmixer_write_config` writes, `softmixer_init` reads back.
use mocp.Prelude.{
  min, ℕ, ◌≤◌, ◌<◌, ◌^◌, ◌≡◌, refl, ap, ◌∙◌, Bool, true, false, Option, some, List, ◌∷◌, ◌++◌,
  arith,
}
use mocp.Prelude.Int.{pos}
use mocp.Bytes.{Str}
use mocp.Files.{chars, prefix_nocase}
use mocp.Softmixer.{Mixer, Maths, softmixer_max, softmixer_set_value}
use mocp.Softmixer.Config.{
  Text, Reads, cfg_active, cfg_amp, cfg_value, cfg_mono, within_limits, of_bool, read_active,
  read_mono, read_config_line, read_config_lines, softmixer_init, softmixer_write_config,
}
use mocp.Softmixer.Control.{IsValid, Command, execute_all, execute_all-IsValid, init-IsValid}

read_active-of_bool :
    (b : Bool) (m : Mixer) → read_active (pos (of_bool b)) m ≡ record m { active = b }
read_active-of_bool true m = refl
read_active-of_bool false m = refl

read_mono-of_bool :
    (b : Bool) (m : Mixer) → read_mono (pos (of_bool b)) m ≡ record m { mix_mono = b }
read_mono-of_bool true m = refl
read_mono-of_bool false m = refl

of_bool_lt : (b : Bool) → of_bool b < 2 ^ 31
of_bool_lt true = omega arith
of_bool_lt false = omega arith

within_limits-pos : (n max : ℕ) → n ≤ max → within_limits 0 (pos n) max ≡ true
within_limits-pos n max h = ground arith

-- the mixer with the gain that `softmixer_set_value` gives at its value and amplification
abbrev pub renewed : Maths → Mixer → Mixer
renewed mt m = record m { mixer_real = (softmixer_set_value mt m (pos m.mixer_val)).mixer_real }

module _ (mt : Maths) (tx : Text) (law : Reads tx) where
  read_config_line-cfg_active :
      (m : Mixer) (b : Bool)
      → read_config_line mt tx m (cfg_active ++ b' ' ∷ tx.print (of_bool b))
        ≡ record m { active = b }
  unfolding read_config_line prefix_nocase
  read_config_line-cfg_active m b =
      rw (law.reads b'A' (chars "ctive:") (of_bool b) (ground arith) (of_bool_lt b))
        (read_active-of_bool b m)

  read_config_line-cfg_mono :
      (m : Mixer) (b : Bool)
      → read_config_line mt tx m (cfg_mono ++ b' ' ∷ tx.print (of_bool b))
        ≡ record m { mix_mono = b }
  unfolding read_config_line prefix_nocase
  read_config_line-cfg_mono m b =
      rw (law.reads b'M' (chars "ono:") (of_bool b) (ground arith) (of_bool_lt b))
        (read_mono-of_bool b m)

  read_config_line-cfg_amp :
      (m : Mixer) (n : ℕ)
      → n ≤ softmixer_max
      → read_config_line mt tx m (cfg_amp ++ b' ' ∷ tx.print n) ≡ record m { mixer_amp = n }
  unfolding read_config_line prefix_nocase
  read_config_line-cfg_amp m n h =
      rw
        (
          law.reads b'A' (chars "mplification:") n (ground arith) (omega arith),
          within_limits-pos n softmixer_max h,
        )
        refl

  read_config_line-cfg_value :
      (m : Mixer) (n : ℕ)
      → n ≤ 100
      → read_config_line mt tx m (cfg_value ++ b' ' ∷ tx.print n) ≡ softmixer_set_value mt m (pos n)
  unfolding read_config_line prefix_nocase
  read_config_line-cfg_value m n h =
      rw (law.reads b'V' (chars "alue:") n (ground arith) (omega arith), within_limits-pos n 100 h)
        refl

  init-write_config :
      (m m' : Mixer)
      → IsValid m
      → softmixer_init mt tx (some (softmixer_write_config tx m)) m'
        ≡ softmixer_set_value mt m (pos m.mixer_val)
  unfolding softmixer_init softmixer_write_config read_config_lines softmixer_set_value
  init-write_config m m' h =
      rw
        (
          read_config_line-cfg_active _ m.active,
          read_config_line-cfg_amp _ m.mixer_amp h.amp,
          read_config_line-cfg_value _ m.mixer_val h.value,
          read_config_line-cfg_mono _ m.mix_mono,
        )
        refl

  set_value-mixer_val :
      (m : Mixer) → m.mixer_val ≤ 100 → softmixer_set_value mt m (pos m.mixer_val) ≡ renewed mt m
  unfolding softmixer_set_value
  set_value-mixer_val m h = ap (λ v. record (renewed mt m) { mixer_val = v }) within
    where
      within : min m.mixer_val 100 ≡ m.mixer_val
      within = omega (arith, h)

  -- After softmixer_init with any configuration file, or none, and any calls of the functions that
  -- set the value, the activity and the mono mixing, whatever they are given, the value is at most
  -- 100, the amplification and the gain at most 2000; and a softmixer_init with the file that
  -- softmixer_write_config then writes gives the same activity, mono mixing, amplification and
  -- value, with the gain that softmixer_set_value makes of the last two; sscanf reads the numbers
  -- that fprintf printed.
  pub run-saved :
      (file : Option (List Str)) (m m' : Mixer) (cs : List Command)
      → IsValid (execute_all mt (softmixer_init mt tx file m) cs)
        × (softmixer_init mt tx
              (some (softmixer_write_config tx (execute_all mt (softmixer_init mt tx file m) cs)))
              m'
            ≡ renewed mt (execute_all mt (softmixer_init mt tx file m) cs))
  run-saved file m m' cs =
      let valid =
        execute_all-IsValid mt (softmixer_init mt tx file m) cs (init-IsValid mt tx file m) in
      (valid, init-write_config _ m' valid ∙ set_value-mixer_val _ valid.value)
