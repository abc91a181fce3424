-- ===== src/Softmixer/Control.antt =====
-- The functions of softmixer.c that set the state of the mixer.
use mocp.Prelude.{◌≤◌, Bool, Option, none, some, List, [], ◌∷◌, inl, inr, Bool-cases, arith}
use mocp.Prelude.Int.{ℤ, pos}
use mocp.Bytes.{Str}
use mocp.Files.{prefix_nocase}
use mocp.Softmixer.{
  Mixer, Maths, softmixer_set_value, softmixer_set_active, softmixer_set_mono, softmixer_max,
}
use mocp.Softmixer.Config.{
  Text, cfg_active, cfg_amp, cfg_value, cfg_mono, within_limits, read_active, read_amp, read_value,
  read_mono, if_read, if_named, read_config_line, read_config_lines, softmixer_init,
}

pub record IsValid (m : Mixer) : Type 0 where
  pub value : m.mixer_val ≤ 100
  pub amp : m.mixer_amp ≤ softmixer_max
  pub real : m.mixer_real ≤ softmixer_max

-- what the rest of the program does to the mixer
pub data Command : Type 0 where
  set_value : ℤ → Command
  set_active : Bool → Command
  set_mono : Bool → Command

module _ (mt : Maths) where
  unfoldable pub execute : Mixer → Command → Mixer
  execute m (set_value v) = softmixer_set_value mt m v
  execute m (set_active b) = softmixer_set_active m b
  execute m (set_mono b) = softmixer_set_mono m b

  unfoldable pub execute_all : Mixer → List Command → Mixer
  execute_all m [] = m
  execute_all m (c ∷ cs) = execute_all (execute m c) cs

  set_value-IsValid :
      (m : Mixer) (v : ℤ) → m.mixer_amp ≤ softmixer_max → IsValid (softmixer_set_value mt m v)
  unfolding softmixer_set_value
  set_value-IsValid m v h = record { value = omega arith; amp = h; real = omega arith }

  execute-IsValid : (m : Mixer) (c : Command) → IsValid m → IsValid (execute m c)
  unfolding execute softmixer_set_active softmixer_set_mono softmixer_set_value
  execute-IsValid m (set_value v) h = set_value-IsValid m v h.amp
  execute-IsValid m (set_active b) h = record { value = h.value; amp = h.amp; real = h.real }
  execute-IsValid m (set_mono b) h = record { value = h.value; amp = h.amp; real = h.real }

  pub execute_all-IsValid : (m : Mixer) (cs : List Command) → IsValid m → IsValid (execute_all m cs)
  unfolding execute_all
  execute_all-IsValid m [] h = h
  execute_all-IsValid m (c ∷ cs) h = execute_all-IsValid (execute m c) cs (execute-IsValid m c h)

  read_active-IsValid : (n : ℤ) (m : Mixer) → IsValid m → IsValid (read_active n m)
  read_active-IsValid n m h = ground arith

  read_mono-IsValid : (n : ℤ) (m : Mixer) → IsValid m → IsValid (read_mono n m)
  read_mono-IsValid n m h = ground arith

  read_amp-IsValid : (n : ℤ) (m : Mixer) → IsValid m → IsValid (read_amp n m)
  read_amp-IsValid n m h = ground arith

  read_value-IsValid : (n : ℤ) (m : Mixer) → IsValid m → IsValid (read_value mt n m)
  read_value-IsValid n m h = elim (Bool-cases (within_limits 0 n 100)) [
    | inl b ↦ rw b (set_value-IsValid m n h.amp)
    | inr b ↦ rw b h
  ]

  module _ (tx : Text) where
    if_named-IsValid :
        (name : Str) (act : ℤ → Mixer → Mixer) (line : Str) (m : Mixer)
        → ((n : ℤ) (m : Mixer) → IsValid m → IsValid (act n m))
        → IsValid m
        → IsValid (if_named mt tx name act line m)
    if_named-IsValid name act line m f h = elim (Bool-cases (prefix_nocase line name)) [
      | inl b ↦ rw b (read_if (tx.scan line))
      | inr b ↦ rw b h
    ]
      where
        read_if : (n : Option ℤ) → IsValid (if_read n act m)
        read_if none = h
        read_if (some n) = f n m h

    read_config_line-IsValid :
        (m : Mixer) (line : Str) → IsValid m → IsValid (read_config_line mt tx m line)
    unfolding read_config_line
    read_config_line-IsValid m line h =
        if_named-IsValid cfg_mono read_mono line _ read_mono-IsValid (
          if_named-IsValid cfg_value (read_value mt) line _ read_value-IsValid (
            if_named-IsValid cfg_amp read_amp line _ read_amp-IsValid
              (if_named-IsValid cfg_active read_active line m read_active-IsValid h)))

    read_config_lines-IsValid :
        (m : Mixer) (lines : List Str) → IsValid m → IsValid (read_config_lines mt tx m lines)
    unfolding read_config_lines
    read_config_lines-IsValid m [] h = h
    read_config_lines-IsValid m (line ∷ lines) h =
        read_config_lines-IsValid (read_config_line mt tx m line) lines
          (read_config_line-IsValid m line h)

    pub init-IsValid :
        (file : Option (List Str)) (m : Mixer) → IsValid (softmixer_init mt tx file m)
    unfolding softmixer_init
    init-IsValid none m = set_value-IsValid _ (pos 100) (omega arith)
    init-IsValid (some lines) m =
        read_config_lines-IsValid _ lines (set_value-IsValid _ (pos 100) (omega arith))
