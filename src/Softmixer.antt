-- ===== src/Softmixer.antt =====
-- softmixer.c: the software volume control and the mono mixer.
-- A buffer is the list of its samples. exp(3) and the arithmetic of floats are parameters.
pub mod Range
pub mod Mono
pub mod Faults
pub mod Config
pub mod Control
pub mod Saved
pub mod Frames
mod Tests
use mocp.Prelude.{
  ℕ, zero, suc, ◌+◌, ◌-◌, ◌*◌, ◌/◌, ◌%◌, ◌<◌, ◌≤◌, Bool, true, false, not, ◌&&◌, Option, none, some,
  List, [], ◌∷◌, ◌++◌, map, length, take, drop, replicate, ltb, leb, ◌==◌, if◌then◌else◌, min,
}
use mathlib.Core.List.{foldl}
use mocp.Prelude.Int.{ℤ, pos, negsuc, pos_part, ltb_ℤ, ◌+ℤ◌, ◌-ℤ◌}
use mocp.Word.{wrap, times, quot, clamp}
use mocp.Sound.{Format, SoundParams}

-- `SOFTMIXER_MIN` and `SOFTMIXER_MAX`
abbrev pub softmixer_min : ℕ
softmixer_min = 0

abbrev pub softmixer_max : ℕ
softmixer_max = 2000

-- The static variables of the module; `mixer_real` is the gain in thousandths.
pub record Mixer : Type 0 where
  pub active : Bool
  pub mix_mono : Bool
  pub mixer_val : ℕ
  pub mixer_amp : ℕ
  pub mixer_real : ℕ

-- `(int) exp (k * 0.06908)`, and the linear roll-off `(int) (real * val / 10.f)`
pub record Maths : Type 0 where
  pub gain : ℕ → ℕ
  pub roll_off : ℕ → ℕ → ℕ

module _ (mt : Maths) where
  -- `softmixer_set_value`: `CLAMP (0, val, 100)` is `min` of what is not negative of `val`.
  unfoldable pub softmixer_set_value : Mixer → ℤ → Mixer
  softmixer_set_value m v =
      let value = min (pos_part v) 100 in
      let real = mt.gain (value * m.mixer_amp / 100) in
      let real = if ltb value 10 then mt.roll_off real value else real in
      record m { mixer_val = value; mixer_real = min real softmixer_max }

unfoldable pub softmixer_set_active : Mixer → Bool → Mixer
softmixer_set_active m act = record m { active = act }

unfoldable pub softmixer_set_mono : Mixer → Bool → Mixer
softmixer_set_mono m mono = record m { mix_mono = mono }

-- `UINT8_MAX >> 1` and its kin, and the limits of the formats
abbrev pub half8 : ℤ
half8 = pos 127

abbrev pub half16 : ℤ
half16 = pos 32767

abbrev pub half32 : ℤ
half32 = pos 2147483647

-- `S24_MIN`, `S24_MAX` and `U24_MAX` of audio.h
abbrev pub s24_min : ℤ
s24_min = negsuc 8388607

abbrev pub s24_max : ℤ
s24_max = pos 8388607

abbrev pub u24_max : ℤ
u24_max = pos 16777216

-- What the loops process_buffer_* do to one sample. `tmp` has 16 bits for samples of 8 bits, 32 for
-- samples of 16 bits, and 64 for the others.
module _ (mixer_real : ℕ) where
  unfoldable pub process_u8 : ℤ → ℤ
  process_u8 x =
      let tmp = wrap 16 (x -ℤ half8) in
      let tmp = wrap 16 (times tmp mixer_real) in
      let tmp = quot tmp 1000 in let tmp = wrap 16 (tmp +ℤ half8) in clamp (pos 0) tmp (pos 255)

  unfoldable pub process_s8 : ℤ → ℤ
  process_s8 x =
      let tmp = wrap 16 (times x mixer_real) in
      let tmp = quot tmp 1000 in clamp (negsuc 127) tmp (pos 127)

  unfoldable pub process_u16 : ℤ → ℤ
  process_u16 x =
      let tmp = wrap 32 (x -ℤ half16) in
      let tmp = wrap 32 (times tmp mixer_real) in
      let tmp = quot tmp 1000 in let tmp = wrap 32 (tmp +ℤ half16) in clamp (pos 0) tmp (pos 65535)

  unfoldable pub process_s16 : ℤ → ℤ
  process_s16 x =
      let tmp = wrap 32 (times x mixer_real) in
      let tmp = quot tmp 1000 in clamp (negsuc 32767) tmp (pos 32767)

  unfoldable pub process_u24 : ℤ → ℤ
  process_u24 x =
      let tmp = wrap 64 (x -ℤ s24_min) in
      let tmp = wrap 64 (times tmp mixer_real) in
      let tmp = quot tmp 1000 in let tmp = wrap 64 (tmp +ℤ s24_min) in clamp (pos 0) tmp u24_max

  unfoldable pub process_s24 : ℤ → ℤ
  process_s24 x =
      let tmp = wrap 64 (times x mixer_real) in let tmp = quot tmp 1000 in clamp s24_min tmp s24_max

  unfoldable pub process_u32 : ℤ → ℤ
  process_u32 x =
      let tmp = wrap 64 (x -ℤ half32) in
      let tmp = wrap 64 (times tmp mixer_real) in
      let tmp = quot tmp 1000 in
      let tmp = wrap 64 (tmp +ℤ half32) in clamp (pos 0) tmp (pos 4294967295)

  unfoldable pub process_s32 : ℤ → ℤ
  process_s32 x =
      let tmp = wrap 64 (times x mixer_real) in
      let tmp = quot tmp 1000 in clamp (negsuc 2147483647) tmp (pos 2147483647)

-- `mono += *buf++` for the samples of a frame, in an accumulator of w bits
unfoldable pub sum_frame : ℕ → ℤ → List ℤ → ℤ
sum_frame w mono [] = mono
sum_frame w mono (x ∷ xs) = sum_frame w (wrap w (mono +ℤ x)) xs

-- the loop of mix_mono_*, a frame a round: every sample of the frame becomes `mean frame`
unfoldable pub mono_loop : {A : Type 0} → ℕ → (List A → A) → ℕ → List A → List A
mono_loop zero mean channels buf = buf
mono_loop (suc fuel) mean channels [] = []
mono_loop (suc fuel) mean channels (x ∷ buf) =
    replicate channels (mean (take channels (x ∷ buf)))
    ++ mono_loop fuel mean channels (drop channels (x ∷ buf))

-- `mono /= channels`, and the CLAMP or MIN behind it
abbrev pub mean_by : ℕ → (ℤ → ℤ) → ℕ → List ℤ → ℤ
mean_by w limit channels frame = limit (quot (sum_frame w (pos 0) frame) channels)

-- A frame has a sample at least, so there are no more rounds than samples.
abbrev pub average_by : ℕ → (ℤ → ℤ) → ℕ → List ℤ → List ℤ
average_by w limit channels buf = mono_loop (length buf) (mean_by w limit channels) channels buf

-- `none` where `assert (channels > 1)` fails
abbrev pub mix_mono_by : ℕ → (ℤ → ℤ) → ℕ → List ℤ → Option (List ℤ)
mix_mono_by w limit channels buf =
    if ltb 1 channels then some (average_by w limit channels buf) else none

-- `MIN (mono, max)`
abbrev pub at_most : ℤ → ℤ → ℤ
at_most max mono = if ltb_ℤ mono max then mono else max

unfoldable pub mix_mono_u8 : ℕ → List ℤ → Option (List ℤ)
mix_mono_u8 = mix_mono_by 16 (λ m. at_most (pos 255) m)

unfoldable pub mix_mono_s8 : ℕ → List ℤ → Option (List ℤ)
mix_mono_s8 = mix_mono_by 16 (λ m. clamp (negsuc 127) m (pos 127))

unfoldable pub mix_mono_u16 : ℕ → List ℤ → Option (List ℤ)
mix_mono_u16 = mix_mono_by 32 (λ m. at_most (pos 65535) m)

unfoldable pub mix_mono_s16 : ℕ → List ℤ → Option (List ℤ)
mix_mono_s16 = mix_mono_by 32 (λ m. clamp (negsuc 32767) m (pos 32767))

-- The 24-bit mixers return at once for fewer than two channels.
unfoldable pub mix_mono_u24 : ℕ → List ℤ → Option (List ℤ)
mix_mono_u24 channels buf =
    if ltb channels 2 then some buf else some (average_by 64 (λ m. at_most u24_max m) channels buf)

unfoldable pub mix_mono_s24 : ℕ → List ℤ → Option (List ℤ)
mix_mono_s24 channels buf =
    if ltb channels 2
    then some buf
    else some (average_by 64 (λ m. clamp s24_min m s24_max) channels buf)

unfoldable pub mix_mono_u32 : ℕ → List ℤ → Option (List ℤ)
mix_mono_u32 = mix_mono_by 64 (λ m. at_most (pos 4294967295) m)

unfoldable pub mix_mono_s32 : ℕ → List ℤ → Option (List ℤ)
mix_mono_s32 = mix_mono_by 64 (λ m. clamp (negsuc 2147483647) m (pos 2147483647))

-- Arithmetic of floats: `tmp *= mixer_realf`, `mono += x`, `mono /= channels` and CLAMP to -1 .. 1.
pub record Floats : Type 1 where
  pub F : Type 0
  pub zero_f : F
  pub amplify : ℕ → F → F
  pub add : F → F → F
  pub divide : F → ℕ → F
  pub clamp_unit : F → F

-- A buffer of samples of an integer format, or of floats.
pub data Samples (F : Type 0) : Type 0 where
  ints : List ℤ → Samples F
  floats : List F → Samples F

-- the number of samples in a buffer
abbrev pub count : {F : Type 0} → Samples F → ℕ
count (ints buf) = length buf
count (floats buf) = length buf

-- `if (do_softmix) process_buffer_* (buf, ...); if (do_monomix) mix_mono_* (buf, ...);`
abbrev pub both :
    {A : Type 0} → Bool → Bool → (A → A) → (List A → Option (List A)) → List A → Option (List A)
both softmix monomix f g buf =
    let buf = if softmix then map f buf else buf in if monomix then g buf else some buf

abbrev pub wrapped : {A F : Type 0} → (List A → Samples F) → Option (List A) → Option (Samples F)
wrapped form none = none
wrapped form (some buf) = some (form buf)

module _ (fl : Floats) where
  open fl use {F, zero_f, amplify, add, divide, clamp_unit}

  unfoldable pub process_float : ℕ → F → F
  process_float real x = clamp_unit (amplify real x)

  unfoldable pub mix_mono_float : ℕ → List F → Option (List F)
  mix_mono_float channels buf =
      if ltb 1 channels
      then some (
          mono_loop (length buf) (λ frame. clamp_unit (divide (foldl add zero_f frame) channels))
            channels buf)
      else none

  -- the switch of `softmixer_process_buffer`
  unfoldable pub mix_format : Mixer → Format → Bool → Bool → ℕ → Samples F → Option (Samples F)
  mix_format m Format.u8 s d ch (ints buf) =
      wrapped ints (both s d (process_u8 m.mixer_real) (mix_mono_u8 ch) buf)
  mix_format m Format.s8 s d ch (ints buf) =
      wrapped ints (both s d (process_s8 m.mixer_real) (mix_mono_s8 ch) buf)
  mix_format m Format.u16 s d ch (ints buf) =
      wrapped ints (both s d (process_u16 m.mixer_real) (mix_mono_u16 ch) buf)
  mix_format m Format.s16 s d ch (ints buf) =
      wrapped ints (both s d (process_s16 m.mixer_real) (mix_mono_s16 ch) buf)
  mix_format m Format.u24 s d ch (ints buf) =
      wrapped ints (both s m.mix_mono (process_u24 m.mixer_real) (mix_mono_u24 ch) buf)
  mix_format m Format.s24 s d ch (ints buf) =
      wrapped ints (both s m.mix_mono (process_s24 m.mixer_real) (mix_mono_s24 ch) buf)
  mix_format m Format.u32 s d ch (ints buf) =
      wrapped ints (both s d (process_u32 m.mixer_real) (mix_mono_u32 ch) buf)
  mix_format m Format.s32 s d ch (ints buf) =
      wrapped ints (both s d (process_s32 m.mixer_real) (mix_mono_s32 ch) buf)
  mix_format m Format.float s d ch (floats buf) =
      wrapped floats (both s d (process_float m.mixer_real) (mix_mono_float ch) buf)
  mix_format m fmt s d ch buf = some buf

  -- The result is `none` where an assertion fails, such as that the buffer holds whole frames.
  unfoldable pub softmixer_process_buffer : Mixer → SoundParams → Samples F → Option (Samples F)
  softmixer_process_buffer m sp buf =
      let do_softmix = m.active && not (m.mixer_real == 100) in
      let do_monomix = m.mix_mono && ltb 1 sp.channels in
      if not do_softmix && not do_monomix
      then some buf
      else if count buf % sp.channels == 0
      then mix_format m sp.fmt do_softmix do_monomix sp.channels buf
      else none
