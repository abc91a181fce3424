-- ===== src/Softmixer/Tests.antt =====
-- The volume control and the mono mixer at concrete samples.
use mocp.Bytes.{Str}
use mocp.Files.{chars}
use mocp.Prelude.{
  All, ap, ◌∙◌, ◌++◌, ◌<◌, ◌==◌, false, length, length-replicate, replicate, if◌then◌else◌, ℕ, ◌*◌,
  ◌+◌, ◌≡◌, refl, List, [], ◌∷◌, true, some, joined, arith,
}
use mocp.Prelude.Int.{ℤ, pos, negsuc, ◌≤ℤ◌, ◌+ℤ◌}
use mocp.Word.{quot}
use mocp.Sound.{Format, SoundParams, le}
use mocp.Softmixer.{
  Floats, Samples, ints, count, softmixer_process_buffer, Mixer, Maths, process_s24, process_u24,
  mix_mono_s16, s24_min, s24_max,
}
use mocp.Softmixer.Range.{Scaled, bits_24, process_signed-Scaled}
use mocp.Softmixer.Mono.{averaged, total, mix_mono_s16-averaged}
use mocp.Softmixer.Control.{IsValid, Command, set_value, set_active, set_mono, execute_all}
use mocp.Softmixer.Config.{Text, Reads, softmixer_init, softmixer_write_config}
use mocp.Softmixer.Saved.{renewed, run-saved}
use mocp.Softmixer.Frames.{softmixer_process_buffer-count}
use mocp.Softmixer.Faults.{process_u24_silence}

abbrev maths : Maths
maths = record { gain = λ k. k * 10 + 1; roll_off = λ real v. real }

abbrev mixer : Mixer
mixer = record { active = true; mix_mono = true; mixer_val = 7; mixer_amp = 150; mixer_real = 7 }

abbrev commands : List Command
commands = set_value (pos 130) ∷ set_mono true ∷ set_value (negsuc 4) ∷ set_active true ∷ []

abbrev frames : List (List ℤ)
frames = (pos 32767 ∷ negsuc 1 ∷ []) ∷ (negsuc 32767 ∷ negsuc 32767 ∷ []) ∷ []

process_signed-Scaled_example : Scaled process_s24 s24_min s24_max 700 (negsuc 8388607) (pos 5)
process_signed-Scaled_example =
    process_signed-Scaled bits_24 700 (negsuc 8388607) (pos 5) (omega arith)
      (omega arith, omega arith) (omega arith, omega arith) (omega arith)

mix_mono_s16-averaged_example :
    mix_mono_s16 2 (joined frames) ≡ some (averaged (λ f. quot (total f) 2) 2 frames)
mix_mono_s16-averaged_example =
    mix_mono_s16-averaged 1 frames (omega arith) (omega arith) (refl, (refl, tt))
      (
        ((omega arith, omega arith), ((omega arith, omega arith), tt)),
        (((omega arith, omega arith), ((omega arith, omega arith), tt)), tt),
      )

after_blank : Str → Str
after_blank [] = []
after_blank (c ∷ s) = if c == b' ' then s else after_blank s

-- numbers as so many ones
abbrev ones : Text
ones = record { scan = λ s. some (pos (length (after_blank s))); print = λ n. replicate n b'1' }

after_blank-append : (word s : Str) → All (λ x. 32 < x) word → after_blank (word ++ b' ' ∷ s) ≡ s
unfolding after_blank
after_blank-append [] s a = refl
after_blank-append (c ∷ word) s (h, a) =
    let other : (c == b' ') ≡ false = ground arith in rw other (after_blank-append word s a)

ones-Reads : Reads ones
ones-Reads = record {
  reads = λ c word n a b.
      ap (λ s. some (pos (length s))) (after_blank-append (c ∷ word) (replicate n b'1') a)
      ∙ ap (λ k. some (pos k)) (length-replicate n b'1');
}

abbrev saved_before : List Str
saved_before = chars "Amplification: 111" ∷ chars "mono: 1" ∷ []

run-saved_example :
    IsValid (execute_all maths (softmixer_init maths ones (some saved_before) mixer) commands)
    × (softmixer_init maths ones
          (some (
            softmixer_write_config ones
              (execute_all maths (softmixer_init maths ones (some saved_before) mixer) commands)))
          mixer
        ≡ renewed maths
            (execute_all maths (softmixer_init maths ones (some saved_before) mixer) commands))
run-saved_example = run-saved maths ones ones-Reads (some saved_before) mixer mixer commands

process_u24_silence_example : process_u24 500 (pos 8388608) +ℤ pos 1 ≤ℤ pos 8388608
process_u24_silence_example = process_u24_silence 500 (omega arith)

abbrev no_floats : Floats
no_floats = record {
  F = ℕ;
  zero_f = 0;
  amplify = λ r x. x;
  add = λ x y. x;
  divide = λ x n. x;
  clamp_unit = λ x. x;
}

abbrev stereo : SoundParams
stereo = record { channels = 2; rate = 44100; fmt = Format.s16; endianness = le }

abbrev buffer : Samples ℕ
buffer = ints (pos 100 ∷ negsuc 99 ∷ pos 7 ∷ pos 9 ∷ [])

softmixer_process_buffer-count_example :
    (out : Samples ℕ) × (softmixer_process_buffer no_floats mixer stereo buffer ≡ some out)
    × (count out ≡ 4)
softmixer_process_buffer-count_example =
    softmixer_process_buffer-count no_floats mixer stereo buffer (omega arith) refl
