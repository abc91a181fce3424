-- ===== src/Softmixer/Frames.antt =====
-- `softmixer_process_buffer` of softmixer.c on buffers of whole frames.
use mocp.Prelude.{
  Option, none, ℕ, zero, suc, ◌+◌, ◌*◌, ◌/◌, ◌%◌, ◌≤◌, ◌<◌, ◌≡◌, refl, ap, ◌∙◌, sym, inl, inr, Bool,
  true, false, not, ◌&&◌, Bool-cases, some, List, [], ◌∷◌, map, length, take, drop, replicate, ltb,
  ◌==◌, if◌then◌else◌, length-append, length-map, length-replicate, length-drop, arith,
}
use native.Mathlib.Nat.{div-add-mod, mul_comm}
use mocp.Sound.{Format, SoundParams}
use mocp.Softmixer.{
  Mixer, Floats, Samples, ints, floats, process_u8, process_s8, process_u16, process_s16,
  process_u24, process_s24, process_u32, process_s32, process_float, count, both, wrapped,
  mono_loop, mix_mono_u8, mix_mono_s8, mix_mono_u16, mix_mono_s16, mix_mono_u24, mix_mono_s24,
  mix_mono_u32, mix_mono_s32, mix_mono_float, mix_format, softmixer_process_buffer,
}

-- `k` whole frames stay `k` whole frames.
length-mono_loop :
    {A : Type 0} (mean : List A → A) (c k fuel : ℕ) (buf : List A)
    → length buf ≡ k * suc c
    → length buf ≤ fuel
    → length (mono_loop fuel mean (suc c) buf) ≡ length buf
unfolding mono_loop
length-mono_loop mean c k zero buf e l = refl
length-mono_loop mean c k (suc fuel) [] e l = refl
length-mono_loop mean c zero (suc fuel) (x ∷ buf) e l = absurd (omega arith)
length-mono_loop {A} mean c (suc k) (suc fuel) (x ∷ buf) e l =
    let rest : length (drop c buf) ≡ k * suc c = omega (arith, length-drop c buf) in
    let r = length-mono_loop mean c k fuel (drop c buf) rest (omega (arith, length-drop c buf)) in
    length-append (replicate (suc c) (mean (take (suc c) (x ∷ buf))))
      (mono_loop fuel mean (suc c) (drop c buf))
    ∙ omega (
      arith,
      r,
      length-replicate {A = A} (suc c) (mean (take (suc c) (x ∷ buf))),
      length-drop c buf,
    )

-- The result is there and has `n` samples.
abbrev Kept : {A : Type 0} → ℕ → Option (List A) → Type 0
Kept {A} n o = (out : List A) × (o ≡ some out) × (length out ≡ n)

-- Of a buffer of `n` samples the mixer makes one of `n` samples.
abbrev Keeps : {A : Type 0} → ℕ → (List A → Option (List A)) → Type 0
Keeps {A} n g = (ys : List A) → length ys ≡ n → Kept n (g ys)

length-both :
    {A : Type 0} (s d : Bool) (f : A → A) (g : List A → Option (List A)) (buf : List A)
    → (d ≡ true → Keeps (length buf) g)
    → Kept (length buf) (both s d f g buf)
length-both true true f g buf k = k refl (map f buf) (length-map buf f)
length-both true false f g buf k = (map f buf, refl, length-map buf f)
length-both false true f g buf k = k refl buf refl
length-both false false f g buf k = (buf, refl, refl)

module _ (c k n : ℕ) (whole : n ≡ k * suc c) where
  asserted-Keeps :
      {A : Type 0} (b : Bool) (mean : List A → A)
      → b ≡ true
      → Keeps n (λ ys. if b then some (mono_loop (length ys) mean (suc c) ys) else none)
  asserted-Keeps b mean t ys e = (
    mono_loop (length ys) mean (suc c) ys,
    rw t refl,
    length-mono_loop mean c k (length ys) ys (e ∙ whole) (omega arith) ∙ e,
  )

  skipped-Keeps :
      {A : Type 0} (b : Bool) (mean : List A → A)
      → Keeps n (λ ys. if b then some ys else some (mono_loop (length ys) mean (suc c) ys))
  skipped-Keeps true mean ys e = (ys, refl, e)
  skipped-Keeps false mean ys e = (
    mono_loop (length ys) mean (suc c) ys,
    refl,
    length-mono_loop mean c k (length ys) ys (e ∙ whole) (omega arith) ∙ e,
  )

==_of_eq : (n : ℕ) → n ≡ 0 → (n == 0) ≡ true
==_of_eq n e = ground arith

module _ (fl : Floats) where
  -- The result is there and has as many samples as `buf`.
  abbrev Mixed : Samples fl.F → Option (Samples fl.F) → Type 0
  Mixed buf o = (out : Samples fl.F) × (o ≡ some out) × (count out ≡ count buf)

  wrapped-Mixed :
      {A : Type 0} (form : List A → Samples fl.F) (buf : List A) (o : Option (List A))
      → ((l : List A) → count (form l) ≡ length l)
      → Kept (length buf) o
      → Mixed (form buf) (wrapped form o)
  wrapped-Mixed form buf o size (l, e, h) =
      (form l, ap (wrapped form) e, size l ∙ h ∙ sym (size buf))

  mix_format-Mixed :
      (m : Mixer) (fmt : Format) (s d : Bool) (c k : ℕ) (buf : Samples fl.F)
      → (d ≡ true → ltb 1 (suc c) ≡ true)
      → count buf ≡ k * suc c
      → Mixed buf (mix_format fl m fmt s d (suc c) buf)
  unfolding mix_format mix_mono_u8 mix_mono_s8 mix_mono_u16 mix_mono_s16 mix_mono_u24 mix_mono_s24
      mix_mono_u32 mix_mono_s32 mix_mono_float
  mix_format-Mixed m Format.u8 s d c k (ints buf) t w =
      wrapped-Mixed ints buf _ (λ l. refl)
        (length-both s d (process_u8 m.mixer_real) (mix_mono_u8 (suc c)) buf
          (λ q. asserted-Keeps c k _ w _ _ (t q)))
  mix_format-Mixed m Format.s8 s d c k (ints buf) t w =
      wrapped-Mixed ints buf _ (λ l. refl)
        (length-both s d (process_s8 m.mixer_real) (mix_mono_s8 (suc c)) buf
          (λ q. asserted-Keeps c k _ w _ _ (t q)))
  mix_format-Mixed m Format.u16 s d c k (ints buf) t w =
      wrapped-Mixed ints buf _ (λ l. refl)
        (length-both s d (process_u16 m.mixer_real) (mix_mono_u16 (suc c)) buf
          (λ q. asserted-Keeps c k _ w _ _ (t q)))
  mix_format-Mixed m Format.s16 s d c k (ints buf) t w =
      wrapped-Mixed ints buf _ (λ l. refl)
        (length-both s d (process_s16 m.mixer_real) (mix_mono_s16 (suc c)) buf
          (λ q. asserted-Keeps c k _ w _ _ (t q)))
  mix_format-Mixed m Format.u32 s d c k (ints buf) t w =
      wrapped-Mixed ints buf _ (λ l. refl)
        (length-both s d (process_u32 m.mixer_real) (mix_mono_u32 (suc c)) buf
          (λ q. asserted-Keeps c k _ w _ _ (t q)))
  mix_format-Mixed m Format.s32 s d c k (ints buf) t w =
      wrapped-Mixed ints buf _ (λ l. refl)
        (length-both s d (process_s32 m.mixer_real) (mix_mono_s32 (suc c)) buf
          (λ q. asserted-Keeps c k _ w _ _ (t q)))
  mix_format-Mixed m Format.float s d c k (floats buf) t w =
      wrapped-Mixed floats buf _ (λ l. refl)
        (length-both s d (process_float fl m.mixer_real) (mix_mono_float fl (suc c)) buf
          (λ q. asserted-Keeps c k _ w _ _ (t q)))
  mix_format-Mixed m Format.u24 s d c k (ints buf) t w =
      wrapped-Mixed ints buf _ (λ l. refl)
        (length-both s m.mix_mono (process_u24 m.mixer_real) (mix_mono_u24 (suc c)) buf
          (λ q. skipped-Keeps c k _ w _ _))
  mix_format-Mixed m Format.s24 s d c k (ints buf) t w =
      wrapped-Mixed ints buf _ (λ l. refl)
        (length-both s m.mix_mono (process_s24 m.mixer_real) (mix_mono_s24 (suc c)) buf
          (λ q. skipped-Keeps c k _ w _ _))
  mix_format-Mixed m Format.s24_3 s d c k buf t w = (buf, refl, refl)
  mix_format-Mixed m Format.u24_3 s d c k buf t w = (buf, refl, refl)
  mix_format-Mixed m Format.float s d c k (ints buf) t w = (ints buf, refl, refl)
  mix_format-Mixed m Format.u8 s d c k (floats buf) t w = (floats buf, refl, refl)
  mix_format-Mixed m Format.s8 s d c k (floats buf) t w = (floats buf, refl, refl)
  mix_format-Mixed m Format.u16 s d c k (floats buf) t w = (floats buf, refl, refl)
  mix_format-Mixed m Format.s16 s d c k (floats buf) t w = (floats buf, refl, refl)
  mix_format-Mixed m Format.u24 s d c k (floats buf) t w = (floats buf, refl, refl)
  mix_format-Mixed m Format.s24 s d c k (floats buf) t w = (floats buf, refl, refl)
  mix_format-Mixed m Format.u32 s d c k (floats buf) t w = (floats buf, refl, refl)
  mix_format-Mixed m Format.s32 s d c k (floats buf) t w = (floats buf, refl, refl)

  mixed :
      (m : Mixer) (fmt : Format) (s d : Bool) (ch k : ℕ) (buf : Samples fl.F)
      → (d ≡ true → ltb 1 ch ≡ true)
      → 0 < ch
      → count buf ≡ ch * k
      → Mixed buf (mix_format fl m fmt s d ch buf)
  mixed m fmt s d zero k buf t h w = absurd (omega arith)
  mixed m fmt s d (suc c) k buf t h w =
      mix_format-Mixed m fmt s d c k buf t (w ∙ mul_comm (suc c) k)

  -- On a buffer of whole frames `softmixer_process_buffer` passes its assertions and those of the
  -- loops, whatever the format and the
  -- state of the mixer, and the buffer keeps its number of samples.
  pub softmixer_process_buffer-count :
      (m : Mixer) (sp : SoundParams) (buf : Samples fl.F)
      → 0 < sp.channels
      → count buf % sp.channels ≡ 0
      → (out : Samples fl.F) × (softmixer_process_buffer fl m sp buf ≡ some out)
        × (count out ≡ count buf)
  unfolding softmixer_process_buffer
  softmixer_process_buffer-count m sp buf h w =
      elim (Bool-cases (not do_softmix && not do_monomix)) [
        | inl idle ↦ rw idle (buf, refl, refl)
        | inr busy ↦ rw (busy, ==_of_eq (count buf % sp.channels) w) mixed_buffer
      ]
    where
      do_softmix : Bool
      do_softmix = m.active && not (m.mixer_real == 100)

      do_monomix : Bool
      do_monomix = m.mix_mono && ltb 1 sp.channels

      mixed_buffer : Mixed buf (mix_format fl m sp.fmt do_softmix do_monomix sp.channels buf)
      mixed_buffer =
          mixed m sp.fmt do_softmix do_monomix sp.channels (count buf / sp.channels) buf
            (λ q. ground arith) h
            (sym (div-add-mod (count buf) sp.channels)
              ∙ ap (λ z. sp.channels * (count buf / sp.channels) + z) w
              ∙ omega arith)
