-- ===== src/AudioConversion/Endian.antt =====
-- What swapping the byte order and doubling the channel do to the samples of a buffer.
use mocp.Prelude.{
  ℕ, zero, suc, ◌≤◌, ◌≡◌, refl, ap, sym, Bool, true, false, List, [], ◌∷◌, ◌++◌, map, length,
  length-append, take-append_self, drop-append_self, joined, All, append_assoc, arith,
}
use mathlib.Core.List.{reverse}
use mocp.Sound.{Format, sfmt_bps}
use mocp.AudioConversion.{
  audio_conv_bswap_16, audio_conv_bswap_24, audio_conv_bswap_32, swap_endian, mono_to_stereo,
  mono_to_stereo_loop,
}

bswap_16-joined :
    (gs : List (List ℕ))
    → All (λ g. length g ≡ 2) gs
    → audio_conv_bswap_16 (joined gs) ≡ joined (map reverse gs)
unfolding audio_conv_bswap_16 joined
bswap_16-joined [] e = refl
bswap_16-joined ((a ∷ b ∷ []) ∷ gs) e = ap (λ z. b ∷ a ∷ z) (bswap_16-joined gs e.1)
bswap_16-joined ([] ∷ gs) e = absurd (omega (arith, e.0))
bswap_16-joined ((a ∷ []) ∷ gs) e = absurd (omega (arith, e.0))
bswap_16-joined ((a ∷ b ∷ c ∷ g) ∷ gs) e = absurd (omega (arith, e.0))

bswap_24-joined :
    (gs : List (List ℕ))
    → All (λ g. length g ≡ 3) gs
    → audio_conv_bswap_24 (joined gs) ≡ joined (map reverse gs)
unfolding audio_conv_bswap_24 joined
bswap_24-joined [] e = refl
bswap_24-joined ((a ∷ b ∷ c ∷ []) ∷ gs) e = ap (λ z. c ∷ b ∷ a ∷ z) (bswap_24-joined gs e.1)
bswap_24-joined ([] ∷ gs) e = absurd (omega (arith, e.0))
bswap_24-joined ((a ∷ []) ∷ gs) e = absurd (omega (arith, e.0))
bswap_24-joined ((a ∷ b ∷ []) ∷ gs) e = absurd (omega (arith, e.0))
bswap_24-joined ((a ∷ b ∷ c ∷ d ∷ g) ∷ gs) e = absurd (omega (arith, e.0))

bswap_32-joined :
    (gs : List (List ℕ))
    → All (λ g. length g ≡ 4) gs
    → audio_conv_bswap_32 (joined gs) ≡ joined (map reverse gs)
unfolding audio_conv_bswap_32 joined
bswap_32-joined [] e = refl
bswap_32-joined ((a ∷ b ∷ c ∷ d ∷ []) ∷ gs) e = ap (λ z. d ∷ c ∷ b ∷ a ∷ z) (bswap_32-joined gs e.1)
bswap_32-joined ([] ∷ gs) e = absurd (omega (arith, e.0))
bswap_32-joined ((a ∷ []) ∷ gs) e = absurd (omega (arith, e.0))
bswap_32-joined ((a ∷ b ∷ []) ∷ gs) e = absurd (omega (arith, e.0))
bswap_32-joined ((a ∷ b ∷ c ∷ []) ∷ gs) e = absurd (omega (arith, e.0))
bswap_32-joined ((a ∷ b ∷ c ∷ d ∷ x ∷ g) ∷ gs) e = absurd (omega (arith, e.0))

single-joined :
    (gs : List (List ℕ)) → All (λ g. length g ≡ 1) gs → joined gs ≡ joined (map reverse gs)
unfolding joined
single-joined [] e = refl
single-joined ((a ∷ []) ∷ gs) e = ap (λ z. a ∷ z) (single-joined gs e.1)
single-joined ([] ∷ gs) e = absurd (omega (arith, e.0))
single-joined ((a ∷ b ∷ g) ∷ gs) e = absurd (omega (arith, e.0))

abbrev pub is_float : Format → Bool
is_float Format.float = true
is_float f = false

-- `swap_endian` of a buffer of whole fixed point samples reverses the bytes of each sample, as many as
-- `sfmt_Bps` says.
pub swap_endian-reverse :
    (fmt : Format) (gs : List (List ℕ))
    → is_float fmt ≡ false
    → All (λ g. length g ≡ sfmt_bps fmt) gs
    → swap_endian fmt (joined gs) ≡ joined (map reverse gs)
unfolding swap_endian sfmt_bps
swap_endian-reverse Format.s8 gs f e = single-joined gs e
swap_endian-reverse Format.u8 gs f e = single-joined gs e
swap_endian-reverse Format.s16 gs f e = bswap_16-joined gs e
swap_endian-reverse Format.u16 gs f e = bswap_16-joined gs e
swap_endian-reverse Format.s24 gs f e = bswap_32-joined gs e
swap_endian-reverse Format.u24 gs f e = bswap_32-joined gs e
swap_endian-reverse Format.s32 gs f e = bswap_32-joined gs e
swap_endian-reverse Format.u32 gs f e = bswap_32-joined gs e
swap_endian-reverse Format.s24_3 gs f e = bswap_24-joined gs e
swap_endian-reverse Format.u24_3 gs f e = bswap_24-joined gs e
swap_endian-reverse Format.float gs f e = cc

stereo_loop-joined :
    (b fuel : ℕ) (fs : List (List ℕ))
    → All (λ f. length f ≡ suc b) fs
    → length (joined fs) ≤ fuel
    → mono_to_stereo_loop fuel (suc b) (joined fs) ≡ joined (map (λ f. f ++ f) fs)
unfolding mono_to_stereo_loop joined
stereo_loop-joined b zero [] e l = refl
stereo_loop-joined b (suc fuel) [] e l = refl
stereo_loop-joined b zero ((x ∷ f) ∷ fs) e l = absurd (omega arith)
stereo_loop-joined b fuel ([] ∷ fs) e l = absurd (omega (arith, e.0))
stereo_loop-joined b (suc fuel) ((x ∷ f) ∷ fs) e l =
    let same = stereo_loop-joined b fuel fs e.1 (omega (arith, length-append f (joined fs))) in
    rw
      (
        take-append_self b f (joined fs) (omega (arith, e.0)),
        drop-append_self b f (joined fs) (omega (arith, e.0)),
        same,
      )
      (sym (append_assoc (x ∷ f) (x ∷ f) (joined (map (λ f. f ++ f) fs))))

-- `mono_to_stereo` of a buffer of whole samples, of a byte or more each, puts every sample there twice.
mono_to_stereo-doubles :
    (b : ℕ) (fs : List (List ℕ))
    → All (λ f. length f ≡ suc b) fs
    → mono_to_stereo (suc b) (joined fs) ≡ joined (map (λ f. f ++ f) fs)
unfolding mono_to_stereo
mono_to_stereo-doubles b fs e = stereo_loop-joined b (length (joined fs)) fs e (omega arith)
