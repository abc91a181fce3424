-- ===== src/Audio/Formats/Best.antt =====
-- audio.c: which format `sfmt_best_matching` chooses.
use mocp.Prelude.{
  ℕ, ◌≤◌, ◌≡◌, refl, ◌∙◌, Bool, true, false, ◌||◌, Option, none, some, List, [], ◌∷◌, if◌then◌else◌,
  leb, arith, inl, inr, Bool-cases, All,
}
use mocp.Sound.{Format}
use mocp.Sound.Format.{s8, u8, s16, u16, s24, u24, s32, u32, s24_3, u24_3, float}
use mocp.Audio.Formats.Preferred.{every, preferred}
use mocp.Audio.Formats.{
  has, has_bit, sfmt_le, sfmt_be, has_no_endian, preference, first_of, with_endian, with_endian_if,
  sfmt_best_matching,
}

-- the bits of a sample that count
abbrev pub depth : Format → ℕ
depth s8 = 8
depth u8 = 8
depth s16 = 16
depth u16 = 16
depth s24 = 24
depth u24 = 24
depth s32 = 32
depth u32 = 32
depth s24_3 = 24
depth u24_3 = 24
depth float = 32

-- the depth does not reach d behind a format whose depth does not
shallow : ℕ → List Format → Bool
shallow d [] = true
shallow d (f ∷ fs) = let rest = shallow d fs in if leb d (depth f) then false else rest

descends : ℕ → List Format → Bool
descends d [] = true
descends d (f ∷ fs) =
    let rest = descends d fs in let low = shallow d fs in if leb d (depth f) then rest else low

descends-preference : (req : Format) → descends (depth req) (preference req) ≡ true
unfolding preference descends shallow
descends-preference s8 = refl
descends-preference u8 = refl
descends-preference s16 = refl
descends-preference u16 = refl
descends-preference s24 = refl
descends-preference u24 = refl
descends-preference s32 = refl
descends-preference u32 = refl
descends-preference s24_3 = refl
descends-preference u24_3 = refl
descends-preference float = refl

false_of : {b : Bool} → b ≡ false → ¬ (b ≡ true)
false_of e h = cc

-- Nothing that is available is in the list when nothing is chosen, and nothing deep when something
-- shallow is.
Chosen : ℕ → ℕ → List Format → Option Format → Type 0
Chosen formats d fs none = All (λ g. has formats g ≡ false) fs
Chosen formats d fs (some f) =
    (has formats f ≡ true) × All (λ g. has formats g ≡ true → d ≤ depth g → d ≤ depth f) fs

shallow-All :
    (formats d d' : ℕ) (fs : List Format)
    → shallow d fs ≡ true
    → All (λ g. has formats g ≡ true → d ≤ depth g → d ≤ d') fs
unfolding shallow
shallow-All formats d d' [] e = tt
shallow-All formats d d' (f ∷ fs) e =
    ((λ h l. absurd (ground arith)), shallow-All formats d d' fs (ground arith))

all_deep :
    (formats d d' : ℕ) (fs : List Format)
    → d ≤ d'
    → All (λ g. has formats g ≡ true → d ≤ depth g → d ≤ d') fs
all_deep formats d d' [] l = tt
all_deep formats d d' (f ∷ fs) l = ((λ h k. l), all_deep formats d d' fs l)

descends_of_shallow : (d : ℕ) (fs : List Format) → shallow d fs ≡ true → descends d fs ≡ true
unfolding shallow descends
descends_of_shallow d [] e = refl
descends_of_shallow d (f ∷ fs) e = ground arith

-- a format that is not available in front of a list
skip-Chosen :
    (formats d : ℕ) (f : Format) (fs : List Format) (o : Option Format)
    → has formats f ≡ false
    → Chosen formats d fs o
    → Chosen formats d (f ∷ fs) o
unfolding Chosen
skip-Chosen formats d f fs none e c = (e, c)
skip-Chosen formats d f fs (some g) e (h, c) = (h, ((λ h'. absurd (false_of e h')), c))

first_of-Chosen :
    (formats d : ℕ) (fs : List Format)
    → descends d fs ≡ true
    → Chosen formats d fs (first_of formats fs)
unfolding Chosen first_of descends
first_of-Chosen formats d [] e = tt
first_of-Chosen formats d (f ∷ fs) e = elim (Bool-cases (has formats f)) [
  | inl h ↦ rw h (elim (Bool-cases (leb d (depth f))) [
    | inl deep ↦ (h, all_deep formats d (depth f) (f ∷ fs) (ground arith))
    | inr low ↦ (h, ((λ h' l. l), shallow-All formats d (depth f) fs (ground arith)))
  ])
  | inr h ↦ rw h (
      skip-Chosen formats d f fs (first_of formats fs) h
        (first_of-Chosen formats d fs (ground (arith, descends_of_shallow d fs))))
]

-- what is said of the result
abbrev pub IsBest : ℕ → Format → Format → Format × (Bool × Bool) → Type 0
IsBest formats req g (f, e) =
    (has formats f ≡ true)
    × (has formats req ≡ true → f ≡ req)
    × (depth req ≤ depth g → depth req ≤ depth f)

with_endian-IsBest :
    (formats : ℕ) (req g f : Format)
    → (has_bit formats sfmt_le || has_bit formats sfmt_be) ≡ true
    → IsBest formats req g (f, (false, false))
    → (r : Format × (Bool × Bool)) × (with_endian formats f ≡ some r) × IsBest formats req g r
with_endian-IsBest formats req g f e b = elim (Bool-cases (has_no_endian f)) [
  | inl h ↦ ((f, (false, false)), rw h refl, b)
  | inr h ↦ ((f, (has_bit formats sfmt_le, has_bit formats sfmt_be)), rw (h, e) refl, b)
]

with_endian_if-IsBest :
    (formats : ℕ) (req g : Format) (o : Option Format)
    → has formats req ≡ false
    → has formats g ≡ true
    → (has_bit formats sfmt_le || has_bit formats sfmt_be) ≡ true
    → Chosen formats (depth req) (preference req) o
    → (r : Format × (Bool × Bool)) × (with_endian_if formats o ≡ some r) × IsBest formats req g r
unfolding Chosen
with_endian_if-IsBest formats req g none n h e c =
    absurd (false_of (every (λ g. has formats g ≡ false) g (preferred _ req c n)) h)
with_endian_if-IsBest formats req g (some f) n h e (a, c) = with_endian-IsBest formats req g f e (
  a,
  (λ k. absurd (false_of n k)),
  every (λ g. has formats g ≡ true → depth req ≤ depth g → depth req ≤ depth f) g
      (preferred _ req c (λ k l. absurd (false_of n k))) h,
)

-- Where a format and a byte order are available, sfmt_best_matching passes its assertions and
-- returns a format that is available, the requested one if it is available, and one of no fewer
-- bits than were requested if there is one; a float counts as 32 bits.
pub sfmt_best_matching-IsBest :
    (formats : ℕ) (req g : Format)
    → has formats g ≡ true
    → (has_bit formats sfmt_le || has_bit formats sfmt_be) ≡ true
    → (r : Format × (Bool × Bool)) × (sfmt_best_matching formats req ≡ some r)
      × IsBest formats req g r
unfolding sfmt_best_matching
sfmt_best_matching-IsBest formats req g h e = elim (Bool-cases (has formats req)) [
  | inl k ↦
      let asked : sfmt_best_matching formats req ≡ with_endian formats req = rw k refl in
      let (r, s, b) = with_endian-IsBest formats req g req e (k, (λ k'. refl), λ l. omega arith) in
      (r, asked ∙ s, b)
  | inr k ↦
      let first : sfmt_best_matching formats req
          ≡ with_endian_if formats (first_of formats (preference req)) =
        rw k refl in
      let (r, s, b) =
        with_endian_if-IsBest formats req g (first_of formats (preference req)) k h e
          (first_of-Chosen formats (depth req) (preference req) (descends-preference req)) in
      (r, first ∙ s, b)
]
