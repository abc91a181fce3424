-- ===== src/Tags/Update.antt =====
-- What `tags_update` fills in, and what it leaves alone.
use mocp.Prelude.{
  ℕ, ◌≡◌, refl, Bool, true, false, ◌&&◌, ◌||◌, none, some, if◌then◌else◌, arith, not,
}
use mocp.Prelude.Int.{ℤ, pos, negsuc, ◌+ℤ◌, ◌-ℤ◌}
use mocp.Bytes.{IsWord}
use mocp.Tags.{
  FileTags, has_flag, set_flag, clear_flag, tags_comments, tags_time, tags_rating, tags_update,
  update_time, update_rating, update_comments, is_null,
}

-- `f` after the flag `k` was made to be `b`, with the flags `i` and `j` as they were
record FlagIs (f f' : ℤ) (k : ℕ) (b : Bool) (i j : ℕ) : Type 0 where
  flag : has_flag f' k ≡ b
  keep_i : has_flag f' i ≡ has_flag f i
  keep_j : has_flag f' j ≡ has_flag f j
  word : IsWord 32 f'

set_comments : (f : ℤ) → IsWord 32 f → FlagIs f (set_flag f 0) 0 true 1 2
unfolding has_flag set_flag ◌+ℤ◌
set_comments (pos n) h = ground arith
set_comments (negsuc n) h = ground arith

set_time : (f : ℤ) → IsWord 32 f → FlagIs f (set_flag f 1) 1 true 0 2
unfolding has_flag set_flag ◌+ℤ◌
set_time (pos n) h = ground arith
set_time (negsuc n) h = ground arith

set_rating : (f : ℤ) → IsWord 32 f → FlagIs f (set_flag f 2) 2 true 0 1
unfolding has_flag set_flag ◌+ℤ◌
set_rating (pos n) h = ground arith
set_rating (negsuc n) h = ground arith

clear_comments : (f : ℤ) → IsWord 32 f → FlagIs f (clear_flag f 0) 0 false 1 2
unfolding has_flag clear_flag ◌-ℤ◌
clear_comments (pos n) h = ground arith
clear_comments (negsuc n) h = ground arith

-- a field that is taken from `src` if only `src` has it filled
abbrev pub merged {ℓ} : {A : Type ℓ} → ℤ → ℤ → ℕ → A → A → A
merged f g k old new = if not (has_flag f k) && has_flag g k then new else old

pub record Updated (dst src : FileTags) (move : Bool) (r : FileTags × FileTags) : Type 0 where
  pub comments :
      has_flag r.0.filled tags_comments
      ≡ has_flag dst.filled tags_comments || has_flag src.filled tags_comments
  pub times :
      has_flag r.0.filled tags_time ≡ has_flag dst.filled tags_time || has_flag src.filled tags_time
  pub ratings :
      has_flag r.0.filled tags_rating
      ≡ has_flag dst.filled tags_rating || has_flag src.filled tags_rating
  pub title : r.0.title ≡ merged dst.filled src.filled tags_comments dst.title src.title
  pub artist : r.0.artist ≡ merged dst.filled src.filled tags_comments dst.artist src.artist
  pub album : r.0.album ≡ merged dst.filled src.filled tags_comments dst.album src.album
  pub track : r.0.track ≡ merged dst.filled src.filled tags_comments dst.track src.track
  pub time : r.0.time ≡ merged dst.filled src.filled tags_time dst.time src.time
  pub rating : r.0.rating ≡ merged dst.filled src.filled tags_rating dst.rating src.rating
  pub copied : move ≡ false → r.1 ≡ src

-- the assertion of `tags_update`
abbrev pub MayUpdate : FileTags → FileTags → Type 0
MayUpdate dst src =
    not (has_flag dst.filled tags_comments) && has_flag src.filled tags_comments ≡ true
    → is_null dst.title && (is_null dst.artist && is_null dst.album) ≡ true

-- the result, where the assertion holds
updated_src : FileTags → FileTags → Bool → FileTags
updated_src dst src move =
    if (not (has_flag dst.filled tags_comments) && has_flag src.filled tags_comments) && move
    then record src {
      title = none;
      artist = none;
      album = none;
      filled = clear_flag src.filled tags_comments;
    }
    else src

updated_dst : FileTags → FileTags → FileTags
updated_dst dst src =
    if not (has_flag dst.filled tags_comments) && has_flag src.filled tags_comments
    then record dst {
      title = src.title;
      artist = src.artist;
      album = src.album;
      track = src.track;
      filled = set_flag dst.filled tags_comments;
    }
    else dst

update_comments_lem :
    (move : Bool) (dst src : FileTags)
    → MayUpdate dst src
    → update_comments move dst src ≡ some (updated_dst dst src, updated_src dst src move)
unfolding update_comments updated_dst updated_src
update_comments_lem move dst src h = ground (arith)

-- the flags after each of the three parts
dst_flags :
    (dst src : FileTags)
    → IsWord 32 dst.filled
    → FlagIs dst.filled
        (updated_dst dst src).filled
        0
        (has_flag dst.filled 0 || has_flag src.filled 0)
        1
        2
unfolding updated_dst
dst_flags dst src h = ground (arith, set_comments dst.filled h)

src_flags :
    (dst src : FileTags) (move : Bool)
    → IsWord 32 src.filled
    → let s = updated_src dst src move in
      (has_flag s.filled 1 ≡ has_flag src.filled 1)
      × (has_flag s.filled 2 ≡ has_flag src.filled 2)
      × (s.time ≡ src.time)
      × (s.rating ≡ src.rating)
unfolding updated_src
src_flags dst src move h = ground (arith, clear_comments src.filled h)

time_flags :
    (dst src : FileTags)
    → IsWord 32 dst.filled
    → FlagIs dst.filled
        (update_time dst src).filled
        1
        (has_flag dst.filled 1 || has_flag src.filled 1)
        0
        2
unfolding update_time
time_flags dst src h = ground (arith, set_time dst.filled h)

rating_flags :
    (dst src : FileTags)
    → IsWord 32 dst.filled
    → FlagIs dst.filled
        (update_rating dst src).filled
        2
        (has_flag dst.filled 2 || has_flag src.filled 2)
        0
        1
unfolding update_rating
rating_flags dst src h = ground (arith, set_rating dst.filled h)

-- `tags_update` gives `dst` each tag that only `src` has filled, leaves every other tag of `dst`
-- alone, marks as filled what either had filled, and without `move` leaves `src` as it is. Its
-- assertion is the hypothesis `MayUpdate`.
pub tags_update_lem :
    (dst src : FileTags) (move : Bool)
    → IsWord 32 dst.filled
    → IsWord 32 src.filled
    → MayUpdate dst src
    → (r : FileTags × FileTags) × (tags_update dst src move ≡ some r) × Updated dst src move r
unfolding tags_update
tags_update_lem dst src move hd hs m = (
  (update_rating (update_time d s) s, s),
  rw (update_comments_lem move dst src m, tags_update) refl,
  record {
    comments = ground (arith, fd, ft, fr);
    times = ground (arith, fd, fs, ft, fr);
    ratings = ground (arith, fd, fs, ft, fr);
    title = unfold updated_dst in ground arith;
    artist = unfold updated_dst in ground arith;
    album = unfold updated_dst in ground arith;
    track = unfold updated_dst in ground arith;
    time = ground (arith, fd, fs, ft, time_same);
    rating = ground (arith, fd, fs, ft, time_same);
    copied = unfold updated_src in ground arith;
  },
)
  where
    d : FileTags
    d = updated_dst dst src

    s : FileTags
    s = updated_src dst src move

    fd : FlagIs dst.filled d.filled 0 (has_flag dst.filled 0 || has_flag src.filled 0) 1 2
    fd = dst_flags dst src hd

    fs :
        (has_flag s.filled 1 ≡ has_flag src.filled 1)
        × (has_flag s.filled 2 ≡ has_flag src.filled 2)
        × (s.time ≡ src.time)
        × (s.rating ≡ src.rating)
    fs = src_flags dst src move hs

    ft : FlagIs d.filled (update_time d s).filled 1 (has_flag d.filled 1 || has_flag s.filled 1) 0 2
    ft = time_flags d s fd.word

    fr :
        FlagIs
          (update_time d s).filled
          (update_rating (update_time d s) s).filled
          2
          (has_flag (update_time d s).filled 2 || has_flag s.filled 2)
          0
          1
    fr = rating_flags (update_time d s) s ft.word

    time_same : (d.time ≡ dst.time) × (d.rating ≡ dst.rating)
    time_same = unfold updated_dst in ground arith
