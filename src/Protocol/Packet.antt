-- ===== src/Protocol/Packet.antt =====
-- `struct packet_buf`: a growing buffer that a message is written to.
pub mod Contents
use mocp.Prelude.{
  ℕ, ◌+◌, ◌≡◌, List, [], Bool, true, false, Option, none, some, ltb, if◌then◌else◌, length, take,
  min, blit,
}
use mocp.Prelude.Int.{ℤ, pos, negsuc}
use mocp.Bytes.{Str, int_bytes, time_bytes}
use mocp.Tags.{FileTags, has_flag, tags_time, tags_rating}
use mocp.Item.{PlistItem}

-- realloc (3), as xmalloc and xrealloc call it: the new block has the size asked for, and starts with
-- the bytes of the old one. What else is in it is not known.
pub record Memory : Type 0 where
  pub realloc : List ℕ → ℕ → List ℕ
  pub length_is : (old : List ℕ) (n : ℕ) → length (realloc old n) ≡ n
  pub keeps :
      (old : List ℕ) (n : ℕ)
      → take (min n (length old)) (realloc old n) ≡ take (min n (length old)) old

pub record PacketBuf : Type 0 where
  pub buf : List ℕ
  pub allocated : ℕ
  pub len : ℕ

-- `title ? title : ""`
abbrev pub or_empty : Option Str → Str
or_empty none = []
or_empty (some s) = s

module _ (mem : Memory) where
  unfoldable pub packet_buf_new : PacketBuf
  packet_buf_new = record { buf = mem.realloc [] 1024; allocated = 1024; len = 0 }

  unfoldable pub packet_buf_add_space : PacketBuf → ℕ → PacketBuf
  packet_buf_add_space b n =
      if ltb b.allocated (b.len + n)
      then record b {
        allocated = b.allocated + (n + 256);
        buf = mem.realloc b.buf (b.allocated + (n + 256));
      }
      else b

  -- `memcpy (b->buf + b->len, bytes, n); b->len += n;` behind a call of packet_buf_add_space
  abbrev pub append_bytes : PacketBuf → List ℕ → PacketBuf
  append_bytes b bytes =
      let c = packet_buf_add_space b (length bytes) in
      record c { buf = blit c.buf c.len bytes; len = c.len + length bytes }

  unfoldable pub packet_buf_add_int : PacketBuf → ℤ → PacketBuf
  packet_buf_add_int b n = append_bytes b (int_bytes n)

  unfoldable pub packet_buf_add_str : PacketBuf → Str → PacketBuf
  packet_buf_add_str b s = append_bytes (packet_buf_add_int b (pos (length s))) s

  unfoldable pub packet_buf_add_time : PacketBuf → ℤ → PacketBuf
  packet_buf_add_time b n = append_bytes b (time_bytes n)

  add_known_tags : PacketBuf → FileTags → PacketBuf
  add_known_tags b t =
      let b = packet_buf_add_str b (or_empty t.title) in
      let b = packet_buf_add_str b (or_empty t.artist) in
      let b = packet_buf_add_str b (or_empty t.album) in
      let b = packet_buf_add_int b t.track in
      let b = packet_buf_add_int b (if has_flag t.filled tags_time then t.time else negsuc 0) in
      let b = packet_buf_add_int b (if has_flag t.filled tags_rating then t.rating else negsuc 0) in
      packet_buf_add_int b t.filled

  add_no_tags : PacketBuf → PacketBuf
  add_no_tags b =
      let b = packet_buf_add_str b [] in
      let b = packet_buf_add_str b [] in
      let b = packet_buf_add_str b [] in
      let b = packet_buf_add_int b (negsuc 0) in
      let b = packet_buf_add_int b (negsuc 0) in
      let b = packet_buf_add_int b (negsuc 0) in packet_buf_add_int b (pos 0)

  unfoldable pub packet_buf_add_tags : PacketBuf → Option FileTags → PacketBuf
  unfolding add_known_tags add_no_tags
  packet_buf_add_tags b none = add_no_tags b
  packet_buf_add_tags b (some t) = add_known_tags b t

  -- The assertion on `item->file` fails for NULL.
  unfoldable pub packet_buf_add_item : PacketBuf → PlistItem → Option PacketBuf
  packet_buf_add_item b item = elim item.file [
    | none ↦ none
    | some file ↦
        let b = packet_buf_add_str b file in
        let b = packet_buf_add_str b (or_empty item.title_tags) in
        let b = packet_buf_add_tags b item.tags in some (packet_buf_add_time b item.mtime)
  ]
