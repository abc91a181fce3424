-- ===== src/Protocol/Packet/Contents.antt =====
-- What the functions packet_buf_add_* of protocol.c leave in the buffer.
use mocp.Prelude.{
  ℕ, ◌+◌, ◌≤◌, ◌≡◌, refl, ap, ◌∙◌, sym, List, [], ◌++◌, Option, none, some, ltb, if◌then◌else◌,
  length, take, min, Bool-cases, inl, inr, length-blit, take-take, take-blit, append_assoc, arith,
}
use mocp.Prelude.Int.{ℤ, pos, negsuc}
use mocp.Bytes.{Str, int_bytes, time_bytes}
use mocp.Tags.{FileTags, has_flag, tags_time, tags_rating}
use mocp.Item.{PlistItem}
use mocp.Protocol.Packet.{
  Memory, PacketBuf, or_empty, packet_buf_new, packet_buf_add_space, append_bytes,
  packet_buf_add_int, packet_buf_add_str, packet_buf_add_time, packet_buf_add_tags,
  packet_buf_add_item,
}

-- The bytes of the message so far lie inside the block.
pub record IsValid (b : PacketBuf) : Type 0 where
  pub storage : length b.buf ≡ b.allocated
  pub inside : b.len ≤ b.allocated

pub contents : PacketBuf → List ℕ
contents b = take b.len b.buf

pub record Appends (b b' : PacketBuf) (bytes : List ℕ) : Type 0 where
  pub valid : IsValid b'
  pub bytes_in : contents b' ≡ contents b ++ bytes

-- the bytes of a string, of tags and of an item in a message
abbrev pub str_bytes : Str → List ℕ
str_bytes s = int_bytes (pos (length s)) ++ s

abbrev pub sent_time : FileTags → ℤ
sent_time t = if has_flag t.filled tags_time then t.time else negsuc 0

abbrev pub sent_rating : FileTags → ℤ
sent_rating t = if has_flag t.filled tags_rating then t.rating else negsuc 0

abbrev pub tags_bytes : Option FileTags → List ℕ
tags_bytes none =
    str_bytes []
    ++ (str_bytes []
        ++ (str_bytes []
            ++ (int_bytes (negsuc 0)
                ++ (int_bytes (negsuc 0) ++ (int_bytes (negsuc 0) ++ int_bytes (pos 0))))))
tags_bytes (some t) =
    str_bytes (or_empty t.title)
    ++ (str_bytes (or_empty t.artist)
        ++ (str_bytes (or_empty t.album)
            ++ (int_bytes t.track
                ++ (int_bytes (sent_time t) ++ (int_bytes (sent_rating t) ++ int_bytes t.filled)))))

abbrev pub item_bytes : Str → PlistItem → List ℕ
item_bytes file item =
    str_bytes file
    ++ (str_bytes (or_empty item.title_tags) ++ (tags_bytes item.tags ++ time_bytes item.mtime))

Appends-trans :
    {b c d : PacketBuf} (xs ys : List ℕ) → Appends b c xs → Appends c d ys → Appends b d (xs ++ ys)
Appends-trans {b} xs ys p q = record {
  valid = q.valid;
  bytes_in = q.bytes_in ∙ ap (λ l. l ++ ys) p.bytes_in ∙ append_assoc (contents b) xs ys;
}

module _ (mem : Memory) where
  -- A new buffer is empty.
  pub new-empty : IsValid (packet_buf_new mem) × (contents (packet_buf_new mem) ≡ [])
  unfolding packet_buf_new contents
  new-empty = (record { storage = mem.length_is [] 1024; inside = omega arith }, refl)

  add_space_lem :
      {b : PacketBuf} (n : ℕ)
      → IsValid b
      → let c = packet_buf_add_space mem b n in
        IsValid c × (c.len ≡ b.len) × (b.len + n ≤ c.allocated) × (contents c ≡ contents b)
  unfolding packet_buf_add_space contents
  add_space_lem {b} n v = elim (Bool-cases (ltb b.allocated (b.len + n))) [
    | inl full ↦ rw full (
      record { storage = mem.length_is _ _; inside = omega arith },
      refl,
      omega arith,
      sym (take-take b.len k _ (omega (arith, v.storage)))
          ∙ ap (take b.len) (mem.keeps b.buf (b.allocated + (n + 256)))
          ∙ take-take b.len k b.buf (omega (arith, v.storage)),
    )
    | inr room ↦ rw room (v, refl, ground arith, refl)
  ]
    where
      k : ℕ
      k = min (b.allocated + (n + 256)) (length b.buf)

  append_bytes-Appends :
      {b : PacketBuf} (bytes : List ℕ) → IsValid b → Appends b (append_bytes mem b bytes) bytes
  unfolding contents
  append_bytes-Appends {b} bytes v =
      let c = packet_buf_add_space mem b (length bytes) in
      let s = add_space_lem (length bytes) v in
      record {
        valid = omega (arith, s, length-blit c.buf c.len bytes);
        bytes_in = take-blit c.buf c.len _ bytes refl (omega (arith, s)) ∙ ap (λ l. l ++ bytes) s.3;
      }

  add_int-Appends :
      {b : PacketBuf} (n : ℤ) → IsValid b → Appends b (packet_buf_add_int mem b n) (int_bytes n)
  unfolding packet_buf_add_int
  add_int-Appends n v = append_bytes-Appends (int_bytes n) v

  add_time-Appends :
      {b : PacketBuf} (n : ℤ) → IsValid b → Appends b (packet_buf_add_time mem b n) (time_bytes n)
  unfolding packet_buf_add_time
  add_time-Appends n v = append_bytes-Appends (time_bytes n) v

  pub add_str-Appends :
      {b : PacketBuf} (s : Str) → IsValid b → Appends b (packet_buf_add_str mem b s) (str_bytes s)
  unfolding packet_buf_add_str
  add_str-Appends s v =
      let p = add_int-Appends (pos (length s)) v in
      Appends-trans _ s p (append_bytes-Appends s p.valid)

  -- three strings and four integers, as tags are written
  fields : PacketBuf → Str → Str → Str → ℤ → ℤ → ℤ → ℤ → PacketBuf
  fields b s t u i j k l =
      packet_buf_add_int mem
        (packet_buf_add_int mem
          (packet_buf_add_int mem
            (packet_buf_add_int mem
              (packet_buf_add_str mem (packet_buf_add_str mem (packet_buf_add_str mem b s) t) u) i)
            j)
          k)
        l

  fields-Appends :
      {b : PacketBuf} (s t u : Str) (i j k l : ℤ)
      → IsValid b
      → Appends b (fields b s t u i j k l) (
          str_bytes s
          ++ (str_bytes t
              ++ (str_bytes u ++ (int_bytes i ++ (int_bytes j ++ (int_bytes k ++ int_bytes l))))))
  unfolding fields
  fields-Appends s t u i j k l v =
      let p1 = add_str-Appends s v in
      let p2 = add_str-Appends t p1.valid in
      let p3 = add_str-Appends u p2.valid in
      let p4 = add_int-Appends i p3.valid in
      let p5 = add_int-Appends j p4.valid in
      let p6 = add_int-Appends k p5.valid in
      Appends-trans _ _ p1 (
        Appends-trans _ _ p2 (
          Appends-trans _ _ p3 (
            Appends-trans _ _ p4
              (Appends-trans _ _ p5 (Appends-trans _ _ p6 (add_int-Appends l p6.valid))))))

  -- `packet_buf_add_tags` appends the bytes of the tags, and those of empty tags for NULL.
  pub add_tags-Appends :
      {b : PacketBuf} (tags : Option FileTags)
      → IsValid b
      → Appends b (packet_buf_add_tags mem b tags) (tags_bytes tags)
  unfolding packet_buf_add_tags fields
  add_tags-Appends none v = fields-Appends [] [] [] (negsuc 0) (negsuc 0) (negsuc 0) (pos 0) v
  add_tags-Appends (some t) v =
      fields-Appends (or_empty t.title) (or_empty t.artist) (or_empty t.album) t.track (sent_time t)
        (sent_rating t) t.filled v

  -- `packet_buf_add_item` appends the bytes of an item that has a file, behind what the buffer holds,
  -- and stays inside the block that it has allocated.
  pub add_item-Appends :
      {b : PacketBuf} (item : PlistItem) (file : Str)
      → IsValid b
      → item.file ≡ some file
      → (c : PacketBuf) × (packet_buf_add_item mem b item ≡ some c)
        × Appends b c (item_bytes file item)
  unfolding packet_buf_add_item
  add_item-Appends {b} item file v e =
      let p1 = add_str-Appends file v in
      let p2 = add_str-Appends (or_empty item.title_tags) p1.valid in
      let p3 = add_tags-Appends item.tags p2.valid in
      (
        _,
        rw (e, packet_buf_add_item) refl,
        Appends-trans _ _ p1
            (Appends-trans _ _ p2 (Appends-trans _ _ p3 (add_time-Appends item.mtime p3.valid))),
      )
