-- ===== src/Protocol/Receive/RoundTrip.antt =====
-- `packet_buf_add_item` and `recv_item` of protocol.c, one after the other.
use mocp.Prelude.{
  ℕ, ◌≤◌, ◌≡◌, ap, ◌∙◌, Bool, true, false, Option, none, some, List, [], ◌∷◌, ◌++◌, length, arith,
  if◌then◌else◌,
}
use mocp.Prelude.Int.{ℤ, pos, negsuc}
use mocp.Bytes.{Str, IsWord, IsString, int_bytes}
use mocp.Tags.{FileTags, tags_new, has_flag}
use mocp.Files.{World, file_type}
use mocp.Item.{PlistItem, plist_new_item}
use mocp.Protocol.Packet.{Memory, PacketBuf, or_empty, packet_buf_new, packet_buf_add_item}
use mocp.Protocol.Packet.Contents.{
  str_bytes, tags_bytes, item_bytes, contents, new-empty, add_item-Appends, sent_time, sent_rating,
}
use mocp.Protocol.Socket.{Socket, Delivers, get_int, get_time, get_str, max_send_string}
use mocp.Protocol.Socket.Laws.{
  Takes, bind-Takes, map-Takes, get_int-Takes, get_time-Takes, get_str-Takes,
}
use mocp.Protocol.Receive.{null_if_empty, recv_tags, recv_item}

-- A string that `get_str` accepts.
abbrev pub CanSend : Str → Type 0
CanSend s = IsString s × (length s ≤ max_send_string)

pub record CanSendTags (t : FileTags) : Type 0 where
  pub title : CanSend (or_empty t.title)
  pub artist : CanSend (or_empty t.artist)
  pub album : CanSend (or_empty t.album)
  pub track : IsWord 32 t.track
  pub time : IsWord 32 t.time
  pub rating : IsWord 32 t.rating
  pub filled : IsWord 32 t.filled

-- An empty string arrives as NULL, and a time or rating that is not filled as -1.
abbrev pub received_tags : Option FileTags → FileTags
received_tags none = record {
  title = none;
  artist = none;
  album = none;
  track = negsuc 0;
  time = negsuc 0;
  rating = negsuc 0;
  filled = pos 0;
}
received_tags (some t) = record t {
  title = null_if_empty (or_empty t.title);
  artist = null_if_empty (or_empty t.artist);
  album = null_if_empty (or_empty t.album);
  time = sent_time t;
  rating = sent_rating t;
}

-- what the other end needs of tags that may be NULL
abbrev pub CanSendOption : Option FileTags → Type 0
CanSendOption none = Unit {0}
CanSendOption (some t) = CanSendTags t

empty-CanSend : CanSend []
empty-CanSend = (tt, omega arith)

-- the item that arrives: the fields of `item` that are sent, and the kind of its file
abbrev pub received_item : World → Str → PlistItem → PlistItem
received_item w file item = record {
  file = some file;
  kind = file_type w file;
  title_file = none;
  title_tags = null_if_empty (or_empty item.title_tags);
  tags = some (received_tags item.tags);
  deleted = false;
  mtime = item.mtime;
  queue_pos = pos 0;
}

module _ (k : Socket) (d : Delivers k) where
  recv_fields-Takes :
      (s t u : Str) (i j l m : ℤ)
      → CanSend s
      → CanSend t
      → CanSend u
      → IsWord 32 i
      → IsWord 32 j
      → IsWord 32 l
      → IsWord 32 m
      → Takes k d
          (recv_tags k)
          (str_bytes s
            ++ (str_bytes t
                ++ (str_bytes u ++ (int_bytes i ++ (int_bytes j ++ (int_bytes l ++ int_bytes m))))))
          (record {
            title = null_if_empty s;
            artist = null_if_empty t;
            album = null_if_empty u;
            track = i;
            time = j;
            rating = l;
            filled = m;
          })
  unfolding recv_tags tags_new
  recv_fields-Takes s t u i j l m hs ht hu hi hj hl hm =
      bind-Takes k d (get_str k) _ _ _ s _ (get_str-Takes k d s hs.0 hs.1) (
        bind-Takes k d (get_str k) _ _ _ t _ (get_str-Takes k d t ht.0 ht.1) (
          bind-Takes k d (get_str k) _ _ _ u _ (get_str-Takes k d u hu.0 hu.1) (
            bind-Takes k d (get_int k) _ _ _ i _ (get_int-Takes k d i hi) (
              bind-Takes k d (get_int k) _ _ _ j _ (get_int-Takes k d j hj) (
                bind-Takes k d (get_int k) _ _ _ l _ (get_int-Takes k d l hl)
                  (map-Takes k d (get_int k) _ _ m (get_int-Takes k d m hm)))))))

  -- `recv_tags` reads what `packet_buf_add_tags` has written.
  pub recv_tags-Takes :
      (tags : Option FileTags)
      → CanSendOption tags
      → Takes k d (recv_tags k) (tags_bytes tags) (received_tags tags)
  recv_tags-Takes none h =
      recv_fields-Takes [] [] [] (negsuc 0) (negsuc 0) (negsuc 0) (pos 0) empty-CanSend
        empty-CanSend empty-CanSend (omega arith) (omega arith) (omega arith) (omega arith)
  recv_tags-Takes (some t) h =
      recv_fields-Takes _ _ _ t.track (sent_time t) (sent_rating t) t.filled h.title h.artist
        h.album h.track (sent-IsWord (has_flag t.filled 1) t.time h.time)
        (sent-IsWord (has_flag t.filled 2) t.rating h.rating) h.filled
    where
      sent-IsWord : (b : Bool) (n : ℤ) → IsWord 32 n → IsWord 32 (if b then n else negsuc 0)
      sent-IsWord true n h = h
      sent-IsWord false n h = omega arith

  recv_item-Takes :
      (w : World) (c : ℕ) (name : Str) (item : PlistItem)
      → CanSend (c ∷ name)
      → CanSend (or_empty item.title_tags)
      → CanSendOption item.tags
      → IsWord 64 item.mtime
      → Takes k d (recv_item k w) (item_bytes (c ∷ name) item) (received_item w (c ∷ name) item)
  unfolding recv_item plist_new_item
  recv_item-Takes w c name item hf ht hg hm =
      bind-Takes k d (get_str k) _ _ _ (c ∷ name) _ (get_str-Takes k d (c ∷ name) hf.0 hf.1) (
        bind-Takes k d (get_str k) _ _ _ (or_empty item.title_tags) _
          (get_str-Takes k d (or_empty item.title_tags) ht.0 ht.1)
          (bind-Takes k d (recv_tags k) _ _ _ (received_tags item.tags) _
            (recv_tags-Takes item.tags hg)
            (map-Takes k d (get_time k) _ _ item.mtime (get_time-Takes k d item.mtime hm))))

-- An item that the server packs into a message is the item that the client reads off the socket,
-- whatever comes behind it on the stream and in however many pieces its strings arrive: with its file,
-- title, tags and time of modification, where empty strings arrive as NULL, tags that were NULL as
-- empty tags, a time or rating that is not filled as -1, and the kind of the file computed anew. The
-- strings are at most `MAX_SEND_STRING` long, and the name is not empty.
pub recv_item-packet_buf_add_item :
    (mem : Memory) (k : Socket) (d : Delivers k) (w : World) (c : ℕ) (name : Str) (item : PlistItem)
    → item.file ≡ some (c ∷ name)
    → CanSend (c ∷ name)
    → CanSend (or_empty item.title_tags)
    → CanSendOption item.tags
    → IsWord 64 item.mtime
    → (b : PacketBuf) × (packet_buf_add_item mem (packet_buf_new mem) item ≡ some b)
      × ((s : k.State) (rest : List ℕ)
          → d.pending s ≡ contents b ++ rest
          → (s' : k.State) × (recv_item k w s ≡ (some (received_item w (c ∷ name) item), s'))
            × (d.pending s' ≡ rest))
recv_item-packet_buf_add_item mem k d w c name item e hf ht hg hm =
    let (valid, empty) = new-empty mem in
    let (b, packed, app) = add_item-Appends mem item (c ∷ name) valid e in
    (
      b,
      packed,
      λ s rest p. recv_item-Takes k d w c name item hf ht hg hm s rest (
          p ∙ ap (λ l. l ++ rest) (app.bytes_in ∙ ap (λ l. l ++ item_bytes (c ∷ name) item) empty)),
    )
