-- ===== src/Protocol/Receive.antt =====
-- Reading tags and playlist items off a socket, and the round trip of a message.
pub mod RoundTrip
use mocp.Prelude.{ℕ, Option, none, some, List, [], ◌∷◌}
use mocp.Prelude.Int.{ℤ}
use mocp.Bytes.{Str}
use mocp.Tags.{FileTags, tags_new}
use mocp.Files.{World, file_type}
use mocp.Item.{PlistItem, plist_new_item}
use mocp.Protocol.Socket.{Socket, Read, ◌>>=◌, pure, get_int, get_time, get_str}

-- `if (!s[0]) s = NULL;`
abbrev pub null_if_empty : Str → Option Str
null_if_empty [] = none
null_if_empty (c ∷ s) = some (c ∷ s)

module _ (k : Socket) where
  -- `recv_tags`: `none` is the NULL that it returns on an error.
  unfoldable pub recv_tags : Read k.State FileTags
  recv_tags = do
    title ← get_str k
    artist ← get_str k
    album ← get_str k
    track ← get_int k
    time ← get_int k
    rating ← get_int k
    filled ← get_int k
    pure (record tags_new {
      title = null_if_empty title;
      artist = null_if_empty artist;
      album = null_if_empty album;
      track = track;
      time = time;
      rating = rating;
      filled = filled;
    })

  -- the rest of `recv_item`, behind a file name that is not empty
  recv_item_fields : World → Str → Read k.State PlistItem
  recv_item_fields w file = do
    title_tags ← get_str k
    tags ← recv_tags
    mtime ← get_time k
    pure (record plist_new_item {
      file = some file;
      kind = file_type w file;
      title_tags = null_if_empty title_tags;
      tags = some tags;
      mtime = mtime;
    })

  recv_item_named : World → Str → Read k.State PlistItem
  recv_item_named w [] = pure (record plist_new_item { file = some [] })
  recv_item_named w (c ∷ file) = recv_item_fields w (c ∷ file)

  -- `recv_item`: an empty file name is the end of the playlist.
  unfoldable pub recv_item : World → Read k.State PlistItem
  unfolding recv_item_named recv_item_fields recv_tags
  recv_item w = get_str k >>= recv_item_named w
