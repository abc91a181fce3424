-- ===== src/Item.antt =====
-- `struct plist_item` of playlist.h.
use mocp.Prelude.{Bool, false, Option, none}
use mocp.Prelude.Int.{ℤ, pos, negsuc}
use mocp.Bytes.{Str}
use mocp.Tags.{FileTags}
use mocp.Files.{FileType, f_other}

-- The kind of the file is `kind`.
pub record PlistItem : Type 0 where
  pub file : Option Str
  pub kind : FileType
  pub title_file : Option Str
  pub title_tags : Option Str
  pub tags : Option FileTags
  pub deleted : Bool
  pub mtime : ℤ
  pub queue_pos : ℤ

unfoldable pub plist_new_item : PlistItem
plist_new_item = record {
  file = none;
  kind = f_other;
  title_file = none;
  title_tags = none;
  tags = none;
  deleted = false;
  mtime = negsuc 0;
  queue_pos = pos 0;
}
