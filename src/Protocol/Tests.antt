-- ===== src/Protocol/Tests.antt =====
-- A message sent and received: memory that realloc fills with zeros, and a socket that delivers at
-- most eight bytes at a time.
use mocp.Prelude.{
  ℕ, ◌≤◌, ◌≡◌, refl, ◌∙◌, List, [], ◌++◌, none, some, false, length, take, drop, min, replicate,
  length-append, length-take, length-replicate, take-take, take-append_left, arith,
}
use mocp.Prelude.Int.{pos, negsuc}
use mocp.Files.{World, f_other, chars}
use mocp.Item.{PlistItem}
use mocp.Protocol.Packet.{Memory, PacketBuf, packet_buf_new, packet_buf_add_item}
use mocp.Protocol.Packet.Contents.{contents}
use mocp.Protocol.Socket.{Socket, Delivers, received}
use mocp.Protocol.Receive.{recv_item}
use mocp.Protocol.Receive.RoundTrip.{received_item, recv_item-packet_buf_add_item}

zero_realloc : List ℕ → ℕ → List ℕ
zero_realloc old n = take n (old ++ replicate n 0)

length-zero_realloc : (old : List ℕ) (n : ℕ) → length (zero_realloc old n) ≡ n
unfolding zero_realloc
length-zero_realloc old n = omega (
  arith,
  length-take n (old ++ replicate n 0),
  length-append old (replicate n 0),
  length-replicate {A = ℕ} n 0,
)

zero_realloc-keeps :
    (old : List ℕ) (n : ℕ)
    → take (min n (length old)) (zero_realloc old n) ≡ take (min n (length old)) old
unfolding zero_realloc
zero_realloc-keeps old n =
    take-take (min n (length old)) n _ (omega arith)
    ∙ take-append_left (min n (length old)) old (replicate n 0) (omega arith)

abbrev zeros : Memory
zeros = record {
  realloc = zero_realloc;
  length_is = length-zero_realloc;
  keeps = zero_realloc-keeps;
}

abbrev eight : Socket
eight = record { State = List ℕ; recv = λ s n. (received (take (min n 8) s), drop (min n 8) s) }

min_of_le : (n : ℕ) → n ≤ 8 → min n 8 ≡ n
min_of_le n h = omega arith

abbrev eight-Delivers : Delivers eight
eight-Delivers = record {
  pending = λ s. s;
  some_bytes = λ s n h l. (min n 8, drop (min n 8) s, omega arith, omega arith, refl, refl);
  whole_word = λ s n h l. (drop (min n 8) s, rw (min_of_le n h) refl, rw (min_of_le n h) refl);
}

abbrev no_files : World
no_files = record { stat = λ f. none; is_sound_file = λ f. false }

abbrev song : PlistItem
song = record {
  file = some (chars "/music/a.ogg");
  kind = f_other;
  title_file = none;
  title_tags = some (chars "A song");
  tags = some (record {
    title = some (chars "A");
    artist = none;
    album = some [];
    track = pos 3;
    time = pos 215;
    rating = negsuc 0;
    filled = pos 3;
  });
  deleted = false;
  mtime = pos 1600000000;
  queue_pos = pos 0;
}

recv_item-packet_buf_add_item_example :
    (b : PacketBuf) × (packet_buf_add_item zeros (packet_buf_new zeros) song ≡ some b)
    × ((s : List ℕ) (rest : List ℕ)
        → s ≡ contents b ++ rest
        → (s' : List ℕ) × (recv_item eight no_files s
            ≡ (some (received_item no_files (chars "/music/a.ogg") song), s'))
          × (s' ≡ rest))
recv_item-packet_buf_add_item_example =
    recv_item-packet_buf_add_item zeros eight eight-Delivers no_files b'/' (chars "music/a.ogg")
      song refl (omega arith) (omega arith) (omega arith) (omega arith)
