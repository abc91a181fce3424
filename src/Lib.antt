-- ===== src/Lib.antt =====
-- MOC (music on console): a verification library.
--
-- The player is a server that decodes and plays, and clients that show an interface. A client and the
-- server exchange integers, strings and playlist items over a socket (protocol.c). Both keep the list of
-- files (playlist.c), whose items have tags (struct file_tags) and a kind (files.c). The server's
-- decoder writes sound into a ring buffer (fifo_buf.c), which the output thread empties; before a
-- driver takes the sound, it is converted (audio_conversion.c) and the software mixer scales it
-- (softmixer.c). Lists of strings (lists.c) hold options, themes and file names. The server chooses what
-- to play from its playlist, its shuffled copy and a queue (audio.c), and a thread of its own reads the
-- tags that the clients ask for, and keeps them in a database (tags_cache.c).
--
-- Prelude        numbers, tests, lists, arrays and integers that the components share
-- Bytes, Word    C integers in memory, strings, conversion to a width, division, CLAMP
-- FifoBuf        fifo_buf.c: the ring buffer. FifoBuf/Inv has its invariant, Refine and Read what put,
--                get and peek do, Client sequences of calls; Queue is the abstract bounded queue.
-- Tags, Item     playlist.h, playlist.c: struct file_tags with tags_*, struct plist_item
-- Files          files.c, playlist_file.c: file_type, is_url, ext_pos, is_plist_file
-- Playlist       playlist.c: struct plist and plist_*. Playlist/Walk is about plist_next, plist_prev
--                and plist_last, Totals, Edit and Reach about the counters and the changes of the list.
--                Playlist/SearchTree adds the search tree: plist_add, plist_find_fname, plist_cat;
--                Playlist/SearchTree/Shuffle has plist_shuffle and plist_swap_first_fname, Swap has
--                plist_swap_files.
-- RbTree         rbtree.c: red-black trees; RbTree/Removal has rb_delete. RbTree/Balance has the
--                invariant of the colors, Place and Sorted the order of the data, Insert, Fixup and Delete
--                the changes of a tree; Refine ties the operations to sorted lists, Walk is about rb_min
--                and rb_next, Height about the way down.
-- Protocol       protocol.c: Protocol/Packet packs values into a message, Socket and Receive read
--                them, Receive/RoundTrip ties the two together. Protocol/Events is the event queue
--                in memory.
-- Sound          audio.h, audio.c: sample formats and sound parameters
-- Audio          audio.c: Audio/Formats has sfmt_best_matching, Formats/Best is about its choice.
--                Audio/Position has go_to_another_file, Position/Requests the requests that change the
--                lists, Position/Thread audio_play and the loop of play_thread; InOrder is about playing the whole list, Playable, Runs and Stuck about where
--                the player can be left.
-- Softmixer      softmixer.c: the gain and mono loops of each format and softmixer_process_buffer.
--                Softmixer/Config has softmixer_init and the configuration file. Range is about the signed
--                formats, Mono and Frames about buffers, Control about the state, Saved about the file
--                written and read back, Faults about the loops for s8 and u24.
-- Lists          lists.c: lists_strs_*. Lists/Tokens is about lists_strs_split, Reverse about
--                lists_strs_reverse, Inv about the other operations.
-- Menu           menu.c: the window of a menu and its selected item, with menu_driver; Menu/Placing has the
--                other operations. Menu/Moves is about get_item_relative, Shown about menu_driver,
--                Changes and Reach about the other operations.
-- Options        options.c: the hash table of options. Options/Probe is about the loops of find_option and
--                find_free, Table about find_option, Added about init_option.
-- TagsCache      tags_cache.c: TagsCache/Requests has the queues of requests and reader_thread, Record the
--                records as bytes, Database what is done with them. Choice, Fairness, Order and Reach are
--                about the requests served, Record/Cut, Fields, Times and RoundTrip about records whole
--                and cut off, Database/Bound and Database/Answers about the records that are kept.
-- AudioConversion  audio_conversion.c: the conversions of fixed point samples. Sign is about
--                change_sign, Endian about swap_endian and mono_to_stereo, Fast about the conversions
--                from 32 to 24 and 16 bits.
--
-- A pointer into a tree of rbtree.c is a subtree with the way from it up to the root, so that the
-- functions that go up by the parent pointers are recursions on the way, and need no fuel.
--
-- State is a record that an operation takes and returns; an assertion that fails is the result none.
-- An int that counts or sums without a proof of its bound is an integer; where the width matters, the
-- conversion to w bits is written out. Memory holds little-endian two's complement integers, an int
-- of 4 bytes, a time_t and a size_t of 8.
--
-- A loop that is not recursion on a list runs on fuel, and the theorems about it are about the result
-- with the fuel that the function gives: the loops of fifo_buf.c get one more than the number of bytes
-- wanted or given, since each round moves a byte; get_str the number of bytes that it waits for;
-- the mono loops the number of samples, mono_to_stereo the number of bytes, lists_strs_reverse the number
-- of entries, lists_strs_split one more than the bytes of the string.
--
-- Parameters: realloc and what malloc leaves in memory; the socket, which delivers any number of bytes
-- from one up to as many as are asked for, and a word whole; stat and the decoders' word on a file;
-- exp and the arithmetic of floats; sscanf and fprintf of a number; Berkeley DB, a map from keys to
-- records that a cursor lists; the clock and the tags of a file; the numbers that rand gives; the
-- functions that compare the data of a search tree, whose signs are those of an order.
--
-- A queue of requests of tags_cache.c is the list of its nodes, whose last is the tail. A turn of
-- reader_thread or of play_thread is a function. What other threads do meanwhile is a sequence of actions
-- between the turns, or an argument of the turn: in play_thread it takes place while the file is played.
-- A loop of play_thread is as long as the list of these arguments.
--
-- Not modelled: the sorting of a playlist, titles, the sending of events and messages, conversions from
-- and to floats, locks and the opening of the tags database, the drivers and pausing in audio.c, the
-- decoders and the sound drivers, the interface but for menus, the values of options, and reading
-- and writing of files: the configuration of the mixer is the list of its lines.
pub mod Prelude
pub mod Bytes
pub mod Tags
pub mod Files
pub mod Item
pub mod Protocol
pub mod Playlist
pub mod Word
pub mod Sound
pub mod Softmixer
pub mod Lists
pub mod AudioConversion
pub mod RbTree
pub mod TagsCache
pub mod Audio
pub mod Menu
pub mod Options
pub mod Queue
pub mod FifoBuf
