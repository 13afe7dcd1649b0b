-- ===== src/Lib.antt =====
-- Verification of rbitt, a BitTorrent client in Rust (README.md lists its crates).
--
-- The parts and their files, with paths from the root of the repository:
--
-- - Bencode: src-tauri/crates/oxidebt-bencode/src. Value (value.rs, error.rs), Encode (encode.rs),
--   Cursor, Scalar and Decode (decode.rs). Text holds what the crate uses of the standard library:
--   decimal printing and parsing, and the check of UTF-8. The functions keep the source's names; a
--   loop is a function of its own, named for the function it stands in. A map of byte strings is
--   the list of its entries in ascending order.
-- - Peer: src-tauri/crates/oxidebt-peer/src. Error (error.rs), Bitfield and Bitfield.Cached
--   (bitfield.rs); Wire, Message and Handshake (message.rs); Piece with its children Manager, Pick and
--   Requests (piece.rs). A hash map or a hash set is a list of entries or keys, an ordered set is a
--   list in ascending order. Locks and atomics are fields. Manager has calls that follow one
--   another; Piece.Interleaved has the steps of calls on several threads, since the code changes a
--   counter before it takes the lock on the candidates. The clock and the shuffle of the first candidates are arguments.
--   Fast (fast.rs), with SHA-1 as an argument. Choking (choking.rs), with the type of the rates and
--   their order as arguments, since the source has them as floating-point numbers.
--
-- - Dht: src-tauri/crates/oxidebt-dht/src. Node (node.rs), Bucket and Routing (routing.rs), and
--   Message with Parse and Encode (message.rs), over the model of bencode. The present time is an
--   argument. Routing.Reachable has the operations as steps.
-- - Torrent.Merkle: src-tauri/crates/oxidebt-torrent/src/merkle.rs, with SHA-256 as an argument.
-- - Disk: src-tauri/crates/oxidebt-disk/src. Path, Storage and Manager (manager.rs, storage.rs),
--   Coalescer (coalescer.rs), IoQueue (io_queue.rs), Error (error.rs). Files stands for the file
--   system: the contents of the files, by their places in the folder, and where one can be opened. Storage uses it, and Manager uses Storage.
--   Caching (caching_manager.rs) puts the two caches of Cache before Manager: a block goes to the
--   block cache, a finished piece from there to the piece cache and to the disk.
-- - Cache: src-tauri/crates/oxidebt-cache/src. PieceCache (piece_cache.rs), with Key, Lru and Ghost for
--   its maps and lists; BlockCache (block_cache.rs), where a hash state keeps what it was fed.
--   Coalesce holds a loop that the disk's coalescer and the block cache have alike.
-- - Tracker: src-tauri/crates/oxidebt-tracker/src. Response (response.rs, error.rs) and Udp (udp.rs);
--   what the socket gives is a list of outcomes, one for each attempt.
-- - Net: src-tauri/crates/oxidebt-net/src/pex.rs (Pex), and the addresses of the standard library.
--
-- Numbers are natural numbers; a byte is one below 256, where a theorem needs it by hypothesis. An
-- `i64` is a signed integer in range, and `usize` has 64 bits. Prelude holds what the parts share.
--
-- Fuel: the decoder of bencode recurs on fuel. A loop over bytes gets one unit more than there are
-- bytes left, and the recursion over values gets three units for each byte of the input and one
-- more, since a byte opens at most a value, the container that it begins and a round of its loop.
-- The loop over the blocks of a piece gets one unit for each byte of the piece and one more, since
-- each round moves on by a byte at least.
--
-- The layers of a Merkle tree get as much fuel as there are leaves, since each layer is shorter than
-- the one below; the loops over compact addresses and over batches of pieces get one unit for each
-- byte or piece, and use up at least one in each round. The loop of the running hash in BlockCache
-- gets one unit for each block, and gives no result where it would go on: a call that never returns.
--
-- Not modelled: input and output, timers, sockets, locks and the asynchronous runtime, the text of
-- error messages, and hash functions. PROJECT.json lists what has no model.
pub mod Bencode
pub mod Cache
pub mod Coalesce
pub mod Dht
pub mod Disk
pub mod Net
pub mod Peer
pub mod Prelude
pub mod Torrent
pub mod Tracker
