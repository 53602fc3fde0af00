-- ===== src/Lib.antt =====
-- A verification of parts of libtransmission, the BitTorrent library in C. Each function of the source
-- is a function here, its struct a record, its pointers out a pair and its failed assertion or read out
-- of range a `none`. Unsigned arithmetic is on ℕ with the wrap of each C type written out (`u8`, `u16`,
-- `u32`, `u64`, `sub32`, `sub64`).
--
-- * Prelude (with Prelude/): tests on numbers, lists over native numbers with the reads and writes of C
--   arrays, the widths of words, counting over ranges, and tables over all bytes.
-- * Bitfield (src/bitfield.c, src/bitfield.h): `tr_bitfield` as the record Bitfield. Bitfield.antt has
--   the queries, Bitfield/Update the functions that change one. A bitfield keeps an array only while it
--   is neither empty nor full, and the array may be shorter than its width: Bitfield/Inv states that
--   invariant, and Bitfield/Settle what an update owes (`Becomes`), by which the other parts use it. The
--   invariant asks for a known width, below 2 ^ 31 bits; `tr_bitfieldHas` is the abstract set.
-- * PtrArray (src/ptrarray.c, src/ptrarray.h): `tr_ptrArray`, its sorted arrays and their search. The
--   loop of `tr_ptrArrayLowerBound` is on fuel, one round for each element, which is enough since every
--   round leaves a smaller range. A comparison is any function that is an order (Sorted.IsOrder).
-- * Torrent (src/torrent.c, src/torrent.h): how the total size is cut into pieces and blocks, the
--   location of blocks and the test on block requests. The loop of `tr_getBlockSize` has fuel 32, which
--   halves any 32-bit size to 0. Geometry.IsInfo says what sizes fit the fields, Geometry.IsCut what the
--   cut satisfies, which is all that the other parts use of it. Torrent/Files places the files: the loop
--   of `tr_torrentInitFilePieces` is `assign_files`.
-- * Completion (src/completion.c, src/completion.h): `tr_completion`, which blocks are held, over the
--   bitfield and the torrent's cut. `tor` is a copy of the torrent, whose cut does not change meanwhile.
--   The loops run over block or piece ranges whose length is known. Completion/Blocks has the invariant
--   (IsSized: `sizeNow` is the number of bytes held) and what an operation owes (Holds).
-- * Blocklist (src/blocklist.c): `tr_blocklistFile`, its own file as the ranges it holds. The scanning
--   and printing of the C library and `tr_address_from_string` are the record Scanner, `qsort` and
--   `bsearch` parameters that sort and search (Blocklist/Lookup). An address is its number in host order.
-- * Variant (src/variant.c, src/variant-benc.c, src/variant-common.h): `tr_variant` as mutual data types.
--   Variant/Walk has `tr_variantWalk` with its explicit stack, on a unit of fuel for each round
--   (`rounds`, a node's visits), Variant/Walk/Print the recursive printer it is compared with. The sort
--   of a dictionary's keys is a parameter. Variant/Benc has the parser, whose stack of pointers is a
--   stack of open containers, and the printer; the numbers' conversions are the record Numbers, and
--   Benc/Strings.IsDecimal what is relied on. The parser's loop has a unit of fuel for each byte and one
--   more; Benc/Ends has its rounds without fuel. Where the code takes a length for an int that does not
--   hold it, the model wraps it, or stops (none) where memory would be read out of range. Variant/Dict has
--   the lookup and the change of entries.
-- * Metainfo (src/metainfo.c, src/utils.c): `parseFiles` and the cleaning of names, on variants.
--   `tr_utf8_validate` and `iconv` are the record Unicode. Metainfo/Components splits a path, which
--   the code does not, to say what an accepted path holds.
-- * Metadata (src/torrent-magnet.c): `tr_incomplete_metadata` in a torrent that knows only its hash:
--   `tr_torrentSetMetadataSizeHint`, `tr_torrentGetNextMetadataRequest`, `tr_torrentSetMetadataPiece`.
--   SHA-1 and what loads a finished metadata are the record Parts; the parser is Variant/Benc's. Sizes
--   are such that a size and a piece's offset fit an int. Metadata/Turns and Metadata/Gathering have the
--   runs (requests, hints, pieces, in any order) as data types.
-- * PeerMsgs (src/peer-msgs.c; `canReadWrapper` of src/peer-io.c): what a connected peer sends.
--   PeerMsgs/Requests has the queue of its requests and choking, PeerMsgs/Messages the handlers,
--   PeerMsgs/Reader the cutting of bytes into messages and blocks. The bytes are decrypted. A call of
--   another part is an element of a log, newest first; the answers of other parts (Env) are functions of
--   the log, so they may change as the peer goes on. The loop of `canReadWrapper` has a unit of fuel for
--   each byte and one more: a round that goes on has taken a byte. Of the piece data that is
--   told of, the torrent's `downloadedCur` is kept; what each round charges to the bandwidth is a list of
--   its own (Reader/Charges), with the overhead that `guessPacketOverhead` guesses a parameter. The block
--   size of a torrent without metadata is 0, by which `_tr_block` divides: a crash, as a failed
--   assertion is. PeerMsgs/Queue/Reach has what a peer can go through as a data type of steps.
-- * History (src/history.c, src/history.h): `tr_recentHistory`, a ring of 60 slices; its loop has 60
--   rounds, after which it is back at the newest. History/Log is the list of seconds that the ring stands
--   for, and the abstract view is the list of all that was added.
-- * Bandwidth (src/bandwidth.c, src/bandwidth.h): the speed over a ring of 10 slots, the clamping and the
--   use of bandwidth along the parents. The arithmetic of doubles is the record Doubles.
--
-- Not modelled: assertions, where the code goes on without them (but those named in Bitfield/Update and
-- in PeerMsgs); memory allocation, which succeeds; floating point, which is a parameter where the code
-- decides by it; the merging of dictionaries, JSON, the allocation of bandwidth, the priorities of
-- pieces; of the peers the extension protocol, what is sent, our own requests and the choice of whom to
-- choke; the trackers, the session and everything that reads or writes files and sockets; the copies of
-- other projects in third-party.
pub mod Prelude
pub mod Bitfield
pub mod PtrArray
pub mod Torrent
pub mod Completion
pub mod Blocklist
pub mod Variant
pub mod History
pub mod Bandwidth
pub mod Metainfo
pub mod Metadata
pub mod PeerMsgs
