-- ===== src/Metadata.antt =====
-- src/torrent-magnet.c: gathering a magnet torrent's metadata from its peers, piece by piece. SHA-1 and
-- the saving of a finished metadata (the torrent file, tr_metainfoParse and the session) are the record
-- Parts. A negative piece is never among those that are needed, nor one whose offset is out of an int.
pub mod Needed
pub mod Assembly
pub mod Gathering
pub mod Whole
pub mod Sizes
pub mod Turns
mod Tests
use libtransmission.Prelude.{
  ℕ, zero, suc, ◌+◌, ◌-◌, ◌*◌, ◌/◌, Bool, true, false, not, ◌&&◌, List, [], ◌∷◌, ◌++◌, Option, none,
  some, if◌then◌else◌, ltb, ◌==◌, length, memcpy,
}
use libtransmission.Variant.{Variant}
use libtransmission.Variant.Benc.{Numbers, parse_benc}

-- `struct metadata_node`
pub record MetadataNode : Type 0 where
  pub requested_at : ℕ
  pub piece : ℕ

-- `struct tr_incomplete_metadata`; the array of the needed pieces is its used part.
pub record Incomplete : Type 0 where
  pub metadata : List ℕ
  pub metadata_size : ℕ
  pub piece_count : ℕ
  pub pieces_needed : List MetadataNode

-- The fields of the torrent that the exchange changes.
pub record Magnet : Type 0 where
  pub has_metadata : Bool
  pub incomplete : Option Incomplete
  pub is_stopping : Bool
  pub magnet_verify : Bool
  pub start_after_verify : Bool

-- The conversion of numbers, `tr_sha1`, the torrent's hash, and whether a parsed info dictionary could
-- be merged into the torrent file and loaded.
pub record Parts : Type 0 where
  pub num : Numbers
  pub sha1 : List ℕ → List ℕ
  pub hash : List ℕ
  pub install : Variant → Bool

abbrev pub metadata_piece_size : ℕ
metadata_piece_size = 1024 * 16

abbrev pub min_repeat_interval_secs : ℕ
min_repeat_interval_secs = 3

-- The nodes of n pieces from i on, none of them requested yet.
unfoldable pub all_needed : ℕ → ℕ → List MetadataNode
all_needed i zero = []
all_needed i (suc n) = record { requested_at = 0; piece = i } ∷ all_needed (i + 1) n

unfoldable pub start_incomplete : Incomplete → Magnet → Option Incomplete → Magnet
start_incomplete started m none = record m { incomplete = some started }
start_incomplete started m (some inc) = m

-- `tr_torrentSetMetadataSizeHint`; `fresh` is what the allocated memory holds.
unfoldable pub set_metadata_size_hint : List ℕ → ℕ → Magnet → Magnet
set_metadata_size_hint fresh size m =
    let n = (size + (metadata_piece_size - 1)) / metadata_piece_size in
    let started : Incomplete = record {
      metadata = fresh;
      metadata_size = size;
      piece_count = n;
      pieces_needed = all_needed 0 n;
    } in
    if m.has_metadata then m else start_incomplete started m m.incomplete

-- `memcpy (xs + off, ys, n)`
unfoldable pub memcpy_at : List ℕ → ℕ → List ℕ → ℕ → List ℕ
memcpy_at xs zero ys n = memcpy xs ys n
memcpy_at [] (suc off) ys n = []
memcpy_at (x ∷ xs) (suc off) ys n = x ∷ memcpy_at xs off ys n

unfoldable pub is_needed : ℕ → List MetadataNode → Bool
is_needed q [] = false
is_needed q (n ∷ ns) = if n.piece == q then true else is_needed q ns

-- The first node of the piece is removed.
unfoldable pub remove_needed : ℕ → List MetadataNode → List MetadataNode
remove_needed q [] = []
remove_needed q (n ∷ ns) = if n.piece == q then ns else n ∷ remove_needed q ns

unfoldable pub same_bytes : List ℕ → List ℕ → Bool
same_bytes [] [] = true
same_bytes (x ∷ xs) (y ∷ ys) = (x == y) && same_bytes xs ys
same_bytes [] (y ∷ ys) = false
same_bytes (x ∷ xs) [] = false

-- A text is parsed and loaded.
unfoldable pub is_loaded : Parts → Option (Variant × List ℕ) → Bool
is_loaded e none = false
is_loaded e (some (v, rest)) = e.install v

-- Whether the complete metadata passes the checksum, and can be parsed and loaded.
unfoldable pub is_success : Parts → List ℕ → Bool
is_success e text =
    if same_bytes (e.sha1 text) e.hash then is_loaded e (parse_benc e.num text) else false

unfoldable pub finish_metadata : Parts → Incomplete → Magnet → Magnet
finish_metadata e inc m =
    if is_success e inc.metadata
    then record {
      has_metadata = true;
      incomplete = none;
      is_stopping = true;
      magnet_verify = true;
      start_after_verify = true;
    }
    else record m {
      incomplete = some (record inc { pieces_needed = all_needed 0 inc.piece_count });
    }

-- What follows when a piece is stored.
unfoldable pub after_piece : Parts → Incomplete → List MetadataNode → Magnet → Magnet
after_piece e inc [] m = finish_metadata e (record inc { pieces_needed = [] }) m
after_piece e inc (n ∷ ns) m = record m {
  incomplete = some (record inc { pieces_needed = n ∷ ns });
}

unfoldable pub store_piece : Parts → ℕ → List ℕ → Incomplete → Magnet → Magnet
store_piece e q bytes inc m =
    let stored = record inc {
      metadata = memcpy_at inc.metadata (q * metadata_piece_size) bytes (length bytes);
    } in
    if ltb inc.metadata_size (q * metadata_piece_size + length bytes)
    then m
    else if not (is_needed q inc.pieces_needed)
    then m
    else after_piece e stored (remove_needed q inc.pieces_needed) m

unfoldable pub store_in : Parts → ℕ → List ℕ → Magnet → Option Incomplete → Magnet
store_in e q bytes m none = m
store_in e q bytes m (some inc) = store_piece e q bytes inc m

-- `tr_torrentSetMetadataPiece`
unfoldable pub set_metadata_piece : Parts → ℕ → List ℕ → Magnet → Magnet
set_metadata_piece e q bytes m = store_in e q bytes m m.incomplete

-- The request of the first node, which is moved to the end.
unfoldable pub request_first : ℕ → Incomplete → List MetadataNode → Magnet → Option (ℕ × Magnet)
request_first now inc [] m = none
request_first now inc (n ∷ ns) m =
    if ltb (n.requested_at + min_repeat_interval_secs) now
    then some (
      n.piece,
      record m {
        incomplete = some (record inc {
          pieces_needed = ns ++ record { requested_at = now; piece = n.piece } ∷ [];
        });
      },
    )
    else none

unfoldable pub request_from : ℕ → Magnet → Option Incomplete → Option (ℕ × Magnet)
request_from now m none = none
request_from now m (some inc) = request_first now inc inc.pieces_needed m

-- `tr_torrentGetNextMetadataRequest`
unfoldable pub get_next_metadata_request : ℕ → Magnet → Option (ℕ × Magnet)
get_next_metadata_request now m = request_from now m m.incomplete
