-- ===== src/Torrent/Files.antt =====
-- The files of a torrent: `tr_torrentInitFilePieces`, which gives each its offset and its pieces, and
-- `tr_torGetFileBlockRange` in src/torrent.c. The hints and the priorities of pieces are left out.
pub mod Overlap
mod Tests
use libtransmission.Prelude.{
  ℕ, zero, suc, ◌+◌, ◌-◌, ◌/◌, ◌^◌, Bool, ◌&&◌, List, [], ◌∷◌, if◌then◌else◌, leb, ◌==◌, u32, u64,
}
use libtransmission.Torrent.{Torrent}

-- The fields of `tr_file` that place it.
pub record TorrentFile : Type 0 where
  pub file_length : ℕ
  pub offset : ℕ
  pub first_piece : ℕ
  pub last_piece : ℕ

-- `getBytePiece`
pub get_byte_piece : Torrent → ℕ → ℕ
get_byte_piece t byte_offset =
    if byte_offset == t.total_size
    then u32 (t.piece_count + 2 ^ 32 - 1)
    else u32 (byte_offset / t.piece_size)

-- `initFilePieces`
pub init_file_pieces : Torrent → TorrentFile → TorrentFile
init_file_pieces t f =
    let last_byte = u64 (f.offset + (if f.file_length == 0 then 0 else f.file_length - 1)) in
    record f { first_piece = get_byte_piece t f.offset; last_piece = get_byte_piece t last_byte }

-- The loop that assigns the offsets.
pub assign_files : Torrent → ℕ → List TorrentFile → List TorrentFile
assign_files t at [] = []
assign_files t at (f ∷ fs) =
    init_file_pieces t (record f { offset = at }) ∷ assign_files t (u64 (at + f.file_length)) fs

-- `pieceHasFile`
pub piece_has_file : ℕ → TorrentFile → Bool
piece_has_file piece f = leb f.first_piece piece && leb piece f.last_piece

-- `tr_torGetFileBlockRange`: the first and the last block.
pub get_file_block_range : Torrent → TorrentFile → ℕ × ℕ
get_file_block_range t f =
    let first = u32 (f.offset / t.block_size) in
    if f.file_length == 0
    then (first, first)
    else (first, u32 (u64 (f.offset + (f.file_length - 1)) / t.block_size))
