-- ===== src/Torrent.antt =====
pub mod Division
pub mod Geometry
pub mod Requests
pub mod Blocks
pub mod Locations
pub mod Files
mod Tests
-- How a torrent is cut into pieces and blocks: `tr_getBlockSize`, `torrentInitFromInfo`,
-- `tr_torGetPieceBlockRange`, `tr_torrentReqIsValid` and their like in src/torrent.c, and the inline
-- functions of src/torrent.h. Sizes are `uint32_t`, totals and offsets `uint64_t`.
use libtransmission.Prelude.{
  ℕ, zero, suc, ◌+◌, ◌-◌, ◌*◌, ◌/◌, ◌%◌, ◌^◌, Bool, true, false, not, ◌||◌, if◌then◌else◌, ltb, leb,
  ◌==◌, Option, none, some, u16, u32, u64, sub64,
}

-- The fields of `tr_torrent` and its `tr_info` that say how it is cut.
pub record Torrent : Type 0 where
  pub total_size : ℕ
  pub piece_size : ℕ
  pub piece_count : ℕ
  pub block_size : ℕ
  pub block_count : ℕ
  pub last_piece_size : ℕ
  pub last_block_size : ℕ
  pub block_count_in_piece : ℕ
  pub block_count_in_last_piece : ℕ

-- `MAX_BLOCK_SIZE`
abbrev pub max_block_size : ℕ
max_block_size = 1024 * 16

-- `while (b > MAX_BLOCK_SIZE) b /= 2u`, on fuel
pub halve : ℕ → ℕ → ℕ
halve zero b = b
halve (suc fuel) b = elim (ltb max_block_size b) [ true ↦ halve fuel (b / 2) | false ↦ b ]

pub get_block_size : ℕ → ℕ
get_block_size piece_size =
    let b = halve 32 piece_size in if b == 0 || not (piece_size % b == 0) then 0 else b

-- `torrentInitFromInfo`, on a zeroed `tr_torrent`
pub init_from_info : Torrent → Torrent
init_from_info t =
    let bs = get_block_size t.piece_size in
    let piece_rest = if t.piece_size == 0 then 0 else u32 (t.total_size % t.piece_size) in
    let last_piece = if piece_rest == 0 then t.piece_size else piece_rest in
    let block_rest = if bs == 0 then 0 else u32 (t.total_size % bs) in
    record t {
      block_size = bs;
      last_piece_size = last_piece;
      last_block_size = if block_rest == 0 then bs else block_rest;
      block_count = if bs == 0 then 0 else u32 (sub64 (u64 (t.total_size + bs)) 1 / bs);
      block_count_in_piece = if bs == 0 then 0 else u16 (t.piece_size / bs);
      block_count_in_last_piece =
          if bs == 0 then 0 else u16 (u32 (last_piece + bs + 2 ^ 32 - 1) / bs);
    }

pub block_piece : Torrent → ℕ → ℕ
block_piece t block = block / t.block_count_in_piece

unfoldable pub piece_count_bytes : Torrent → ℕ → ℕ
piece_count_bytes t piece =
    if u32 (piece + 1) == t.piece_count then t.last_piece_size else t.piece_size

unfoldable pub block_count_bytes : Torrent → ℕ → ℕ
block_count_bytes t block =
    if u32 (block + 1) == t.block_count then t.last_block_size else t.block_size

-- `tr_torrentGetBlockLocation`: the piece, the offset in it and the length of a block. The product
-- `*piece * pieceSize` is one of two `uint32_t`.
pub get_block_location : Torrent → ℕ → ℕ × ℕ × ℕ
get_block_location t block =
    let pos = u64 (block * t.block_size) in
    let piece = u32 (pos / t.piece_size) in
    (piece, u32 (sub64 pos (u32 (piece * t.piece_size))), block_count_bytes t block)

-- The number that `_tr_block` computes, of a block size that is not 0.
pub block_of : Torrent → ℕ → ℕ → ℕ
block_of t index offset = u32 (u32 (index * (t.piece_size / t.block_size)) + offset / t.block_size)

-- `_tr_block`; a torrent without metadata has no block size, and the division by it is `none`.
unfoldable pub tr_block : Torrent → ℕ → ℕ → Option ℕ
tr_block t index offset = if t.block_size == 0 then none else some (block_of t index offset)

unfoldable pub piece_offset : Torrent → ℕ → ℕ → ℕ → ℕ
piece_offset t index offset length = u64 (u64 (u64 (t.piece_size * index) + offset) + length)

-- `offset + length` is a sum of two `uint32_t`.
unfoldable pub req_is_valid : Torrent → ℕ → ℕ → ℕ → Bool
req_is_valid t index offset length =
    if leb t.piece_count index
    then false
    else if ltb length 1
    then false
    else if ltb (piece_count_bytes t index) (u32 (offset + length))
    then false
    else if ltb max_block_size length
    then false
    else not (ltb t.total_size (piece_offset t index offset length))

-- The first and the last block of a piece.
pub piece_first_block : Torrent → ℕ → ℕ
piece_first_block t piece = u32 (u64 (t.piece_size * piece) / t.block_size)

pub piece_last_block : Torrent → ℕ → ℕ
piece_last_block t piece =
    u32 (
      u64 (u64 (t.piece_size * piece) + u32 (piece_count_bytes t piece + 2 ^ 32 - 1))
      / t.block_size)
