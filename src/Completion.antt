-- ===== src/Completion.antt =====
-- src/completion.c: `tr_completion`, the blocks of a torrent that are held, how many bytes they are and
-- two sums that are computed when they are asked for. `tor` points to the torrent, whose cut does not
-- change while blocks come and go; what else of it is read stands beside it.
pub mod Sizes
pub mod Blocks
mod Pieces
mod Missing
mod Start
mod Tests
use libtransmission.Prelude.{
  ℕ, zero, suc, ◌+◌, ◌-◌, ◌*◌, ◌^◌, Bool, true, false, not, ◌&&◌, ◌||◌, Option, none, some,
  if◌then◌else◌, ◌==◌, u32, u64, sub32, sub64,
}
use libtransmission.Bitfield.{Bitfield, has, has_all, count_range, count_true_bits}
use libtransmission.Bitfield.Update.{construct, set_has_none, set_from_bitfield, add, rem_range}
use libtransmission.Torrent.{
  Torrent, block_piece, piece_count_bytes, block_count_bytes, piece_first_block, piece_last_block,
}

pub record Completion : Type 0 where
  pub tor : Torrent
  pub has_metadata : Bool
  pub dnd : ℕ → Bool
  pub block_bitfield : Bitfield
  pub size_when_done_lazy : ℕ
  pub size_when_done_is_dirty : Bool
  pub have_valid_lazy : ℕ
  pub have_valid_is_dirty : Bool
  pub size_now : ℕ

pub data Completeness : Type 0 where
  leech : Completeness
  seed : Completeness
  partial_seed : Completeness

pub reset : Completion → Completion
reset cp = record cp {
  size_now = 0;
  size_when_done_is_dirty = true;
  have_valid_is_dirty = true;
  block_bitfield = set_has_none cp.block_bitfield;
}

-- `tr_cpConstruct`, after the torrent has been stored in `tor`
pub construct_completion : Completion → Completion
construct_completion cp = reset (record cp { block_bitfield = construct cp.tor.block_count })

-- `tr_cpBlockInit`; `none` is the failure of `tr_bitfieldSetFromBitfield`.
pub block_init : Completion → Bitfield → Option Completion
block_init cp b = elim (set_from_bitfield (reset cp).block_bitfield b) [
  | none ↦ none
  | some held ↦
      let all = u64 (count_true_bits held * cp.tor.block_size) in
      some (record (reset cp) {
        block_bitfield = held;
        size_now =
            if has b (cp.tor.block_count - 1)
            then sub64 all (sub32 cp.tor.block_size cp.tor.last_block_size)
            else all;
      })
]

pub block_is_complete : Completion → ℕ → Bool
block_is_complete cp block = has cp.block_bitfield block

pub has_all_blocks : Completion → Bool
has_all_blocks cp = cp.has_metadata && has_all cp.block_bitfield

pub block_add : Completion → ℕ → Completion
block_add cp block =
    if not (block_is_complete cp block)
    then record cp {
      block_bitfield = add cp.block_bitfield block;
      size_now = u64 (cp.size_now + block_count_bytes cp.tor block);
      have_valid_is_dirty = true;
      size_when_done_is_dirty = cp.size_when_done_is_dirty || cp.dnd (block_piece cp.tor block);
    }
    else cp

-- `for (i = first; i <= last; ++i)`, with the number of rounds
pub add_blocks : Completion → ℕ → ℕ → Completion
add_blocks cp i zero = cp
add_blocks cp i (suc n) = add_blocks (block_add cp i) (i + 1) n

pub piece_add : Completion → ℕ → Completion
piece_add cp piece =
    let first = piece_first_block cp.tor piece in
    add_blocks cp first (piece_last_block cp.tor piece + 1 - first)

-- The loop of `tr_cpPieceRem`, which lowers the size by the blocks that are held.
pub subtract_blocks : Completion → ℕ → ℕ → ℕ → ℕ
subtract_blocks cp size i zero = size
subtract_blocks cp size i (suc n) =
    let size' = if block_is_complete cp i then sub64 size (block_count_bytes cp.tor i) else size in
    subtract_blocks cp size' (i + 1) n

pub piece_rem : Completion → ℕ → Completion
piece_rem cp piece =
    let first = piece_first_block cp.tor piece in
    let last = piece_last_block cp.tor piece in
    record cp {
      size_now = subtract_blocks cp cp.size_now first (last + 1 - first);
      have_valid_is_dirty = true;
      size_when_done_is_dirty = true;
      block_bitfield = rem_range cp.block_bitfield first (u32 (last + 1));
    }

pub missing_blocks_in_piece : Completion → ℕ → ℕ
missing_blocks_in_piece cp piece =
    let first = piece_first_block cp.tor piece in
    let last = piece_last_block cp.tor piece in
    if has_all_blocks cp
    then 0
    else sub64 (sub32 (u32 (last + 1)) first) (count_range cp.block_bitfield first (u32 (last + 1)))

pub missing_bytes_in_piece : Completion → ℕ → ℕ
missing_bytes_in_piece cp piece =
    let first = piece_first_block cp.tor piece in
    let last = piece_last_block cp.tor piece in
    let whole =
      if first == last
      then 0
      else u64 (count_range cp.block_bitfield first last * cp.tor.block_size) in
    let have_bytes =
      if has cp.block_bitfield last then u64 (whole + block_count_bytes cp.tor last) else whole in
    if has_all_blocks cp then 0 else sub64 (piece_count_bytes cp.tor piece) have_bytes

pub piece_is_complete : Completion → ℕ → Bool
piece_is_complete cp piece = missing_blocks_in_piece cp piece == 0

-- The loop of `tr_cpHaveValid`.
pub complete_pieces : Completion → ℕ → ℕ → ℕ → ℕ
complete_pieces cp size i zero = size
complete_pieces cp size i (suc n) =
    let size' = if piece_is_complete cp i then u64 (size + piece_count_bytes cp.tor i) else size in
    complete_pieces cp size' (i + 1) n

-- The completion with the sum stored, and the sum.
pub have_valid : Completion → Completion × ℕ
have_valid cp =
    let size = complete_pieces cp 0 0 cp.tor.piece_count in
    if cp.have_valid_is_dirty
    then (record cp { have_valid_lazy = size; have_valid_is_dirty = false }, size)
    else (cp, cp.have_valid_lazy)

-- The bytes of a piece that are wanted, or held of one that is not.
pub wanted_in_piece : Completion → ℕ → ℕ
wanted_in_piece cp p =
    let last = piece_last_block cp.tor p in
    let count = count_range cp.block_bitfield (piece_first_block cp.tor p) (u32 (last + 1)) in
    let n = u64 (count * cp.tor.block_size) in
    if not (cp.dnd p)
    then piece_count_bytes cp.tor p
    else if (last == u32 (cp.tor.block_count + 2 ^ 32 - 1)) && has cp.block_bitfield last
    then sub64 n (sub32 cp.tor.block_size cp.tor.last_block_size)
    else n

pub wanted_pieces : Completion → ℕ → ℕ → ℕ → ℕ
wanted_pieces cp size p zero = size
wanted_pieces cp size p (suc n) = wanted_pieces cp (u64 (size + wanted_in_piece cp p)) (p + 1) n

pub size_when_done : Completion → Completion × ℕ
size_when_done cp =
    let size =
      if has_all_blocks cp then cp.tor.total_size else wanted_pieces cp 0 0 cp.tor.piece_count in
    if cp.size_when_done_is_dirty
    then (record cp { size_when_done_lazy = size; size_when_done_is_dirty = false }, size)
    else (cp, cp.size_when_done_lazy)

pub left_until_done : Completion → Completion × ℕ
left_until_done cp = let (cp', size) = size_when_done cp in (cp', sub64 size cp'.size_now)

pub get_status : Completion → Completion × Completeness
get_status cp =
    if has_all_blocks cp
    then (cp, seed)
    else if not cp.has_metadata
    then (cp, leech)
    else let (cp', size) = size_when_done cp in
      (cp', if cp.size_now == size then partial_seed else leech)
