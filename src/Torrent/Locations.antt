-- ===== src/Torrent/Locations.antt =====
-- Where a block lies, and which block a byte of a piece is in.
use native.Mathlib.Nat.{
  mul_comm, mul_assoc, mod-lt, add-mul, div-add-mod, div-le_self, mul-le-mul_right,
}
use libtransmission.Prelude.{
  ℕ, ◌+◌, ◌-◌, ◌*◌, ◌/◌, ◌%◌, ◌≤◌, ◌<◌, ◌≡◌, ◌==◌, false, some, ap, min, Bool-cases, inl, inr, refl,
  sym, arith, u32, u64, sub64,
}
use libtransmission.Torrent.{
  Torrent, block_count_bytes, piece_count_bytes, block_piece, block_of, tr_block,
  get_block_location,
}
use libtransmission.Torrent.Division.{suc_mul, quotient}
use libtransmission.Torrent.Geometry.{IsCut}
use libtransmission.Torrent.Blocks.{in_piece_pos}

module _ (t : Torrent) (c : IsCut t) where
  in_piece_quotient : t.piece_size / t.block_size ≡ t.block_count_in_piece
  in_piece_quotient =
      quotient t.piece_size t.block_size t.block_count_in_piece (omega (arith, c.piece_blocks))
        (omega (arith, c.piece_blocks, c.block_pos))

  module _ (b : ℕ) (l : b < t.block_count) where
    -- The piece of the block, and its number within the piece.
    q : ℕ
    q = b / t.block_count_in_piece

    r : ℕ
    r = b % t.block_count_in_piece

    split : q * t.block_count_in_piece + r ≡ b
    unfolding q r
    split = cc (div-add-mod b t.block_count_in_piece, mul_comm t.block_count_in_piece q)

    r_lt : r < t.block_count_in_piece
    unfolding r
    r_lt = mod-lt b (in_piece_pos t c)

    start_split : b * t.block_size ≡ q * t.piece_size + r * t.block_size
    start_split = cc (
      split,
      add-mul (q * t.block_count_in_piece) r t.block_size,
      mul_assoc q t.block_count_in_piece t.block_size,
      c.piece_blocks,
    )

    r_end : r * t.block_size + t.block_size ≤ t.piece_size
    r_end =
        let k : (r + 1) * t.block_size ≤ t.block_count_in_piece * t.block_size =
          mul-le-mul_right t.block_size (omega (arith, r_lt)) in
        omega (arith, k, suc_mul r t.block_size, c.piece_blocks)

    start_lt : b * t.block_size < t.total_size
    start_lt =
        let k : b * t.block_size ≤ (t.block_count - 1) * t.block_size =
          mul-le-mul_right t.block_size (omega arith) in
        omega (arith, k, c.block_sum, c.last_block_pos)

    q_lem : b * t.block_size / t.piece_size ≡ q
    q_lem =
        quotient (b * t.block_size) t.piece_size q (omega (arith, start_split))
          (omega (arith, start_split, r_end, c.block_pos))

    q_le : q ≤ b
    unfolding q
    q_le = div-le_self b t.block_count_in_piece

    r_quotient : r * t.block_size / t.block_size ≡ r
    r_quotient =
        quotient (r * t.block_size) t.block_size r (omega arith) (omega (arith, c.block_pos))

    -- The offset within the piece, of the wrapped product.
    offset_lem : u32 (sub64 (b * t.block_size) (u32 (q * t.piece_size))) ≡ r * t.block_size
    offset_lem = omega (arith, start_split, r_end, start_lt, c.size_fits, c.piece_fits, c.block_pos)

    location_lem : get_block_location t b ≡ (q, r * t.block_size, block_count_bytes t b)
    unfolding get_block_location
    location_lem =
        let start : u64 (b * t.block_size) ≡ b * t.block_size =
          omega (arith, start_lt, c.size_fits) in
        let piece : u32 (b * t.block_size / t.piece_size) ≡ q =
          omega (arith, q_lem, q_le, c.blocks_fit) in
        cc (start, piece, offset_lem)

    block_of_lem : block_of t q (r * t.block_size) ≡ b
    unfolding block_of
    block_of_lem = rw (in_piece_quotient, r_quotient) (omega (arith, split, c.blocks_fit))

    -- Where the next block begins, or the torrent ends.
    end_lem : b * t.block_size + block_count_bytes t b ≡ min ((b + 1) * t.block_size) t.total_size
    unfolding block_count_bytes
    end_lem = elim (Bool-cases (u32 (b + 1) == t.block_count)) [
      | inl last ↦
          let same : t.block_count - 1 ≡ b = ground (arith, last, c.blocks_fit) in
          let total = rw same at c.block_sum in
          rw last (omega (arith, total, c.last_block_le, suc_mul b t.block_size))
      | inr other ↦
          let before : b + 1 ≤ t.block_count - 1 = ground (arith, other, c.blocks_fit) in
          let k : (b + 1) * t.block_size ≤ (t.block_count - 1) * t.block_size =
            mul-le-mul_right t.block_size before in
          rw other (omega (arith, k, c.block_sum, suc_mul b t.block_size))
    ]

    -- The block ends within the bytes that its piece has.
    fits_lem : r * t.block_size + block_count_bytes t b ≤ piece_count_bytes t q
    unfolding piece_count_bytes
    fits_lem = elim (Bool-cases (u32 (q + 1) == t.piece_count)) [
      | inl last ↦
          let same : t.piece_count - 1 ≡ q =
            ground (arith, last, c.pieces_fit, q_le, c.blocks_fit) in
          let total = rw same at c.piece_sum in rw last (omega (arith, total, start_split, end_lem))
      | inr other ↦ rw other (omega (arith, start_split, end_lem, r_end, suc_mul b t.block_size))
    ]

    -- In a cut torrent, tr_torrentGetBlockLocation of a block gives its tr_torBlockPiece, an
    -- offset that is the byte where the block starts, and a length that ends the block where
    -- the next one starts or the torrent ends, within the bytes that its piece has; and
    -- _tr_block gives the block back.
    pub block_of-get_block_location :
        let (piece, offset, length) = get_block_location t b in
        (piece ≡ block_piece t b)
        × (offset + length ≤ piece_count_bytes t piece)
        × (piece * t.piece_size + offset ≡ b * t.block_size)
        × (piece * t.piece_size + offset + length ≡ min ((b + 1) * t.block_size) t.total_size)
        × (tr_block t piece offset ≡ some b)
    unfolding block_piece q tr_block
    block_of-get_block_location =
        let blocks : (t.block_size == 0) ≡ false = ground (arith, c.block_pos) in
        rw location_lem (
          refl,
          fits_lem,
          sym start_split,
          omega (arith, start_split, end_lem),
          rw blocks (ap some block_of_lem),
        )
