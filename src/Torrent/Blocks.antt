-- ===== src/Torrent/Blocks.antt =====
-- The blocks of a piece, and the piece of a block.
use native.Mathlib.Nat.{mul_comm, mul_assoc, mod-lt, add-mul, div-add-mod, div-lt_iff_lt-mul}
use libtransmission.Prelude.{
  ℕ, ◌+◌, ◌-◌, ◌*◌, ◌/◌, ◌%◌, ◌^◌, ◌≤◌, ◌<◌, ◌≡◌, ◌↔◌, arith, ℕ_discrete, u32, u64,
}
use libtransmission.Torrent.{
  Torrent, block_piece, piece_count_bytes, piece_first_block, piece_last_block,
}
use libtransmission.Torrent.Division.{pred_mul, quotient}
use libtransmission.Torrent.Geometry.{IsCut}
use libtransmission.Torrent.Requests.{
  piece_bytes_last, piece_bytes_inner, piece_bytes_le, piece_end,
}

module _ (t : Torrent) (c : IsCut t) where
  total_le : t.total_size ≤ t.block_count * t.block_size
  total_le =
      omega (arith, c.block_sum, c.last_block_le, pred_mul t.block_count t.block_size c.some_block)

  -- A byte of the torrent lies in one of its blocks.
  pub byte_block : (n : ℕ) → n < t.total_size → n / t.block_size < t.block_count
  byte_block n l = (div-lt_iff_lt-mul c.block_pos).1 (omega (arith, total_le))

  first_at : (p : ℕ) → p * t.piece_size ≡ p * t.block_count_in_piece * t.block_size
  first_at p = cc (c.piece_blocks, mul_assoc p t.block_count_in_piece t.block_size)

  first_lem : (p : ℕ) → p < t.piece_count → piece_first_block t p ≡ p * t.block_count_in_piece
  unfolding piece_first_block
  first_lem p l =
      let start : u64 (t.piece_size * p) ≡ p * t.piece_size =
        omega (arith, mul_comm t.piece_size p, piece_end t c p l, c.size_fits) in
      let q : p * t.piece_size / t.block_size ≡ p * t.block_count_in_piece =
        quotient (p * t.piece_size) t.block_size (p * t.block_count_in_piece)
          (omega (arith, first_at p)) (omega (arith, first_at p, c.block_pos)) in
      let below =
        byte_block (p * t.piece_size) (omega (arith, piece_end t c p l, piece_bytes_le t c p l)) in
      rw start (omega (arith, q, below, c.blocks_fit))

  last_lem :
      (p : ℕ)
      → p < t.piece_count
      → piece_last_block t p ≡ (p * t.piece_size + piece_count_bytes t p - 1) / t.block_size
  unfolding piece_last_block
  last_lem p l =
      let start : u64 (u64 (t.piece_size * p) + u32 (piece_count_bytes t p + 2 ^ 32 - 1))
          ≡ p * t.piece_size + piece_count_bytes t p - 1 =
        omega (
          arith,
          mul_comm t.piece_size p,
          piece_end t c p l,
          piece_bytes_le t c p l,
          c.size_fits,
          c.piece_fits,
        ) in
      let below =
        byte_block (p * t.piece_size + piece_count_bytes t p - 1)
          (omega (arith, piece_end t c p l, piece_bytes_le t c p l)) in
      rw start (omega (arith, below, c.blocks_fit))

  pub in_piece_pos : 0 < t.block_count_in_piece
  in_piece_pos = elim (ℕ_discrete t.block_count_in_piece 0) [
    | yes z ↦ let e = rw z at c.piece_blocks in omega (arith, e, c.last_piece_pos, c.last_piece_le)
    | no nz ↦ omega arith
  ]

  next_at :
      (p : ℕ)
      → (p * t.block_count_in_piece + t.block_count_in_piece) * t.block_size
        ≡ p * t.piece_size + t.piece_size
  next_at p = cc (
    add-mul (p * t.block_count_in_piece) t.block_count_in_piece t.block_size,
    first_at p,
    c.piece_blocks,
  )

  last_quotient : (t.total_size - 1) / t.block_size ≡ t.block_count - 1
  last_quotient =
      quotient (t.total_size - 1) t.block_size (t.block_count - 1)
        (omega (arith, c.block_sum, c.last_block_pos))
        (omega (arith, c.block_sum, c.last_block_le, c.some_size, c.block_pos))

  last_inner :
      (p : ℕ)
      → p + 1 < t.piece_count
      → piece_last_block t p ≡ p * t.block_count_in_piece + t.block_count_in_piece - 1
  last_inner p l =
      let k = t.block_count_in_piece in
      let whole = next_at p in
      let before = pred_mul (p * k + k) t.block_size (omega (arith, in_piece_pos)) in
      let q : (p * t.piece_size + t.piece_size - 1) / t.block_size ≡ p * k + k - 1 =
        quotient (p * t.piece_size + t.piece_size - 1) t.block_size (p * k + k - 1)
          (omega (arith, whole, before, c.block_pos)) (omega (arith, whole, before, c.block_pos)) in
      cc (last_lem p (omega arith), piece_bytes_inner t c p l, q)

  last_whole : (p : ℕ) → p + 1 ≡ t.piece_count → piece_last_block t p ≡ t.block_count - 1
  last_whole p l =
      let same : t.piece_count - 1 ≡ p = omega arith in
      let sum = rw same at c.piece_sum in
      let end : p * t.piece_size + piece_count_bytes t p - 1 ≡ t.total_size - 1 =
        omega (arith, sum, piece_bytes_last t c p l) in
      cc (last_lem p (omega arith), end, last_quotient)

  first_below : (p : ℕ) → p < t.piece_count → piece_first_block t p < t.block_count
  first_below p l =
      let q : p * t.piece_size / t.block_size ≡ p * t.block_count_in_piece =
        quotient (p * t.piece_size) t.block_size (p * t.block_count_in_piece)
          (omega (arith, first_at p)) (omega (arith, first_at p, c.block_pos)) in
      let below =
        byte_block (p * t.piece_size) (omega (arith, piece_end t c p l, piece_bytes_le t c p l)) in
      omega (arith, first_lem p l, q, below)

  -- A piece has a block, and its blocks are blocks of the torrent.
  pub piece_range_bounds :
      (p : ℕ)
      → p < t.piece_count
      → (piece_first_block t p ≤ piece_last_block t p) × (piece_last_block t p < t.block_count)
  piece_range_bounds p l = elim (ℕ_discrete (p + 1) t.piece_count) [
    | yes e ↦ omega (arith, first_below p l, last_whole p e)
    | no ne ↦
        let below =
          byte_block (p * t.piece_size + piece_count_bytes t p - 1)
            (omega (arith, piece_end t c p l, piece_bytes_le t c p l)) in
        omega (arith, first_lem p l, last_inner p (omega arith), in_piece_pos, last_lem p l, below)
  ]

  -- A block's piece, by the bounds that the division gives.
  piece_iff :
      (b p : ℕ)
      → (block_piece t b ≡ p) ↔ (
          (p * t.block_count_in_piece ≤ b)
          × (b < p * t.block_count_in_piece + t.block_count_in_piece))
  unfolding block_piece
  piece_iff b p =
      let k = t.block_count_in_piece in
      (
        λ e.
            let split = div-add-mod b k in
            let split' : p * k + b % k ≡ b = cc (split, e, mul_comm k (b / k)) in
            (omega (arith, split'), omega (arith, split', mod-lt b in_piece_pos)),
        λ (l, h). quotient b k p l h,
      )

  -- The last piece holds the last block.
  blocks_le :
      (p : ℕ)
      → p + 1 ≡ t.piece_count
      → t.block_count ≤ p * t.block_count_in_piece + t.block_count_in_piece
  blocks_le p l =
      let same : t.piece_count - 1 ≡ p = omega arith in
      let sum = rw same at c.piece_sum in
      let below : t.total_size - 1
          < (p * t.block_count_in_piece + t.block_count_in_piece) * t.block_size =
        omega (arith, sum, next_at p, c.last_piece_le, c.some_size) in
      omega (arith, last_quotient, c.some_block, (div-lt_iff_lt-mul c.block_pos).1 below)

  -- The blocks from the first to the last block of a piece are the blocks of the torrent whose piece
  -- it is.
  pub block_piece-range :
      (p b : ℕ)
      → p < t.piece_count
      → b < t.block_count
      → (block_piece t b ≡ p) ↔ ((piece_first_block t p ≤ b) × (b ≤ piece_last_block t p))
  block_piece-range p b l h = elim (ℕ_discrete (p + 1) t.piece_count) [
    | yes e ↦ ground (arith, piece_iff b p, first_lem p l, last_whole p e, blocks_le p e)
    | no ne ↦ ground (arith, piece_iff b p, first_lem p l, last_inner p (omega arith), in_piece_pos)
  ]
