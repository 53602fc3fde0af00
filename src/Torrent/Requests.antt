-- ===== src/Torrent/Requests.antt =====
-- Which block requests `tr_torrentReqIsValid` lets through.
use native.Mathlib.Nat.{mul_comm, mul-le-mul_right}
use libtransmission.Prelude.{ℕ, ◌+◌, ◌-◌, ◌*◌, ◌^◌, ◌≤◌, ◌<◌, ◌≡◌, ◌↔◌, arith, true, ℕ_discrete}
use libtransmission.Torrent.{Torrent, max_block_size, piece_count_bytes, piece_offset, req_is_valid}
use libtransmission.Torrent.Division.{suc_mul}
use libtransmission.Torrent.Geometry.{IsCut}

module _ (t : Torrent) (c : IsCut t) where
  pub piece_bytes_last : (p : ℕ) → p + 1 ≡ t.piece_count → piece_count_bytes t p ≡ t.last_piece_size
  unfolding piece_count_bytes
  piece_bytes_last p e = ground (arith, c.pieces_fit)

  pub piece_bytes_inner : (p : ℕ) → p + 1 < t.piece_count → piece_count_bytes t p ≡ t.piece_size
  unfolding piece_count_bytes
  piece_bytes_inner p e = ground (arith, c.pieces_fit)

  pub piece_bytes_le :
      (p : ℕ)
      → p < t.piece_count
      → (piece_count_bytes t p ≤ t.piece_size) × (0 < piece_count_bytes t p)
  piece_bytes_le p l = elim (ℕ_discrete (p + 1) t.piece_count) [
    | yes e ↦ omega (arith, piece_bytes_last p e, c.last_piece_le, c.last_piece_pos)
    | no ne ↦ omega (arith, piece_bytes_inner p (omega arith), c.last_piece_le, c.last_piece_pos)
  ]

  -- A piece ends within the torrent.
  pub piece_end :
      (p : ℕ) → p < t.piece_count → p * t.piece_size + piece_count_bytes t p ≤ t.total_size
  piece_end p l = elim (ℕ_discrete (p + 1) t.piece_count) [
    | yes e ↦
        let same : t.piece_count - 1 ≡ p = omega arith in
        let sum = rw same at c.piece_sum in omega (arith, piece_bytes_last p e, sum)
    | no ne ↦
        let k : (p + 1) * t.piece_size ≤ (t.piece_count - 1) * t.piece_size =
          mul-le-mul_right t.piece_size (omega arith) in
        omega (arith, piece_bytes_inner p (omega arith), k, suc_mul p t.piece_size, c.piece_sum)
  ]

  module _ (index offset length : ℕ) where
    abbrev pub IsInside : Type 0
    IsInside =
        (index < t.piece_count)
        × (1 ≤ length)
        × (length ≤ max_block_size)
        × (offset + length ≤ piece_count_bytes t index)

    offset_lem :
        index < t.piece_count
        → offset < 2 ^ 32
        → length ≤ max_block_size
        → piece_offset t index offset length ≡ index * t.piece_size + offset + length
    unfolding piece_offset
    offset_lem l o le =
        let e = mul_comm t.piece_size index in omega (arith, e, piece_end index l, c.size_fits)

    -- Where `offset + length` does not wrap, the requests let through are exactly the nonempty ones of
    -- at most MAX_BLOCK_SIZE bytes that lie within an existing piece.
    pub req_is_valid_iff :
        offset + length < 2 ^ 32 → (req_is_valid t index offset length ≡ true) ↔ IsInside
    unfolding req_is_valid
    req_is_valid_iff fits = (
      (λ h. ground arith),
      λ (a, b, l, e). ground (arith, piece_end index a, offset_lem a (omega arith) l),
    )

    -- A request whose offset lies beyond its piece is let through when `offset + length` wraps to a
    -- number that fits the piece, and the end of the request is within the torrent.
    pub req_is_valid_wraps :
        index < t.piece_count
        → offset < 2 ^ 32
        → 1 ≤ length
        → length ≤ max_block_size
        → 2 ^ 32 ≤ offset + length
        → offset + length ≤ 2 ^ 32 + piece_count_bytes t index
        → index * t.piece_size + offset + length ≤ t.total_size
        → (req_is_valid t index offset length ≡ true) × (piece_count_bytes t index < offset)
    unfolding req_is_valid
    req_is_valid_wraps a o l le wraps small within =
        ground (arith, offset_lem a o le, piece_end index a, piece_bytes_le index a, c.piece_fits)
