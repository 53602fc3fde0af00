-- ===== src/Completion/Missing.antt =====
-- What is missing of a piece, and when a piece is complete.
use libtransmission.Prelude.{
  ℕ, ◌+◌, ◌-◌, ◌≤◌, ◌<◌, ◌≡◌, ◌↔◌, arith, true, inl, inr, u32, sub32, sub64, Bool-cases, count_from,
  count_from-le, count_from_all, count_from_const_on,
}
use libtransmission.Bitfield.{has, count_range}
use libtransmission.Bitfield.Queries.{count_range-eq-count_from, has_of_all}
use libtransmission.Torrent.{block_piece, piece_first_block, piece_last_block}
use libtransmission.Torrent.Blocks.{piece_range_bounds, block_piece-range}
use libtransmission.Completion.{
  Completion, has_all_blocks, missing_blocks_in_piece, piece_is_complete,
}
use libtransmission.Completion.Blocks.{IsSized}

module _ (cp : Completion) (s : IsSized cp) (p : ℕ) (l : p < cp.tor.piece_count) where
  abbrev pub first : ℕ
  first = piece_first_block cp.tor p

  abbrev pub last : ℕ
  last = piece_last_block cp.tor p

  abbrev held : ℕ
  held = count_from (has cp.block_bitfield) first (last + 1 - first)

  counted : count_range cp.block_bitfield first (last + 1) ≡ held
  counted =
      let bounds = piece_range_bounds cp.tor s.cut p l in
      count_range-eq-count_from s.valid first (last + 1) (omega (arith, bounds))
        (omega (arith, bounds, s.width))

  held_le : held ≤ last + 1 - first
  held_le = count_from-le (has cp.block_bitfield) first (last + 1 - first)

  -- A full bitfield has every block of the piece.
  held_of_all : has_all_blocks cp ≡ true → held ≡ last + 1 - first
  unfolding has_all_blocks
  held_of_all h =
      count_from_const_on (has cp.block_bitfield) true first (last + 1 - first)
        (λ i _. has_of_all cp.block_bitfield (first + i) (ground (arith, h)))

  difference :
      sub64 (sub32 (u32 (last + 1)) first) (count_range cp.block_bitfield first (u32 (last + 1)))
      ≡ last + 1 - first - held
  difference =
      let bounds = piece_range_bounds cp.tor s.cut p l in
      let wrap : u32 (last + 1) ≡ last + 1 = omega (arith, bounds, s.cut.blocks_fit) in
      rw (wrap, counted) (omega (arith, held_le, bounds, s.cut.blocks_fit))

  -- `tr_cpMissingBlocksInPiece` is the number of blocks of the piece less those held.
  pub missing_blocks_in_piece_lem :
      missing_blocks_in_piece cp p
      ≡ last + 1 - first - count_from (has cp.block_bitfield) first (last + 1 - first)
  unfolding missing_blocks_in_piece
  missing_blocks_in_piece_lem = elim (Bool-cases (has_all_blocks cp)) [
    | inl all ↦ rw all (omega (arith, held_of_all all))
    | inr some_missing ↦ rw some_missing difference
  ]

  -- `tr_cpPieceIsComplete` says whether every block of the piece is held.
  pub piece_is_complete_iff : (piece_is_complete cp p ≡ true) ↔ (
      (m : ℕ) → m < cp.tor.block_count → block_piece cp.tor m ≡ p → has cp.block_bitfield m ≡ true)
  unfolding piece_is_complete
  piece_is_complete_iff =
      let bounds = piece_range_bounds cp.tor s.cut p l in
      (
        (λ complete m h e.
            let range = block_piece-range cp.tor s.cut p m l h in
            count_from_all (has cp.block_bitfield) first (last + 1 - first) m
              (ground (arith, missing_blocks_in_piece_lem, held_le)) (omega (arith, range.0 e))
              (omega (arith, range.0 e))),
        λ all.
            let full =
              count_from_const_on (has cp.block_bitfield) true first (last + 1 - first) (λ i hi.
                all (first + i) (omega (arith, bounds)) (
                  (block_piece-range cp.tor s.cut p (first + i) l (omega (arith, bounds))).1
                    (omega (arith, bounds)))) in
            ground (arith, missing_blocks_in_piece_lem, full),
      )
