-- ===== src/Torrent/Tests.antt =====
-- The cut of a torrent of 8 GiB in pieces of 1 MiB, and the theorems at it.
use libtransmission.Prelude.{◌+◌, ◌-◌, ◌*◌, ◌^◌, ◌≤◌, ◌<◌, ◌≡◌, ◌↔◌, refl, arith, true, some, min}
use libtransmission.Torrent.{
  Torrent, halve, get_block_size, init_from_info, block_piece, block_of, tr_block,
  piece_count_bytes, req_is_valid, piece_first_block, piece_last_block, get_block_location,
  block_count_bytes,
}
use libtransmission.Torrent.Geometry.{IsInfo, IsCut, init_from_info-IsCut}
use libtransmission.Torrent.Requests.{IsInside, req_is_valid_iff, req_is_valid_wraps}
use libtransmission.Torrent.Blocks.{block_piece-range}
use libtransmission.Torrent.Locations.{block_of-get_block_location}

abbrev parsed : Torrent
parsed = record {
  total_size = 2 ^ 33 - 5;
  piece_size = 2 ^ 20;
  piece_count = 2 ^ 13;
  block_size = 0;
  block_count = 0;
  last_piece_size = 0;
  last_block_size = 0;
  block_count_in_piece = 0;
  block_count_in_last_piece = 0;
}

abbrev cut : Torrent
cut = init_from_info parsed

block_sizes :
    (get_block_size (2 ^ 20) ≡ 2 ^ 14) × (get_block_size 16384 ≡ 16384) × (get_block_size 16385 ≡ 0)
unfolding get_block_size halve
block_sizes = (refl, refl, refl)

parsed-IsInfo : IsInfo parsed
unfolding get_block_size halve
parsed-IsInfo = record {
  some_size = omega arith;
  size_fits = omega arith;
  piece_fits = omega arith;
  has_block_size = omega arith;
  pieces = refl;
  pieces_fit = omega arith;
  blocks_fit = omega arith;
  in_piece_fits = omega arith;
}

cut_run :
    (cut.block_count ≡ 2 ^ 19)
    × (cut.last_piece_size ≡ 2 ^ 20 - 5)
    × (cut.last_block_size ≡ 2 ^ 14 - 5)
    × (cut.block_count_in_last_piece ≡ 64)
    × (block_piece cut 130 ≡ 2)
    × (piece_last_block cut 2 ≡ 191)
    × (get_block_location cut 130 ≡ (2, 32768, 16384))
    × (tr_block cut 2 32768 ≡ some 130)
unfolding init_from_info get_block_size halve block_piece piece_last_block piece_count_bytes
    get_block_location block_count_bytes block_of tr_block
cut_run = (refl, refl, refl, refl, refl, refl, refl, refl)

init_from_info-IsCut_example : IsCut (init_from_info parsed)
init_from_info-IsCut_example = init_from_info-IsCut parsed parsed-IsInfo

cut-IsCut : IsCut cut
cut-IsCut = init_from_info-IsCut parsed parsed-IsInfo

req_is_valid_iff_example :
    (req_is_valid cut 3 16384 16384 ≡ true) ↔ IsInside cut cut-IsCut 3 16384 16384
req_is_valid_iff_example = req_is_valid_iff cut cut-IsCut 3 16384 16384 (omega arith)

-- A request for 16 KiB from 4 GiB less 8 KiB on, of a piece of 1 MiB.
req_is_valid_wraps_example :
    (req_is_valid cut 0 (2 ^ 32 - 8192) 16384 ≡ true) × (piece_count_bytes cut 0 < 2 ^ 32 - 8192)
unfolding init_from_info piece_count_bytes get_block_size halve
req_is_valid_wraps_example =
    req_is_valid_wraps cut cut-IsCut 0 (2 ^ 32 - 8192) 16384 (omega arith) (omega arith)
      (omega arith) (omega arith) (omega arith) (omega arith) (omega arith)

block_piece-range_example :
    (block_piece cut 130 ≡ 2) ↔ ((piece_first_block cut 2 ≤ 130) × (130 ≤ piece_last_block cut 2))
unfolding init_from_info get_block_size halve
block_piece-range_example = block_piece-range cut cut-IsCut 2 130 (omega arith) (omega arith)

block_of-get_block_location_example :
    let (piece, offset, length) = get_block_location cut 130 in
    (piece ≡ block_piece cut 130)
    × (offset + length ≤ piece_count_bytes cut piece)
    × (piece * cut.piece_size + offset ≡ 130 * cut.block_size)
    × (piece * cut.piece_size + offset + length ≡ min (131 * cut.block_size) cut.total_size)
    × (tr_block cut piece offset ≡ some 130)
unfolding init_from_info get_block_size halve
block_of-get_block_location_example = block_of-get_block_location cut cut-IsCut 130 (omega arith)
