-- ===== src/Torrent/Files/Tests.antt =====
-- Three files, one of them empty, in four pieces of 32 KiB.
use libtransmission.Prelude.{◌^◌, ◌≤◌, ◌≡◌, ◌↔◌, refl, arith, true, List, [], ◌∷◌, get_or, take}
use libtransmission.Torrent.{Torrent, halve, get_block_size, init_from_info}
use libtransmission.Torrent.Geometry.{IsInfo, init_from_info-IsCut}
use libtransmission.Torrent.Files.{
  TorrentFile, get_byte_piece, init_file_pieces, assign_files, piece_has_file, get_file_block_range,
}
use libtransmission.Torrent.Files.Overlap.{Overlaps, no_file, sum_lengths, assign_files-Overlaps}

abbrev small_torrent : Torrent
small_torrent = record {
  total_size = 100000;
  piece_size = 2 ^ 15;
  piece_count = 4;
  block_size = 0;
  block_count = 0;
  last_piece_size = 0;
  last_block_size = 0;
  block_count_in_piece = 0;
  block_count_in_last_piece = 0;
}

small_torrent-IsInfo : IsInfo small_torrent
unfolding get_block_size halve
small_torrent-IsInfo = record {
  some_size = omega arith;
  size_fits = omega arith;
  piece_fits = omega arith;
  has_block_size = omega arith;
  pieces = refl;
  pieces_fit = omega arith;
  blocks_fit = omega arith;
  in_piece_fits = omega arith;
}

abbrev small_cut : Torrent
small_cut = init_from_info small_torrent

abbrev three_files : List TorrentFile
three_files =
    record no_file { file_length = 40000 }
    ∷ (record no_file { file_length = 0 } ∷ (record no_file { file_length = 60000 } ∷ []))

last_file :
    get_or (assign_files small_cut 0 three_files) 2 no_file
    ≡ record { file_length = 60000; offset = 40000; first_piece = 1; last_piece = 3 }
unfolding init_from_info get_block_size halve get_byte_piece init_file_pieces assign_files
last_file = refl

assign_files-Overlaps_example :
    ((piece_has_file 1 (get_or (assign_files small_cut 0 three_files) 2 no_file) ≡ true)
      ↔ Overlaps small_cut.piece_size 1 (sum_lengths (take 2 three_files)) 60000)
    × ((((get_file_block_range small_cut
              (get_or (assign_files small_cut 0 three_files) 2 no_file)).0
            ≤ 1)
          × (1
              ≤ (get_file_block_range small_cut
                  (get_or (assign_files small_cut 0 three_files) 2 no_file)).1))
        ↔ Overlaps small_cut.block_size 1 (sum_lengths (take 2 three_files)) 60000)
unfolding sum_lengths init_from_info
assign_files-Overlaps_example =
    assign_files-Overlaps small_cut (init_from_info-IsCut small_torrent small_torrent-IsInfo)
      three_files 2 1 refl (omega arith) (omega arith)
