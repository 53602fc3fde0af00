-- ===== src/Completion/Tests.antt =====
-- A torrent of 40000 bytes in two pieces and three blocks, and the theorems at it.
use libtransmission.Prelude.{
  ℕ, ◌<◌, ◌≡◌, ◌↔◌, refl, inl, arith, true, false, not, ◌||◌, ◌&&◌, ◌==◌, some,
}
use libtransmission.Bitfield.{Bitfield, has}
use libtransmission.Bitfield.Update.{construct, set_has_all, set_has_none, free_array}
use libtransmission.Bitfield.Inv.{IsValid}
use libtransmission.Bitfield.Whole.{set_has_all-Becomes}
use libtransmission.Torrent.{Torrent, block_piece}
use libtransmission.Torrent.Geometry.{IsCut}
use libtransmission.Completion.{
  Completion, construct_completion, block_init, block_add, piece_add, piece_rem, piece_is_complete,
  reset,
}
use libtransmission.Completion.Blocks.{IsSized, Holds, block_add-Holds}
use libtransmission.Completion.Pieces.{piece_add-Holds, piece_rem-Holds}
use libtransmission.Completion.Missing.{piece_is_complete_iff}
use libtransmission.Completion.Start.{construct_completion-IsSized, block_init-IsSized}

abbrev cut : Torrent
cut = record {
  total_size = 40000;
  piece_size = 32768;
  piece_count = 2;
  block_size = 16384;
  block_count = 3;
  last_piece_size = 7232;
  last_block_size = 7232;
  block_count_in_piece = 2;
  block_count_in_last_piece = 1;
}

cut-IsCut : IsCut cut
cut-IsCut = record {
  some_size = omega arith;
  size_fits = omega arith;
  piece_fits = omega arith;
  pieces_fit = omega arith;
  blocks_fit = omega arith;
  some_piece = omega arith;
  some_block = omega arith;
  block_pos = omega arith;
  block_max = omega arith;
  piece_blocks = omega arith;
  last_piece_pos = omega arith;
  last_piece_le = omega arith;
  last_block_pos = omega arith;
  last_block_le = omega arith;
  piece_sum = omega arith;
  block_sum = omega arith;
  count_sum = omega arith;
}

abbrev zeroed : Completion
zeroed = record {
  tor = cut;
  has_metadata = true;
  dnd = λ _. false;
  block_bitfield = construct 0;
  size_when_done_lazy = 0;
  size_when_done_is_dirty = false;
  have_valid_lazy = 0;
  have_valid_is_dirty = false;
  size_now = 0;
}

abbrev fresh : Completion
fresh = construct_completion zeroed

fresh-IsSized : IsSized fresh
fresh-IsSized = (construct_completion-IsSized zeroed cut-IsCut (omega arith)).0

block_add-Holds_example :
    Holds fresh (block_add fresh 1) (λ m. 1 == m || has fresh.block_bitfield m)
unfolding construct_completion reset
block_add-Holds_example = block_add-Holds fresh fresh-IsSized 1 (omega arith)

piece_add-Holds_example :
    Holds fresh
      (piece_add fresh 0)
      (λ m. block_piece fresh.tor m == 0 || has fresh.block_bitfield m)
unfolding construct_completion reset
piece_add-Holds_example = piece_add-Holds fresh fresh-IsSized 0 (omega arith)

piece_rem-Holds_example :
    Holds fresh
      (piece_rem fresh 1)
      (λ m. not (block_piece fresh.tor m == 1) && has fresh.block_bitfield m)
unfolding construct_completion reset
piece_rem-Holds_example = piece_rem-Holds fresh fresh-IsSized 1 (omega arith)

piece_is_complete_iff_example : (piece_is_complete fresh 0 ≡ true) ↔ (
    (m : ℕ)
    → m < fresh.tor.block_count
    → block_piece fresh.tor m ≡ 0
    → has fresh.block_bitfield m ≡ true)
unfolding construct_completion reset
piece_is_complete_iff_example = piece_is_complete_iff fresh fresh-IsSized 0 (omega arith)

abbrev full : Bitfield
full = set_has_all (construct 3)

full-IsValid : IsValid full
unfolding construct
full-IsValid = (set_has_all-Becomes (construct 3) (omega arith) (omega arith)).valid

block_init-IsSized_example :
    (cp' : Completion) × (block_init fresh full ≡ some cp')
    × IsSized cp'
    × ((m : ℕ) → m < fresh.tor.block_count → has cp'.block_bitfield m ≡ has full m)
unfolding construct_completion reset set_has_all set_has_none free_array construct
block_init-IsSized_example =
    block_init-IsSized fresh full cut-IsCut full-IsValid refl refl (inl refl)
