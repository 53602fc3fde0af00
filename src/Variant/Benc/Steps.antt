-- ===== src/Variant/Benc/Steps.antt =====
-- The rounds that open and close a container, and the one that takes a key.
use libtransmission.Prelude.{
  ℕ, suc, ◌^◌, ◌<◌, ◌≡◌, refl, arith, ltb, true, false, List, [], ◌∷◌, ◌++◌, length,
}
use libtransmission.Variant.{items, dict, Items, nil, Entries, end}
use libtransmission.Variant.Benc.{
  Numbers, Parser, open_list, open_dict, node_key, key_after, open_container, close_container,
  is_in_dict, is_empty, put_string, parse_step, no_frames, parse_loop, save_string,
}
use libtransmission.Variant.Benc.Strings.{IsDecimal}
use libtransmission.Variant.Benc.Rounds.{after, round_lem, filled, Expects, string_round}

module _ (num : Numbers) (d : IsDecimal num) where
  abbrev pub in_list : Parser → List ℕ → Items → Parser
  in_list p slot xs = record p { key = []; stack = open_list slot xs ∷ p.stack }

  abbrev pub in_entries : Parser → List ℕ → Entries → Parser
  in_entries p slot es = record p { key = []; stack = open_dict slot es ∷ p.stack }

  abbrev pub at_key : Parser → List ℕ → Entries → List ℕ → Parser
  at_key p slot es k = record p { key = k; stack = open_dict slot es ∷ p.stack }

  module _ (fuel : ℕ) (p : Parser) (slot rest : List ℕ) where
    pub open_list_round :
        Expects num d p slot
        → parse_loop num (suc fuel) p (b'l' ∷ rest) ≡ parse_loop num fuel (in_list p slot nil) rest
    unfolding parse_step open_container after no_frames
    open_list_round e =
        round_lem num d fuel p (in_list p slot nil) b'l' rest rest (rw (e.due, e.clear) refl)

    pub open_dict_round :
        Expects num d p slot
        → parse_loop num (suc fuel) p (b'd' ∷ rest)
          ≡ parse_loop num fuel (in_entries p slot end) rest
    unfolding parse_step open_container after no_frames
    open_dict_round e =
        round_lem num d fuel p (in_entries p slot end) b'd' rest rest (rw (e.due, e.clear) refl)

    pub close_list_round :
        (xs : Items)
        → parse_loop num (suc fuel) (in_list p slot xs) (b'e' ∷ rest)
          ≡ after num d fuel (filled num d p slot (items xs)) rest
    unfolding parse_step close_container is_empty
    close_list_round xs =
        round_lem num d fuel (in_list p slot xs) (filled num d p slot (items xs)) b'e' rest rest
          refl

    pub close_dict_round :
        (es : Entries)
        → parse_loop num (suc fuel) (in_entries p slot es) (b'e' ∷ rest)
          ≡ after num d fuel (filled num d p slot (dict es)) rest
    unfolding parse_step close_container is_empty
    close_dict_round es =
        round_lem num d fuel (in_entries p slot es) (filled num d p slot (dict es)) b'e' rest rest
          refl

    pub key_round :
        (es : Entries) (k : List ℕ)
        → length k < 2 ^ 31
        → parse_loop num (suc fuel) (in_entries p slot es) (save_string num k ++ rest)
          ≡ parse_loop num fuel (at_key p slot es k) rest
    unfolding put_string is_in_dict is_empty after no_frames
    key_round es k h =
        string_round num d fuel (in_entries p slot es) (at_key p slot es k) k rest
          (omega (arith, h))
          (let fits : ltb (length k) (2 ^ 31) ≡ true = ground (arith, h) in rw fits refl)

  pub item_expected :
      (p : Parser) (slot : List ℕ) (xs : Items) → Expects num d (in_list p slot xs) []
  unfolding node_key key_after
  item_expected p slot xs = record { due = refl; clear = refl }

  pub entry_expected :
      (p : Parser) (slot k : List ℕ) (es : Entries)
      → is_empty k ≡ false
      → Expects num d (at_key p slot es k) k
  unfolding node_key key_after
  entry_expected p slot k es h = record { due = rw h refl; clear = refl }
