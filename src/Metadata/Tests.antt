-- ===== src/Metadata/Tests.antt =====
-- The exchange of metadata at concrete inputs.
use libtransmission.Prelude.{
  ◌+◌, ℕ, zero, suc, ◌*◌, ◌≤◌, ◌<◌, ◌≡◌, refl, arith, true, false, List, [], ◌∷◌, none, some,
  length, replicate, length-replicate,
}
use libtransmission.Variant.Benc
use libtransmission.Variant.Benc.{
  Numbers, parse_benc, parse_loop, parse_step, open_container, close_container, put_value, fill,
  node_key, key_after, is_empty, no_frames, is_in_dict,
}
use libtransmission.Metadata.{
  MetadataNode, Incomplete, Magnet, Parts, metadata_piece_size, all_needed, is_needed,
  remove_needed, memcpy_at, same_bytes, is_loaded, is_success, after_piece, store_piece, store_in,
  set_metadata_piece, start_incomplete, set_metadata_size_hint, request_first, request_from,
  get_next_metadata_request,
}
use libtransmission.Metadata.Assembly.{piece_of, has_arrived}
use libtransmission.Metadata.Gathering.{Gathering, begin, arrive, request, IsDone}
use libtransmission.Metadata.Whole.{Gathering-IsDone}
use libtransmission.Metadata.Turns.{Turns, ahead, all_due, turn_comes}
use libtransmission.Metadata.Sizes.{zero_size_stuck}

-- No number is ever converted.
abbrev no_numbers : Numbers
no_numbers = record {
  strtoll = λ _. none;
  strtoul = λ _. none;
  print_int = λ _. [];
  print_size = λ _. [];
  behind = [];
}

abbrev parts : Parts
parts = record { num = no_numbers; sha1 = λ _. 7 ∷ []; hash = 7 ∷ []; install = λ _. true }

abbrev unknown : Magnet
unknown = record {
  has_metadata = false;
  incomplete = none;
  is_stopping = false;
  magnet_verify = false;
  start_after_verify = false;
}

-- An empty list, and zeros up to a second piece.
abbrev text : List ℕ
text = b'l' ∷ b'e' ∷ replicate 16384 0

text_good : is_success parts text ≡ true
unfolding same_bytes is_loaded is_success parse_benc parse_loop parse_step open_container
    close_container put_value fill node_key key_after is_empty no_frames Benc.finish is_in_dict
text_good = refl

text_size : length text ≡ 16386
text_size = omega (arith, length-replicate {A = ℕ} 16384 0)

abbrev fresh : List ℕ
fresh = replicate 16386 9

abbrev started : Magnet
started = set_metadata_size_hint fresh (length text) unknown

-- The two pieces of the text, the first of them last requested at time t, in their order.
abbrev waiting : List MetadataNode → Incomplete
waiting ns = record { metadata = fresh; metadata_size = 16386; piece_count = 2; pieces_needed = ns }

abbrev node : ℕ → ℕ → MetadataNode
node q t = record { requested_at = t; piece = q }

started_lem : started ≡ record unknown { incomplete = some (waiting (node 0 0 ∷ node 1 0 ∷ [])) }
unfolding set_metadata_size_hint start_incomplete all_needed
started_lem = rw text_size refl

-- The first piece is requested, and not again.
abbrev requested : Magnet
requested = record unknown { incomplete = some (waiting (node 1 0 ∷ node 0 10 ∷ [])) }

first_request : get_next_metadata_request 10 started ≡ some (0, requested)
unfolding get_next_metadata_request request_from request_first
first_request = rw started_lem refl

-- A piece that was requested is requested again after more than three seconds.
repeated :
    (get_next_metadata_request 13 (record unknown { incomplete = some (waiting (node 0 10 ∷ [])) })
      ≡ none)
    × (get_next_metadata_request 14
          (record unknown { incomplete = some (waiting (node 0 10 ∷ [])) })
        ≡ some (0, record unknown { incomplete = some (waiting (node 0 14 ∷ [])) }))
unfolding get_next_metadata_request request_from request_first
repeated = (refl, refl)

-- A piece that is too long, one that does not exist, and an empty one that is taken for the piece.
pieces_stored :
    (set_metadata_piece parts 1 (1 ∷ 2 ∷ 3 ∷ []) requested ≡ requested)
    × (set_metadata_piece parts 2 [] requested ≡ requested)
    × (set_metadata_piece parts 0 [] requested
        ≡ record unknown { incomplete = some (waiting (node 1 0 ∷ [])) })
unfolding set_metadata_piece store_in store_piece is_needed remove_needed after_piece memcpy_at
pieces_stored = (refl, refl, refl)

abbrev first_arrives : Magnet
first_arrives = set_metadata_piece parts 0 (piece_of 0 text) requested

gathered : Gathering parts text started (0 ∷ 1 ∷ 1 ∷ []) (
    set_metadata_piece parts 0 (piece_of 0 text) (
      set_metadata_piece parts 1
        (piece_of 1 text)
        (set_metadata_piece parts 1 (piece_of 1 text) requested)))
gathered = arrive (arrive (arrive (request begin 10 0 first_request) 1) 1) 0

both_arrived :
    (q : ℕ) → q * metadata_piece_size < length text → has_arrived q (0 ∷ 1 ∷ 1 ∷ []) ≡ true
both_arrived zero h = refl
both_arrived (suc zero) h = refl
both_arrived (suc (suc q)) h = absurd (omega (arith, h, text_size))

Gathering-IsDone_example : IsDone (
    set_metadata_piece parts 0 (piece_of 0 text) (
      set_metadata_piece parts 1
        (piece_of 1 text)
        (set_metadata_piece parts 1 (piece_of 1 text) requested)))
Gathering-IsDone_example =
    Gathering-IsDone parts text fresh (0 ∷ 1 ∷ 1 ∷ []) unknown _ text_good refl refl
      (omega (arith, text_size)) (omega (arith, length-replicate {A = ℕ} 16386 9, text_size))
      gathered both_arrived

abbrev both_needed : Magnet
both_needed = record unknown { incomplete = some (waiting (node 0 0 ∷ node 1 0 ∷ [])) }

both_request : get_next_metadata_request 10 both_needed ≡ some (0, requested)
unfolding get_next_metadata_request request_from request_first
both_request = refl

second_waits : is_needed 1 (node 0 0 ∷ node 1 0 ∷ []) ≡ true
unfolding is_needed
second_waits = refl

turn_comes_example :
    (inc' : Incomplete) × (first_arrives.incomplete ≡ some inc')
    × (is_needed 1 inc'.pieces_needed ≡ true)
    × (ahead 1 inc'.pieces_needed + 1 ≤ 1)
    × ((now : ℕ)
        → all_due now inc'.pieces_needed ≡ true
        → (p : ℕ) × (m'' : Magnet) × (get_next_metadata_request now first_arrives ≡ some (p, m'')))
turn_comes_example =
    turn_comes parts 1 1 both_needed first_arrives (waiting (node 0 0 ∷ node 1 0 ∷ [])) refl
      second_waits
      (Turns.arrive (Turns.request Turns.begin 10 0 (λ h. absurd (omega (arith, h))) both_request) 0
        (λ h. absurd (omega (arith, h))) (piece_of 0 text))

zero_size_stuck_example :
    ((now : ℕ) → get_next_metadata_request now (set_metadata_size_hint [] 0 unknown) ≡ none)
    × ((e : Parts) (q : ℕ) (bytes : List ℕ)
        → set_metadata_piece e q bytes (set_metadata_size_hint [] 0 unknown)
          ≡ set_metadata_size_hint [] 0 unknown)
    × ((fresh' : List ℕ) (size : ℕ)
        → set_metadata_size_hint fresh' size (set_metadata_size_hint [] 0 unknown)
          ≡ set_metadata_size_hint [] 0 unknown)
zero_size_stuck_example = zero_size_stuck [] unknown refl refl
