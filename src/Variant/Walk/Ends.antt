-- ===== src/Variant/Walk/Ends.antt =====
-- The walk ends: each visit of a node is one round.
use mathlib.Core.Option
use mathlib.Core.List.{append_assoc}
use libtransmission.Prelude.{
  ℕ, zero, suc, ◌+◌, ◌<◌, ◌≡◌, refl, ap, sym, arith, List, [], ◌∷◌, ◌++◌, Option, none, some,
  if◌then◌else◌,
}
use libtransmission.Variant.{
  Variant, int, bool, real, str, items, dict, nil, cons, Entries, end, entry, is_container,
}
use libtransmission.Variant.Walk.{
  WalkFuncs, Node, unvisited, scalar, in_list, in_dict, visited, node_construct, child_stack,
  walk_loop, rounds, rounds_items, rounds_entries, variant_walk,
}

-- The rounds that a stack takes.
rounds_node : Node → ℕ
rounds_node (unvisited v) = rounds v
rounds_node scalar = 1
rounds_node (in_list xs) = 1 + rounds_items xs
rounds_node (in_dict es) = 1 + rounds_entries es

rounds_stack : List Node → ℕ
rounds_stack [] = 0
rounds_stack (n ∷ st) = rounds_node n + rounds_stack st

abbrev pub prepend : List ℕ → Option (List ℕ) → Option (List ℕ)
prepend xs = Option.map (λ out. xs ++ out)

pub prepend-prepend :
    (xs ys : List ℕ) (o : Option (List ℕ)) → prepend xs (prepend ys o) ≡ prepend (xs ++ ys) o
prepend-prepend xs ys none = refl
prepend-prepend xs ys (some o) = ap some (sym (append_assoc xs ys o))

pub prepend_nil : (o : Option (List ℕ)) → prepend [] o ≡ o
prepend_nil none = refl
prepend_nil (some o) = refl

IsSome : Option (List ℕ) → Type 0
IsSome o = (out : List ℕ) × (o ≡ some out)

module _ (f : WalkFuncs) (sort : Entries → Entries)
    (keeps : (es : Entries) → rounds_entries (sort es) ≡ rounds_entries es) where
  rounds-construct : (v : Variant) → rounds_node (node_construct f sort v) ≡ rounds v
  unfolding rounds_node node_construct rounds
  rounds-construct (int n) = refl
  rounds-construct (bool b) = refl
  rounds-construct (real t) = refl
  rounds-construct (str s) = refl
  rounds-construct (items xs) = refl
  rounds-construct (dict es) = rw (keeps es) refl

  rounds-visited : (v : Variant) → rounds_node (visited v) + 1 ≡ rounds v
  unfolding rounds_node visited rounds
  rounds-visited (int n) = refl
  rounds-visited (bool b) = refl
  rounds-visited (real t) = refl
  rounds-visited (str s) = refl
  rounds-visited (items xs) = omega arith
  rounds-visited (dict es) = omega arith

  rounds-child :
      (x : Variant) (st : List Node)
      → rounds_stack (child_stack f sort x st)
        ≡ (if is_container x then rounds x else 0) + rounds_stack st
  unfolding rounds_stack child_stack
  rounds-child x st = ground (arith, rounds-construct x)

  prepend-IsSome : (xs : List ℕ) (o : Option (List ℕ)) → IsSome o → IsSome (prepend xs o)
  unfolding IsSome
  prepend-IsSome xs o (out, e) = (xs ++ out, rw e refl)

  -- The loop ends for every stack, on the fuel of its rounds.
  walk_loop_total :
      (fuel : ℕ) (st : List Node) → rounds_stack st < fuel → IsSome (walk_loop f sort fuel st)
  unfolding walk_loop rounds_stack rounds_node rounds IsSome
  walk_loop_total zero st h = absurd (omega arith)
  walk_loop_total (suc fuel) [] h = ([], refl)
  walk_loop_total (suc fuel) (unvisited v ∷ st) h =
      prepend-IsSome _ _ (walk_loop_total fuel (visited v ∷ st) (omega (arith, rounds-visited v)))
  walk_loop_total (suc fuel) (scalar ∷ st) h = walk_loop_total fuel st (omega arith)
  walk_loop_total (suc fuel) (in_list nil ∷ st) h =
      prepend-IsSome _ _ (walk_loop_total fuel st (omega arith))
  walk_loop_total (suc fuel) (in_list (cons x xs) ∷ st) h = prepend-IsSome _ _ (
      walk_loop_total fuel (child_stack f sort x (in_list xs ∷ st))
        (omega (arith, rounds-child x (in_list xs ∷ st))))
  walk_loop_total (suc fuel) (in_dict end ∷ st) h =
      prepend-IsSome _ _ (walk_loop_total fuel st (omega arith))
  walk_loop_total (suc fuel) (in_dict (entry k x es) ∷ st) h = prepend-IsSome _ _ (
      prepend-IsSome _ _ (
        walk_loop_total fuel (child_stack f sort x (in_dict es ∷ st))
          (omega (arith, rounds-child x (in_dict es ∷ st)))))

  -- tr_variantWalk of any tree ends, for a sort that keeps the number of rounds a dictionary
  -- takes.
  pub variant_walk_total : (v : Variant) → (out : List ℕ) × (variant_walk f sort v ≡ some out)
  unfolding variant_walk IsSome rounds_stack
  variant_walk_total v =
      walk_loop_total (rounds v + 1) (node_construct f sort v ∷ [])
        (omega (arith, rounds-construct v))
