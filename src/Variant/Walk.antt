-- ===== src/Variant/Walk.antt =====
-- `tr_variantWalk`, which goes through a tree with a stack of its own.
pub mod Ends
pub mod Print
use libtransmission.Prelude.{
  ℕ, zero, suc, ◌+◌, ◌≡◌, refl, arith, Bool, true, false, List, [], ◌∷◌, ◌++◌, Option, none, some,
  if◌then◌else◌,
}
use libtransmission.Variant.{
  Variant, int, bool, real, str, items, dict, Items, nil, cons, Entries, end, entry, is_container,
  ℤ,
}
use mathlib.Core.Option

-- `struct VariantWalkFuncs`, each function by the text that it appends.
pub record WalkFuncs : Type 0 where
  pub int_func : ℤ → List ℕ
  pub bool_func : Bool → List ℕ
  pub real_func : List ℕ → List ℕ
  pub string_func : List ℕ → List ℕ
  pub dict_begin : List ℕ
  pub list_begin : List ℕ
  pub container_end : List ℕ

-- `struct SaveNode`: a node that has not been visited, or one that has been, with the children from
-- `childIndex` on.
pub data Node : Type 0 where
  unvisited : Variant → Node
  scalar : Node
  in_list : Items → Node
  in_dict : Entries → Node

-- What is left of a node that has been visited.
unfoldable pub visited : Variant → Node
visited (items xs) = in_list xs
visited (dict es) = in_dict es
visited _ = scalar

-- `sort` is the sort of a dictionary's entries by `qsort` with `compareKeyIndex`.
module _ (f : WalkFuncs) (sort : Entries → Entries) where
  unfoldable pub node_construct : Variant → Node
  node_construct (dict es) = unvisited (dict (sort es))
  node_construct v = unvisited v

  -- The text of a value: all of a scalar's, the begin of a container's.
  unfoldable pub begin_func : Variant → List ℕ
  begin_func (int n) = f.int_func n
  begin_func (bool b) = f.bool_func b
  begin_func (real t) = f.real_func t
  begin_func (str s) = f.string_func s
  begin_func (items xs) = f.list_begin
  begin_func (dict es) = f.dict_begin

  -- A child: a scalar is written, a container is put on the stack.
  unfoldable pub child_text : Variant → List ℕ
  child_text v = if is_container v then [] else begin_func v

  unfoldable pub child_stack : Variant → List Node → List Node
  child_stack v st = if is_container v then node_construct v ∷ st else st

  -- The loop, on fuel.
  unfoldable pub walk_loop : ℕ → List Node → Option (List ℕ)
  walk_loop zero st = none
  walk_loop (suc fuel) [] = some []
  walk_loop (suc fuel) (unvisited v ∷ st) =
      Option.map (λ out. begin_func v ++ out) (walk_loop fuel (visited v ∷ st))
  walk_loop (suc fuel) (scalar ∷ st) = walk_loop fuel st
  walk_loop (suc fuel) (in_list nil ∷ st) =
      Option.map (λ out. f.container_end ++ out) (walk_loop fuel st)
  walk_loop (suc fuel) (in_list (cons x xs) ∷ st) =
      Option.map (λ out. child_text x ++ out) (walk_loop fuel (child_stack x (in_list xs ∷ st)))
  walk_loop (suc fuel) (in_dict end ∷ st) =
      Option.map (λ out. f.container_end ++ out) (walk_loop fuel st)
  walk_loop (suc fuel) (in_dict (entry k x es) ∷ st) =
      Option.map (λ out. f.string_func k ++ out)
        (Option.map (λ out. child_text x ++ out) (walk_loop fuel (child_stack x (in_dict es ∷ st))))

-- The rounds of the loop that a value takes.
unfoldable mutual
  pub rounds : Variant → ℕ
  rounds (items xs) = 2 + rounds_items xs
  rounds (dict es) = 2 + rounds_entries es
  rounds _ = 2

  pub rounds_items : Items → ℕ
  rounds_items nil = 0
  rounds_items (cons x xs) = 1 + ((if is_container x then rounds x else 0) + rounds_items xs)

  pub rounds_entries : Entries → ℕ
  rounds_entries end = 0
  rounds_entries (entry k x es) = 1 + ((if is_container x then rounds x else 0) + rounds_entries es)

unfoldable pub variant_walk : WalkFuncs → (Entries → Entries) → Variant → Option (List ℕ)
variant_walk f sort v = walk_loop f sort (rounds v + 1) (node_construct f sort v ∷ [])
