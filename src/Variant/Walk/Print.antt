-- ===== src/Variant/Walk/Print.antt =====
-- The walk of a tree against a printer that recurs over it.
use libtransmission.Prelude.{
  ℕ, suc, ◌+◌, ◌≡◌, refl, ap, sym, ◌∙◌, arith, List, [], ◌∷◌, ◌++◌, if◌then◌else◌,
}
use libtransmission.Variant.{
  Variant, int, bool, real, str, items, dict, Items, nil, cons, Entries, end, entry, is_container,
}
use libtransmission.Variant.Walk.{
  WalkFuncs, Node, unvisited, scalar, in_list, in_dict, visited, node_construct, begin_func,
  child_text, child_stack, walk_loop, rounds, rounds_items, rounds_entries,
}
use libtransmission.Variant.Walk.Ends.{prepend, prepend-prepend, prepend_nil}

-- The text of a tree, by recursion.
module _ (f : WalkFuncs) where
  unfoldable mutual
    pub print : Variant → List ℕ
    print (int n) = f.int_func n
    print (bool b) = f.bool_func b
    print (real t) = f.real_func t
    print (str s) = f.string_func s
    print (items xs) = f.list_begin ++ (print_items xs ++ f.container_end)
    print (dict es) = f.dict_begin ++ (print_entries es ++ f.container_end)

    pub print_items : Items → List ℕ
    print_items nil = []
    print_items (cons x xs) = print x ++ print_items xs

    pub print_entries : Entries → List ℕ
    print_entries end = []
    print_entries (entry k x es) = f.string_func k ++ (print x ++ print_entries es)

-- Every dictionary in the tree is left alone by the sort.
module _ (sort : Entries → Entries) where
  unfoldable mutual
    pub IsSorted : Variant → Type 0
    IsSorted (items xs) = IsSortedItems xs
    IsSorted (dict es) = (sort es ≡ es) × IsSortedEntries es
    IsSorted (int n) = Unit {0}
    IsSorted (bool b) = Unit {0}
    IsSorted (real t) = Unit {0}
    IsSorted (str s) = Unit {0}

    pub IsSortedItems : Items → Type 0
    IsSortedItems nil = Unit {0}
    IsSortedItems (cons x xs) = IsSorted x × IsSortedItems xs

    pub IsSortedEntries : Entries → Type 0
    IsSortedEntries end = Unit {0}
    IsSortedEntries (entry k x es) = IsSorted x × IsSortedEntries es

module _ (f : WalkFuncs) (sort : Entries → Entries) where
  -- The walk with what the value takes of the fuel writes it and goes on.
  abbrev Walks : Variant → Type 0
  Walks v =
      (n k : ℕ) (st : List Node)
      → n ≡ rounds v + k
      → walk_loop f sort n (unvisited v ∷ st) ≡ prepend (print f v) (walk_loop f sort k st)

  scalar_walks :
      (v : Variant) (n k : ℕ) (st : List Node)
      → visited v ≡ scalar
      → n ≡ 2 + k
      → walk_loop f sort n (unvisited v ∷ st)
        ≡ prepend (begin_func f sort v) (walk_loop f sort k st)
  unfolding walk_loop
  scalar_walks v n k st h e = let e' : n ≡ suc (suc k) = omega arith in rw (e', h) refl

  child-Walks :
      (x : Variant) (n k : ℕ) (st : List Node)
      → IsSorted sort x
      → Walks x
      → n ≡ (if is_container x then rounds x else 0) + k
      → prepend (child_text f sort x) (walk_loop f sort n (child_stack f sort x st))
        ≡ prepend (print f x) (walk_loop f sort k st)
  unfolding child_text child_stack is_container print begin_func node_construct IsSorted rounds
  child-Walks (int i) n k st s w e =
      ap (λ m. prepend (f.int_func i) (walk_loop f sort m st)) (omega arith)
  child-Walks (bool i) n k st s w e =
      ap (λ m. prepend (f.bool_func i) (walk_loop f sort m st)) (omega arith)
  child-Walks (real i) n k st s w e =
      ap (λ m. prepend (f.real_func i) (walk_loop f sort m st)) (omega arith)
  child-Walks (str i) n k st s w e =
      ap (λ m. prepend (f.string_func i) (walk_loop f sort m st)) (omega arith)
  child-Walks (items xs) n k st s w e = rw (w n k st e) (prepend_nil _)
  child-Walks (dict es) n k st s w e = rw s.0 (rw (w n k st e) (prepend_nil _))

  abbrev WalksItems : Items → Type 0
  WalksItems xs =
      (n k : ℕ) (st : List Node)
      → n ≡ rounds_items xs + suc k
      → walk_loop f sort n (in_list xs ∷ st)
        ≡ prepend (print_items f xs) (prepend f.container_end (walk_loop f sort k st))

  abbrev WalksEntries : Entries → Type 0
  WalksEntries es =
      (n k : ℕ) (st : List Node)
      → n ≡ rounds_entries es + suc k
      → walk_loop f sort n (in_dict es ∷ st)
        ≡ prepend (print_entries f es) (prepend f.container_end (walk_loop f sort k st))

  items-Walks : (xs : Items) → WalksItems xs → Walks (items xs)
  unfolding rounds print walk_loop begin_func visited
  items-Walks xs w n k st e =
      let e' : n ≡ suc (rounds_items xs + suc k) = omega arith in
      rw (e', w (rounds_items xs + suc k) k st refl)
        (ap (prepend f.list_begin) (prepend-prepend (print_items f xs) f.container_end _)
          ∙ prepend-prepend f.list_begin _ _)

  dict-Walks : (es : Entries) → WalksEntries es → Walks (dict es)
  unfolding rounds print walk_loop begin_func visited
  dict-Walks es w n k st e =
      let e' : n ≡ suc (rounds_entries es + suc k) = omega arith in
      rw (e', w (rounds_entries es + suc k) k st refl)
        (ap (prepend f.dict_begin) (prepend-prepend (print_entries f es) f.container_end _)
          ∙ prepend-prepend f.dict_begin _ _)

  cons-Walks :
      (x : Variant) (xs : Items)
      → IsSorted sort x
      → Walks x
      → WalksItems xs
      → WalksItems (cons x xs)
  unfolding rounds print walk_loop
  cons-Walks x xs s w ws n k st e =
      let e' : n ≡ suc ((if is_container x then rounds x else 0) + (rounds_items xs + suc k)) =
        omega arith in
      rw e' (
        child-Walks x _ (rounds_items xs + suc k) (in_list xs ∷ st) s w refl
        ∙ ap (prepend (print f x)) (ws _ k st refl)
        ∙ prepend-prepend (print f x) (print_items f xs) _)

  entry-Walks :
      (j : List ℕ) (x : Variant) (es : Entries)
      → IsSorted sort x
      → Walks x
      → WalksEntries es
      → WalksEntries (entry j x es)
  unfolding rounds print walk_loop
  entry-Walks j x es s w ws n k st e =
      let e' : n ≡ suc ((if is_container x then rounds x else 0) + (rounds_entries es + suc k)) =
        omega arith in
      rw e' (
        ap (prepend (f.string_func j)) (
          child-Walks x _ (rounds_entries es + suc k) (in_dict es ∷ st) s w refl
          ∙ ap (prepend (print f x)) (ws _ k st refl)
          ∙ prepend-prepend (print f x) (print_entries f es) _)
        ∙ prepend-prepend (f.string_func j) _ _)

  mutual
    unfolding IsSorted rounds walk_loop print begin_func visited

    walks : (v : Variant) → IsSorted sort v → Walks v
    walks (int i) s = λ n k st e. scalar_walks (int i) n k st refl e
    walks (bool i) s = λ n k st e. scalar_walks (bool i) n k st refl e
    walks (real i) s = λ n k st e. scalar_walks (real i) n k st refl e
    walks (str i) s = λ n k st e. scalar_walks (str i) n k st refl e
    walks (items xs) s = items-Walks xs (walks_items xs s)
    walks (dict es) s = dict-Walks es (walks_entries es s.1)

    walks_items : (xs : Items) → IsSortedItems sort xs → WalksItems xs
    walks_items nil s = λ n k st e. let e' : n ≡ suc k = omega arith in rw e' (sym (prepend_nil _))
    walks_items (cons x xs) s = cons-Walks x xs s.0 (walks x s.0) (walks_items xs s.1)

    walks_entries : (es : Entries) → IsSortedEntries sort es → WalksEntries es
    walks_entries end s =
        λ n k st e. let e' : n ≡ suc k = omega arith in rw e' (sym (prepend_nil _))
    walks_entries (entry j x es) s = entry-Walks j x es s.0 (walks x s.0) (walks_entries es s.1)
