-- ===== src/Workspace/Diff/Paths.antt =====
-- diff.rs: the paths that are compared, each once and in order.
use llmdevsilo.Prelude.{
  ◌≡◌, refl, ap, ◌∙◌, Bool, true, false, ◌||◌, List, [], ◌∷◌, ◌++◌, is_some, ◌==◌, nat_eq, list_eq,
  list_beq_iff, Text, any, All, All-mono, arith, if_elim,
}
use llmdevsilo.Workspace.Diff.{TreeMap, text_lt, insert_path, path_set, keys, lookup}

text_lt_trans : (x y z : Text) → text_lt x y ≡ true → text_lt y z ≡ true → text_lt x z ≡ true
unfolding text_lt
text_lt_trans [] [] z h k = ground arith
text_lt_trans [] (b ∷ y) [] h k = ground arith
text_lt_trans [] (b ∷ y) (c ∷ z) h k = refl
text_lt_trans (a ∷ x) [] z h k = ground arith
text_lt_trans (a ∷ x) (b ∷ y) [] h k = ground arith
text_lt_trans (a ∷ x) (b ∷ y) (c ∷ z) h k = ground (arith, text_lt_trans x y z)

-- Of two different texts one is smaller.
text_lt-total : (x y : Text) → (x == y) ≡ false → text_lt x y ≡ false → text_lt y x ≡ true
unfolding text_lt
text_lt-total [] [] h k = ground arith
text_lt-total [] (b ∷ y) h k = ground arith
text_lt-total (a ∷ x) [] h k = refl
text_lt-total (a ∷ x) (b ∷ y) h k = ground (arith, text_lt-total x y)

abbrev pub Ascending : List Text → Type 0
Ascending [] = Unit
Ascending (p ∷ ps) = All (λ q. text_lt p q ≡ true) ps × Ascending ps

All-insert_path :
    (P : Text → Type 0) (p : Text) (qs : List Text) → P p → All P qs → All P (insert_path p qs)
unfolding insert_path
All-insert_path P p [] h hs = (h, tt)
All-insert_path P p (q ∷ qs) h hs =
    if_elim (All P) (p == q) (λ _. hs)
      (λ _.
        if_elim (All P) (text_lt p q) (λ _. (h, hs)) (λ _. (hs.0, All-insert_path P p qs h hs.1)))

insert_path-Ascending : (p : Text) (qs : List Text) → Ascending qs → Ascending (insert_path p qs)
unfolding insert_path
insert_path-Ascending p [] h = (tt, tt)
insert_path-Ascending p (q ∷ qs) h =
    if_elim Ascending (p == q) (λ _. h)
      (λ ne.
        if_elim Ascending (text_lt p q)
          (λ lt. ((lt, All-mono _ _ (λ r lt'. text_lt_trans p q r lt lt') qs h.0), h))
          (λ ge. (
            All-insert_path (λ r. text_lt q r ≡ true) p qs (text_lt-total p q ne ge) h.0,
            insert_path-Ascending p qs h.1,
          )))

pub path_set-Ascending : (ps : List Text) → Ascending (path_set ps)
unfolding path_set
path_set-Ascending [] = tt
path_set-Ascending (p ∷ ps) = insert_path-Ascending p (path_set ps) (path_set-Ascending ps)

abbrev pub has : Text → List Text → Bool
has p qs = any (λ q. q == p) qs

has-insert_path : (p q : Text) (qs : List Text) → has p (insert_path q qs) ≡ (q == p) || has p qs
unfolding insert_path
has-insert_path p q [] = refl
has-insert_path p q (r ∷ rs) = ground (arith, (list_beq_iff q r).0, has-insert_path p q rs)

pub has-path_set : (p : Text) (ps : List Text) → has p (path_set ps) ≡ has p ps
unfolding path_set
has-path_set p [] = refl
has-path_set p (q ∷ qs) =
    has-insert_path p q (path_set qs) ∙ ap (λ b. (q == p) || b) (has-path_set p qs)

has-append : (p : Text) (xs ys : List Text) → has p (xs ++ ys) ≡ has p xs || has p ys
has-append p [] ys = refl
has-append p (x ∷ xs) ys = ground (arith, has-append p xs ys)

has-keys : (p : Text) (tree : TreeMap) → has p (keys tree) ≡ is_some (lookup p tree)
has-keys p [] = refl
has-keys p (entry ∷ tree) = ground (arith, has-keys p tree)

-- The paths that are compared are those with an entry on either side.
pub has-all_paths :
    (p : Text) (locked current : TreeMap)
    → has p (path_set (keys locked ++ keys current))
      ≡ is_some (lookup p locked) || is_some (lookup p current)
has-all_paths p locked current =
    has-path_set p (keys locked ++ keys current)
    ∙ has-append p (keys locked) (keys current)
    ∙ ground (arith, has-keys p locked, has-keys p current)
