-- ===== src/Whitelist/Sets.antt =====
-- Sorted lists of texts as sets.
use broker_bridge.Base.{String, ◌≡◌, refl, ◌||◌, List, [], ◌∷◌, arith, text_eq, text_eq_iff}
use broker_bridge.Whitelist.{insert_text, sorted_set, has_text}

pub has_text-insert_text :
    (a x : String) (l : List String) → has_text a (insert_text x l) ≡ (text_eq x a || has_text a l)
unfolding insert_text
has_text-insert_text a x [] = refl
has_text-insert_text a x (y ∷ l) =
    ground (arith, has_text-insert_text a x l, text_eq_iff x y, text_eq_iff x a, text_eq_iff y a)

-- Sorting a list and dropping its copies leaves its elements.
pub has_text-sorted_set : (a : String) (l : List String) → has_text a (sorted_set l) ≡ has_text a l
unfolding sorted_set
has_text-sorted_set a [] = refl
has_text-sorted_set a (x ∷ l) =
    ground (arith, has_text-insert_text a x (sorted_set l), has_text-sorted_set a l)
