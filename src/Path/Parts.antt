-- ===== src/Path/Parts.antt =====
-- The parts of a cleaned path.
use luna_for_mac.Base.{
  String, Bool, true, false, List, [], ◌∷◌, ◌++◌, reverse, ◌≡◌, refl, ap, sym, ◌∙◌, arith, ◌==◌,
  if◌then◌else◌, All, All-append, ◌<>◌, split, join, Lacks, split-Lacks, split-append,
  All-Lacks-split,
}
use mathlib.Core.List.{reverse-cons, append_assoc, append-nil, reverse-reverse}
use luna_for_mac.Path.{
  slash, is_rooted, push_element, clean_elements, elements, relative, clean, non_empty, split_path,
}

-- A file name: not empty, no separator in it, and neither `.` nor `..`.
pub record IsName (e : String) : Type 0 where
  pub filled : (e == "") ≡ false
  pub here : (e == ".") ≡ false
  pub up : (e == "..") ≡ false
  pub single : Lacks slash e

pub push_element-IsName :
    (stack : List String) (e : String)
    → Lacks slash e
    → All IsName stack
    → All IsName (push_element true stack e)
unfolding push_element
push_element-IsName [] e l h = ground arith
push_element-IsName (top ∷ stack) e l h = ground arith

clean_elements-IsName :
    (stack es : List String)
    → All (Lacks slash) es
    → All IsName stack
    → All IsName (clean_elements true stack es)
unfolding clean_elements
clean_elements-IsName stack [] l h = h
clean_elements-IsName stack (e ∷ es) l h =
    clean_elements-IsName (push_element true stack e) es l.1 (push_element-IsName stack e l.0 h)

All-reverse {ℓ κ} : {A : Type ℓ} (P : A → Type κ) (xs : List A) → All P xs → All P (reverse xs)
All-reverse P [] h = h
All-reverse P (x ∷ xs) h =
    rw (reverse-cons x xs) (All-append P (reverse xs) (x ∷ []) (All-reverse P xs h.1) (h.0, tt))

elements-IsName : (p : String) → is_rooted p ≡ true → All IsName (elements p)
unfolding elements
elements-IsName p r =
    All-reverse IsName (clean_elements (is_rooted p) [] (split slash p))
      (rw r (clean_elements-IsName [] (split slash p) (All-Lacks-split slash p) tt))

-- Joined names are split into the same names.
split-join :
    (e : String) (es : List String) → All IsName (e ∷ es) → split slash (join "/" (e ∷ es)) ≡ e ∷ es
split-join e [] h = split-Lacks slash e h.0.single
split-join e (f ∷ es) h =
    split-append slash "/" e (join "/" (f ∷ es)) h.0.single refl ∙ ap (◌∷◌ e) (split-join f es h.1)

non_empty-names : (es : List String) → All IsName es → non_empty es ≡ es
unfolding non_empty
non_empty-names [] h = refl
non_empty-names (e ∷ es) h = rw (h.0.filled, non_empty-names es h.1) refl

split_rooted :
    (es : List String) → All IsName es → non_empty (split slash ("/" <> join "/" es)) ≡ es
unfolding non_empty split
split_rooted [] h = refl
split_rooted (e ∷ es) h = rw (split-join e es h) (non_empty-names (e ∷ es) h)

split_cleaned :
    (rooted : Bool) (es : List String)
    → rooted ≡ true
    → All IsName es
    → non_empty (split slash (if rooted then "/" <> join "/" es else relative es)) ≡ es
split_cleaned rooted es r h = rw r (split_rooted es h)

pub split_path-elements : (p : String) → is_rooted p ≡ true → split_path p ≡ elements p
unfolding split_path clean
split_path-elements p r = split_cleaned (is_rooted p) (elements p) r (elements-IsName p r)

-- The names are put on the stack one by one.
clean_elements-names :
    (stack es : List String) → All IsName es → clean_elements true stack es ≡ reverse es ++ stack
unfolding clean_elements push_element
clean_elements-names stack [] h = refl
clean_elements-names stack (e ∷ es) h =
    rw (h.0.filled, h.0.here, h.0.up, clean_elements-names (e ∷ stack) es h.1, reverse-cons e es)
      (sym (append_assoc (reverse es) (e ∷ []) stack))

elements_rooted : (es : List String) → All IsName es → elements ("/" <> join "/" es) ≡ es
unfolding elements clean_elements push_element split
elements_rooted [] h = refl
elements_rooted (e ∷ es) h =
    rw (split-join e es h, clean_elements-names [] (e ∷ es) h, append-nil)
      (reverse-reverse (e ∷ es))

elements_cleaned :
    (rooted : Bool) (es : List String)
    → rooted ≡ true
    → All IsName es
    → elements (if rooted then "/" <> join "/" es else relative es) ≡ es
elements_cleaned rooted es r h = rw r (elements_rooted es h)

clean-is_rooted : (p : String) → is_rooted p ≡ true → is_rooted (clean p) ≡ true
unfolding clean
clean-is_rooted p r = rw r refl

elements-clean : (p : String) → is_rooted p ≡ true → elements (clean p) ≡ elements p
unfolding clean
elements-clean p r = elements_cleaned (is_rooted p) (elements p) r (elements-IsName p r)

-- A rooted path and its cleaned form have the same parts.
pub split_path-clean : (p : String) → is_rooted p ≡ true → split_path (clean p) ≡ split_path p
split_path-clean p r =
    split_path-elements (clean p) (clean-is_rooted p r)
    ∙ elements-clean p r
    ∙ sym (split_path-elements p r)

-- The parts of a rooted path are names: no empty part, no `.`, no `..` and no separator is left.
pub split_path-IsName : (p : String) → is_rooted p ≡ true → All IsName (split_path p)
split_path-IsName p r = rw (split_path-elements p r) (elements-IsName p r)
