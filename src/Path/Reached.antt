-- ===== src/Path/Reached.antt =====
-- Where a rooted path leads, followed from the root element by element.
use luna_for_mac.Base.{
  String, true, List, [], ◌∷◌, ◌++◌, reverse, ◌≡◌, refl, sym, ap, ◌∙◌, ◌==◌, if◌then◌else◌, All,
  Bool-cases, inl, inr, split, Lacks, All-Lacks-split,
}
use mathlib.Core.List.{reverse-cons}
use luna_for_mac.Path.{
  slash, is_rooted, pop_element, push_element, clean_elements, elements, split_path,
}
use luna_for_mac.Path.Parts.{IsName, push_element-IsName, split_path-elements}

unfoldable without_last : List String → List String
without_last [] = []
without_last (e ∷ []) = []
without_last (e ∷ f ∷ es) = e ∷ without_last (f ∷ es)

-- From a directory, given by the names from the root down to it, to the parent at `..`, which is the
-- root's own, nowhere at `.` and where two slashes meet, and else to an entry.
unfoldable enter : List String → String → List String
unfolding without_last
enter at e =
    if e == ""
    then at
    else if e == "."
    then at
    else if e == ".."
    then without_last at
    else at ++ e ∷ []

unfoldable walk : List String → List String → List String
unfolding enter
walk at [] = at
walk at (e ∷ es) = walk (enter at e) es

-- The names from the root down to what the path leads to.
unfoldable pub reached : String → List String
unfolding walk split
reached p = walk [] (split slash p)

without_last-append : (at : List String) (e : String) → without_last (at ++ e ∷ []) ≡ at
unfolding without_last
without_last-append [] e = refl
without_last-append (d ∷ []) e = refl
without_last-append (d ∷ f ∷ at) e = ap (◌∷◌ d) (without_last-append (f ∷ at) e)

enter-reverse :
    (stack : List String) (e : String)
    → All IsName stack
    → enter (reverse stack) e ≡ reverse (push_element true stack e)
unfolding enter push_element without_last
enter-reverse stack e h = elim (Bool-cases (e == "")) [
  | inl a ↦ rw a refl
  | inr a ↦ elim (Bool-cases (e == ".")) [
    | inl b ↦ rw (a, b) refl
    | inr b ↦ elim (Bool-cases (e == "..")) [
      | inl c ↦ rw (a, b, c) (up stack h)
      | inr c ↦ rw (a, b, c) (sym (reverse-cons e stack))
    ]
  ]
]
  where
    up :
        (at : List String)
        → All IsName at
        → without_last (reverse at) ≡ reverse (pop_element true at)
    up [] n = refl
    up (top ∷ at) n = rw (n.0.up, reverse-cons top at) (without_last-append (reverse at) top)

walk-reverse :
    (stack es : List String)
    → All (Lacks slash) es
    → All IsName stack
    → walk (reverse stack) es ≡ reverse (clean_elements true stack es)
unfolding walk clean_elements
walk-reverse stack [] l h = refl
walk-reverse stack (e ∷ es) l h =
    ap (λ at. walk at es) (enter-reverse stack e h)
    ∙ walk-reverse (push_element true stack e) es l.1 (push_element-IsName stack e l.0 h)

-- The parts of a rooted path are the names on the way to what it leads to.
pub split_path-reached : (p : String) → is_rooted p ≡ true → split_path p ≡ reached p
unfolding reached elements
split_path-reached p r =
    split_path-elements p r
    ∙ ap (λ b. reverse (clean_elements b [] (split slash p))) r
    ∙ sym (walk-reverse [] (split slash p) (All-Lacks-split slash p) tt)
