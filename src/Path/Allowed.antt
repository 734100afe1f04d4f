-- ===== src/Path/Allowed.antt =====
-- Which paths lie inside which, and which a container may mount over.
use luna_for_mac.Base.{
  String, Bool, true, false, not, List, [], ◌∷◌, ◌++◌, ◌≡◌, ◌↔◌, refl, ap, ◌∙◌, arith,
  if◌then◌else◌, eq_iff, eq_refl, length, ltb, contains,
}
use luna_for_mac.Path.{
  is_rooted, clean, split_path, same_parts, is_inside_path, inside_any, is_path_allowed,
  container_path_disallow_list,
}
use luna_for_mac.Path.Parts.{split_path-clean}
use luna_for_mac.Path.Reached.{reached, split_path-reached}

same_parts-append : (ys rest : List String) → same_parts (ys ++ rest) ys ≡ true
unfolding same_parts
same_parts-append [] [] = refl
same_parts-append [] (r ∷ rest) = refl
same_parts-append (y ∷ ys) rest = rw (eq_refl y) (same_parts-append ys rest)

same_parts-eq :
    (xs ys : List String) → same_parts xs ys ≡ true → (rest : List String) × (xs ≡ ys ++ rest)
unfolding same_parts
same_parts-eq [] [] h = ([], refl)
same_parts-eq (x ∷ xs) [] h = (x ∷ xs, refl)
same_parts-eq [] (y ∷ ys) h = cc
same_parts-eq (x ∷ xs) (y ∷ ys) h =
    let same : x ≡ y = ground (arith, eq_iff x y) in
    let (rest, e) = same_parts-eq xs ys (ground arith) in (rest, cc)

length-append_le : (ys rest : List String) → ltb (length (ys ++ rest)) (length ys) ≡ false
length-append_le [] rest = ground arith
length-append_le (y ∷ ys) rest = ground (arith, length-append_le ys rest)

inside_iff :
    (xs ys : List String)
    → ((if ltb (length xs) (length ys) then false else same_parts xs ys) ≡ true)
      ↔ ((rest : List String) × (xs ≡ ys ++ rest))
inside_iff xs ys = (
  λ h. same_parts-eq xs ys (ground arith),
  λ (rest, e). rw (e, length-append_le ys rest) (same_parts-append ys rest),
)

-- A path is found inside another exactly when its parts are those of the other, followed by some
-- parts of its own.
pub is_inside_path_iff :
    (p q : String)
    → (is_inside_path p q ≡ true) ↔ ((rest : List String) × (split_path p ≡ split_path q ++ rest))
unfolding is_inside_path
is_inside_path_iff p q = inside_iff (split_path p) (split_path q)

-- The top-level directories that no mount may reach.
abbrev pub protected : List String
protected = "etc" ∷ "usr" ∷ "bin" ∷ "sbin" ∷ "Library" ∷ []

abbrev pub starts_in : List String → List String → Bool
starts_in names [] = false
starts_in names (e ∷ es) = contains names e

inside_top :
    (xs : List String) (name : String)
    → (if ltb (length xs) 1 then false else same_parts xs (name ∷ [])) ≡ starts_in (name ∷ []) xs
unfolding same_parts
inside_top [] name = refl
inside_top (x ∷ []) name = ground (arith, eq_iff x name, eq_iff name x)
inside_top (x ∷ y ∷ xs) name = ground (arith, eq_iff x name, eq_iff name x)

is_inside_path_top :
    (p dir name : String)
    → split_path dir ≡ name ∷ []
    → is_inside_path p dir ≡ starts_in (name ∷ []) (split_path p)
unfolding is_inside_path
is_inside_path_top p dir name e = rw e (inside_top (split_path p) name)

starts_in-any :
    (xs : List String)
    → (if starts_in ("etc" ∷ []) xs
        then true
        else if starts_in ("usr" ∷ []) xs
        then true
        else if starts_in ("bin" ∷ []) xs
        then true
        else if starts_in ("sbin" ∷ []) xs
        then true
        else if starts_in ("Library" ∷ []) xs
        then true
        else false)
      ≡ starts_in protected xs
starts_in-any [] = refl
starts_in-any (x ∷ xs) = ground arith

inside_any-disallowed :
    (p : String) → inside_any p container_path_disallow_list ≡ starts_in protected (split_path p)
unfolding inside_any
inside_any-disallowed p =
    rw
      (
        is_inside_path_top p "/etc" "etc" (unfold split_path in refl),
        is_inside_path_top p "/usr" "usr" (unfold split_path in refl),
        is_inside_path_top p "/bin" "bin" (unfold split_path in refl),
        is_inside_path_top p "/sbin" "sbin" (unfold split_path in refl),
        is_inside_path_top p "/Library" "Library" (unfold split_path in refl),
      )
      (starts_in-any (split_path p))

is_path_allowed-split_path :
    (p : String) → is_path_allowed p ≡ not (starts_in protected (split_path p))
unfolding is_path_allowed
is_path_allowed-split_path p = ground (arith, inside_any-disallowed p)

-- A container may mount over a rooted path exactly when what the path leads to, followed from the
-- root element by element, with `..` to the parent, is the root itself or lies in or at a top-level
-- entry that is none of the protected directories.
pub is_path_allowed_lem :
    (p : String) → is_rooted p ≡ true → is_path_allowed p ≡ not (starts_in protected (reached p))
is_path_allowed_lem p r =
    is_path_allowed-split_path p ∙ ap (λ es. not (starts_in protected es)) (split_path-reached p r)

-- A rooted path and its cleaned form are both allowed or both refused.
pub is_path_allowed-clean :
    (p : String) → is_rooted p ≡ true → is_path_allowed (clean p) ≡ is_path_allowed p
is_path_allowed-clean p r =
    rw (is_path_allowed-split_path (clean p), is_path_allowed-split_path p, split_path-clean p r)
      refl
