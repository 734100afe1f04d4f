-- ===== src/Path.antt =====
-- Paths: what procri/pkg/runtimeservice/util.go and `isPathAllowed` of container.go do, over Go's
-- filepath.Clean and filepath.Join for Unix.
pub mod Parts
pub mod Reached
pub mod Allowed
mod Tests
use luna_for_mac.Base.{
  ℕ, String, Bool, true, false, List, [], ◌∷◌, reverse, ◌||◌, ◌==◌, if◌then◌else◌, ltb, length,
  ◌<>◌, has_prefix, split, join,
}

abbrev pub slash : ℕ
slash = b'/'

-- filepath.IsAbs
abbrev pub is_rooted : String → Bool
is_rooted p = has_prefix p "/"

-- `..` on the stack of elements kept so far, the last one first.
abbrev pop_element : Bool → List String → List String
pop_element rooted [] = if rooted then [] else ".." ∷ []
pop_element rooted (top ∷ stack) = if top == ".." then ".." ∷ top ∷ stack else stack

pub push_element : Bool → List String → String → List String
push_element rooted stack e =
    if e == "" || e == "." then stack else if e == ".." then pop_element rooted stack else e ∷ stack

clean_elements : Bool → List String → List String → List String
unfolding push_element
clean_elements rooted stack [] = stack
clean_elements rooted stack (e ∷ es) = clean_elements rooted (push_element rooted stack e) es

-- The elements that filepath.Clean keeps.
pub elements : String → List String
unfolding clean_elements split
elements p = reverse (clean_elements (is_rooted p) [] (split slash p))

abbrev relative : List String → String
relative [] = "."
relative (e ∷ es) = join "/" (e ∷ es)

-- filepath.Clean
unfoldable pub clean : String → String
unfolding elements
clean p = if is_rooted p then "/" <> join "/" (elements p) else relative (elements p)

-- filepath.Join of two elements that are not empty
unfoldable pub join_path : String → String → String
unfolding clean
join_path a b = clean (a <> ("/" <> b))

-- filepath.Join of two elements: an empty one is left out.
unfoldable pub join_path_elements : String → String → String
unfolding join_path
join_path_elements a b =
    if a == ""
    then (if b == "" then "" else clean b)
    else if b == ""
    then clean a
    else join_path a b

non_empty : List String → List String
non_empty [] = []
non_empty (e ∷ es) = let rest = non_empty es in if e == "" then rest else e ∷ rest

unfoldable pub split_path : String → List String
unfolding clean non_empty split
split_path p = non_empty (split slash (clean p))

-- The loop of `isInsidePath`. Its caller's length test keeps the index in range, so the loop never
-- meets an end of the first list that is not one of the second.
same_parts : List String → List String → Bool
same_parts p1 [] = true
same_parts [] (b ∷ p2) = false
same_parts (a ∷ p1) (b ∷ p2) = if a == b then same_parts p1 p2 else false

unfoldable pub is_inside_path : String → String → Bool
unfolding split_path same_parts
is_inside_path p1 p2 =
    let parts1 = split_path p1 in
    let parts2 = split_path p2 in
    if ltb (length parts1) (length parts2) then false else same_parts parts1 parts2

abbrev container_path_allow_list : List String
container_path_allow_list = []

abbrev container_path_disallow_list : List String
container_path_disallow_list = "/etc" ∷ "/usr" ∷ "/bin" ∷ "/sbin" ∷ "/Library" ∷ []

inside_any : String → List String → Bool
unfolding is_inside_path
inside_any p [] = false
inside_any p (q ∷ qs) = if is_inside_path p q then true else inside_any p qs

unfoldable pub is_path_allowed : String → Bool
unfolding inside_any
is_path_allowed p =
    if inside_any p container_path_allow_list
    then true
    else if inside_any p container_path_disallow_list
    then false
    else true
