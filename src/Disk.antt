-- ===== src/Disk.antt =====
-- The data store, github.com/peterbourgon/diskv, which is not part of the repository: its four
-- operations that the source calls, over an unknown state, and the documented behaviour.
pub mod Memory
use luna_for_mac.Base.{
  refl, [], ◌∷◌, All, All-Lacks-split, Lacks, contains, split, split-append, split-Lacks, ◌<>◌,
  true, String, Bool, ◌≡◌, ◌==◌, Option, none, some, List, if◌then◌else◌,
}
use luna_for_mac.Json.{Json}

-- `none` is an error; an operation that fails leaves the files alone.
pub record Diskv : Type 1 where
  pub State : Type 0
  pub read : State → String → Option Json
  pub write : State → String → Json → Option State
  pub erase : State → String → Option State
  pub keys : State → List String

unfoldable pub last_or : String → List String → String
last_or d [] = d
last_or d (x ∷ xs) = last_or x xs

-- The file's name without its directories, which is what Keys gives.
unfoldable pub base_name : String → String
unfolding last_or split
base_name k = last_or "" (split b'/' k)

last_or-Lacks :
    (d : String) (xs : List String) → Lacks b'/' d → All (Lacks b'/') xs → Lacks b'/' (last_or d xs)
unfolding last_or
last_or-Lacks d [] p h = p
last_or-Lacks d (x ∷ xs) p h = last_or-Lacks x xs h.0 h.1

pub base_name-plain : (k : String) → Lacks b'/' (base_name k)
unfolding base_name
base_name-plain k = last_or-Lacks "" (split b'/' k) tt (All-Lacks-split b'/' k)

-- A file in a directory.
pub base_name-in :
    (dir name : String) → Lacks b'/' dir → Lacks b'/' name → base_name (dir <> ("/" <> name)) ≡ name
unfolding base_name last_or
base_name-in dir name p q = rw (split-append b'/' "/" dir name p refl, split-Lacks b'/' name q) refl

module _ (D : Diskv) where
  -- What Write and Erase do where they succeed.
  pub record IsLawful : Type 0 where
    pub read-write :
        (s t : D.State) (k j : String) (v : Json)
        → D.write s k v ≡ some t
        → D.read t j ≡ (if k == j then some v else D.read s j)
    pub read-erase :
        (s t : D.State) (k j : String)
        → D.erase s k ≡ some t
        → D.read t j ≡ (if k == j then none else D.read s j)

  -- The disk does its work: a write succeeds, and so does erasing a file that is there.
  pub record IsReliable : Type 0 where
    pub write_ok : (s : D.State) (k : String) (v : Json) → (t : D.State) × (D.write s k v ≡ some t)
    pub erase_ok :
        (s : D.State) (k : String) (v : Json)
        → D.read s k ≡ some v
        → (t : D.State) × (D.erase s k ≡ some t)

  -- What the source relies on of Keys: it gives the names of the stored files, without directories.
  pub record IsListing : Type 0 where
    pub lists :
        (s : D.State) (k : String) (j : Json)
        → D.read s k ≡ some j
        → contains (D.keys s) (base_name k) ≡ true
    pub plain : (s : D.State) → All (Lacks b'/') (D.keys s)

  -- The callers log a failed write or erase and go on.
  abbrev pub or_same : D.State → Option D.State → D.State
  or_same s none = s
  or_same s (some t) = t
