-- ===== src/Runtime/Create/Paths.antt =====
-- filepath.Dir, as container.go calls it.
use luna_for_mac.Base.{String, if◌then◌else◌, contains_text}
use luna_for_mac.Path.{clean}

-- The text up to its last slash, that one included.
up_to_slash : String → String
up_to_slash String.[] = ""
up_to_slash (String.◌∷◌ c s) =
    let rest = up_to_slash s in if contains_text (String.◌∷◌ c s) "/" then String.◌∷◌ c rest else ""

-- filepath.Dir
unfoldable pub dir : String → String
unfolding up_to_slash
dir p = clean (up_to_slash p)
