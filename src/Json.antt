-- ===== src/Json.antt =====
-- JSON documents, and how encoding/json stores the values of Go struct fields in them. The files of
-- the data store hold the text of such documents. The text layer is not modelled.
pub mod Laws
use luna_for_mac.Base.{
  String, Bool, true, false, ◌≡◌, Option, none, some, List, [], ◌∷◌, ◌==◌, if◌then◌else◌, ◌>>=◌,
  ◌||◌,
}
use luna_for_mac.Base.Int.{ℤ, pos}

-- `other` is a boolean or a fraction, which no field read here takes, or a file that is no JSON.
mutual
  pub data Json : Type 0 where
    null : Json
    num : ℤ → Json
    str : String → Json
    arr : Items → Json
    obj : Fields → Json
    other : Json

  pub data Items : Type 0 where
    nil : Items
    cons : Json → Items → Items

  pub data Fields : Type 0 where
    end : Fields
    field : String → Json → Fields → Fields

-- A Go `map[string]string`: no key stands twice, and the order means nothing.
abbrev pub TextMap : Type 0
TextMap = List (String × String)

abbrev pub has_key : String → TextMap → Bool
has_key k [] = false
has_key k ((j, v) ∷ m) = j == k || has_key k m

abbrev pub DistinctKeys : TextMap → Type 0
DistinctKeys [] = Unit
DistinctKeys ((k, v) ∷ m) = (has_key k m ≡ false) × DistinctKeys m

-- Marshal of a slice of strings. A nil slice is not told from an empty one.
unfoldable pub of_texts : List String → Items
of_texts [] = nil
of_texts (s ∷ ss) = cons (str s) (of_texts ss)

-- Marshal of a map.
unfoldable pub of_map : TextMap → Fields
of_map [] = end
of_map ((k, v) ∷ m) = field k (str v) (of_map m)

-- Unmarshal of one value. `null` leaves the zero value of the field.
abbrev pub to_text : Json → Option String
to_text null = some ""
to_text (str s) = some s
to_text _ = none

unfoldable pub to_texts_items : Items → Option (List String)
to_texts_items nil = some []
to_texts_items (cons j js) = to_text j >>= λ s. to_texts_items js >>= λ ss. some (s ∷ ss)

abbrev pub to_texts : Json → Option (List String)
to_texts null = some []
to_texts (arr js) = to_texts_items js
to_texts _ = none

-- A key that stands twice keeps its last value.
unfoldable pub to_map_fields : Fields → Option TextMap
to_map_fields end = some []
to_map_fields (field k j fs) =
    to_text j >>= λ v. to_map_fields fs >>= λ m. some (if has_key k m then m else (k, v) ∷ m)

abbrev pub to_map : Json → Option TextMap
to_map null = some []
to_map (obj fs) = to_map_fields fs
to_map _ = none

-- A number is refused if it does not fit the field's type.
abbrev pub to_int : (ℤ → Bool) → Json → Option ℤ
to_int fits null = some (pos 0)
to_int fits (num z) = if fits z then some z else none
to_int fits _ = none

-- The value that stands last under a name.
unfoldable pub find_field : String → Fields → Option Json
find_field k end = none
find_field k (field j v fs) = elim (find_field k fs) [
  | none ↦ if j == k then some v else none
  | some w ↦ some w
]

-- A struct field that the document lacks keeps its zero value.
abbrev pub read_field {ℓ} : {A : Type ℓ} → (Json → Option A) → String → Fields → Option A
read_field {A = A} convert k fs = elim (find_field k fs) [
  | none ↦ convert null
  | some v ↦ convert v
]
