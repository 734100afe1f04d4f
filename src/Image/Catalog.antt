-- ===== src/Image/Catalog.antt =====
-- The abstract view of the image service: under each key a set of tags and a set of digests, without
-- an order and without a representation.
pub mod Refines
use luna_for_mac.Base.{
  String, Bool, true, false, not, ◌≡◌, ◌⊎◌, ◌&&◌, ◌||◌, ◌==◌, if◌then◌else◌, Option, none, some,
  List, [], ◌∷◌, Distinct, contains,
}
use luna_for_mac.Base.Result.{ok}
use luna_for_mac.Disk.{Diskv}
use luna_for_mac.Image.{Image, get_image_name_tag_and_digest}
use luna_for_mac.Image.Stored.{get_image}
use luna_for_mac.Image.Handlers.{Auth, pull_image, remove_image}

abbrev pub Set : Type 0
Set = String → Bool

abbrev pub nothing : Set
nothing a = false

-- An empty name is no element.
abbrev pub with_one : String → Set → Set
with_one item set a = set a || (not (item == "") && (item == a))

abbrev pub without_one : String → Set → Set
without_one item set a = set a && not (item == a)

abbrev pub IsOnlyOne : String → Set → Type 0
IsOnlyOne item set = (a : String) → set a ≡ (item == a)

-- The tags and the digests of one key.
abbrev pub Entry : Type 0
Entry = Set × Set

abbrev pub Catalog : Type 0
Catalog = String → Option Entry

abbrev pub entry_pulled : String → String → Option Entry → Entry
entry_pulled tag digest none = (with_one tag nothing, with_one digest nothing)
entry_pulled tag digest (some e) = (with_one tag e.0, with_one digest e.1)

abbrev pub HasLast : String → String → Entry → Type 0
HasLast tag digest e = IsOnlyOne tag e.0 ⊎ IsOnlyOne digest e.1

-- An entry goes with its last tag or with its last digest.
abbrev pub IsRemoved : String → String → Option Entry → Option Entry → Type 0
IsRemoved tag digest none none = Unit
IsRemoved tag digest none (some f) = ⊥
IsRemoved tag digest (some e) none = HasLast tag digest e
IsRemoved tag digest (some e) (some f) =
    (HasLast tag digest e → ⊥) × (f ≡ (without_one tag e.0, without_one digest e.1))

-- The calls that change the store, with the request's name.
pub data Call : Type 0 where
  pull remove : String → Call

-- What a pull and a removal of a name are to do. `names` gives a name's key, tag and digest.
module _ (names : String → String × String × String) where
  pub data CatalogStep (c : Catalog) : Call → Catalog → Type 0 where
    pulls :
        (name : String) (d : Catalog)
        → ((k : String)
            → let (key, tag, digest) = names name in
              d k ≡ (if key == k then some (entry_pulled tag digest (c key)) else c k))
        → CatalogStep c (pull name) d
    removes :
        (name : String) (d : Catalog)
        → (let (key, tag, digest) = names name in IsRemoved tag digest (c key) (d key))
        → ((k : String) → ((names name).0 == k) ≡ false → d k ≡ c k)
        → CatalogStep c (remove name) d

  -- The last call stands first.
  pub data CatalogReach (c : Catalog) : List Call → Catalog → Type 0 where
    same : CatalogReach c [] c
    also :
        {calls : List Call} {call : Call} {d e : Catalog}
        → CatalogReach c calls d
        → CatalogStep d call e
        → CatalogReach c (call ∷ calls) e

-- A slice that stands for a set.
pub record Shows (slice : List String) (set : Set) : Type 0 where
  pub distinct : Distinct slice
  pub filled : contains slice "" ≡ false
  pub elements : (a : String) → contains slice a ≡ set a

abbrev pub ShowsEntry : Option Image → Option Entry → Type 0
ShowsEntry none none = Unit
ShowsEntry none (some e) = ⊥
ShowsEntry (some i) none = ⊥
ShowsEntry (some i) (some e) = Shows i.tags e.0 × Shows i.digests e.1

module _ (D : Diskv) (hash : String → String) where
  abbrev pub ShowsCatalog : D.State → Catalog → Type 0
  ShowsCatalog s c = (k : String) → ShowsEntry (get_image D s k) (c k)

  -- A pull that succeeds, and a removal.
  pub data ImageStep (s : D.State) : Call → D.State → Type 0 where
    pulls_image :
        (name key : String) (auth : Option Auth) (t : D.State)
        → pull_image D hash s (some name) auth ≡ (ok key, t)
        → ImageStep s (pull name) t
    removes_image :
        (name : String) → ImageStep s (remove name) (remove_image D hash s (some name)).1

  pub data ImageReach (s : D.State) : List Call → D.State → Type 0 where
    here : ImageReach s [] s
    next :
        {calls : List Call} {call : Call} {t u : D.State}
        → ImageReach s calls t
        → ImageStep t call u
        → ImageReach s (call ∷ calls) u
