-- ===== src/Image/Listed.antt =====
-- What ListImages of procri/pkg/imageservice/imageservice.go finds.
use mathlib.Core.Option.{some-injective}
use luna_for_mac.Base.{
  eq_refl, String, Bool, true, false, ◌≡◌, ◌↔◌, refl, sym, ap, ◌∙◌, Option, none, some, List, [],
  ◌∷◌, ◌==◌, if◌then◌else◌, arith, In, All, Lacks, contains, split-Lacks, Bool-cases, Option-cases,
  inl, inr, eq_iff,
}
use luna_for_mac.Base.Result.{ok}
use luna_for_mac.Json.Laws.{>>=-eq-some}
use luna_for_mac.Disk.{Diskv, IsLawful, IsListing, base_name, last_or}
use luna_for_mac.Image.{Image, get_image_name_tag_and_digest}
use luna_for_mac.Image.Stored.{get_image, images_at, list_images}
use luna_for_mac.Image.Handlers.{
  Auth, CriImage, listed, passes, select, list_images_handler, pull_image, pulled, image_status,
  known,
}
use luna_for_mac.Image.Handlers
use luna_for_mac.Image.Pull.{get_image-pull_image}

-- An image that stands under a key without a slash.
abbrev pub IsFound : (D : Diskv) → D.State → Image → Type 0
IsFound D s i = (key : String) × Lacks b'/' key × (get_image D s key ≡ some i)

-- The image has the name that the filter asks for, if it asks for one.
abbrev pub IsWanted : Option String → Image → Type 0
IsWanted none i = Unit
IsWanted (some name) i = i.image ≡ name

passes_iff : (filter : Option String) (i : Image) → (passes filter i ≡ true) ↔ IsWanted filter i
passes_iff none i = (λ h. tt, λ h. refl)
passes_iff (some name) i =
    (λ h. sym ((eq_iff name i.image).0 h), λ h. (eq_iff name i.image).1 (sym h))

module _ (D : Diskv) where
  images_at-In :
      (s : D.State) (key : String) (i : Image) (keys : List String)
      → get_image D s key ≡ some i
      → contains keys key ≡ true
      → In i (images_at D s keys)
  unfolding images_at
  images_at-In s key i [] e h = cc
  images_at-In s key i (k ∷ keys) e h = elim (Bool-cases (k == key)) [
    | inl same ↦ rw (ap (get_image D s) ((eq_iff k key).0 same) ∙ e, In) (inl refl)
    | inr other ↦
        let later = images_at-In s key i keys e (ground arith) in
        elim (Option-cases (get_image D s k)) [
          | inl f ↦ rw (f, In) later
          | inr (j, f) ↦ rw (f, In) (inr later)
        ]
  ]

  images_at-IsFound :
      (s : D.State) (i : Image) (keys : List String)
      → All (Lacks b'/') keys
      → In i (images_at D s keys)
      → IsFound D s i
  unfolding images_at
  images_at-IsFound s i [] p h = elim h [ ]
  images_at-IsFound s i (k ∷ keys) p h =
      first (get_image D s k) refl (images_at-IsFound s i keys p.1) h
    where
      first :
          (o : Option Image)
          → get_image D s k ≡ o
          → (In i (images_at D s keys) → IsFound D s i)
          → In i (elim o [ none ↦ images_at D s keys | some j ↦ j ∷ images_at D s keys ])
          → IsFound D s i
      first none e found later = found later
      first (some j) e found (inl same) = (k, p.0, e ∙ ap some (sym same))
      first (some j) e found (inr later) = found later

base_name-same : (k : String) → Lacks b'/' k → base_name k ≡ k
unfolding base_name last_or
base_name-same k p = rw (split-Lacks b'/' k p) refl

select-In :
    (filter : Option String) (i : Image) (is : List Image)
    → In i is
    → passes filter i ≡ true
    → In (listed i) (select filter is)
unfolding select
select-In filter i [] h e = h
select-In filter i (j ∷ is) (inl same) e = rw (← same, e) (inl refl)
select-In filter i (j ∷ is) (inr h) e = elim (Bool-cases (passes filter j)) [
  | inl f ↦ rw f (inr (select-In filter i is h e))
  | inr f ↦ rw f (select-In filter i is h e)
]

-- What an element of the answer stands for.
abbrev pub IsAnswered : Option String → List Image → CriImage → Type 0
IsAnswered filter is c = (i : Image) × In i is × (passes filter i ≡ true) × (c ≡ listed i)

select-found :
    (filter : Option String) (c : CriImage) (is : List Image)
    → In c (select filter is)
    → IsAnswered filter is c
unfolding select
select-found filter c [] h = elim h [ ]
select-found filter c (j ∷ is) h = first (passes filter j) refl (select-found filter c is) h
  where
    first :
        (b : Bool)
        → passes filter j ≡ b
        → (In c (select filter is) → IsAnswered filter is c)
        → In c (if b then listed j ∷ select filter is else select filter is)
        → IsAnswered filter (j ∷ is) c
    first true e found (inl same) = (j, inl refl, e, same)
    first true e found (inr later) =
        let (i, in_list, fine, same) = found later in (i, inr in_list, fine, same)
    first false e found later =
        let (i, in_list, fine, same) = found later in (i, inr in_list, fine, same)

module _ (D : Diskv) (hash : String → String) (N : IsListing D) where
  list_images-In :
      (s : D.State) (key : String) (i : Image)
      → Lacks b'/' key
      → get_image D s key ≡ some i
      → In i (list_images D s)
  unfolding list_images get_image
  list_images-In s key i p e =
      let (j, read, _) = >>=-eq-some (D.read s key) _ e in
      images_at-In D s key i (D.keys s) e
        (ap (contains (D.keys s)) (sym (base_name-same key p)) ∙ N.lists s key j read)

  list_images-IsFound : (s : D.State) (i : Image) → In i (list_images D s) → IsFound D s i
  unfolding list_images
  list_images-IsFound s i h = images_at-IsFound D s i (D.keys s) (N.plain s) h

  list_images_handler-passes :
      (s : D.State) (filter : Option String) (c : CriImage)
      → In c (list_images_handler D hash s filter)
        ↔ ((i : Image) × IsFound D s i × (passes filter i ≡ true) × (c ≡ listed i))
  unfolding list_images_handler
  list_images_handler-passes s filter c = (
    λ h.
        let (i, in_list, fine, same) = select-found filter c (list_images D s) h in
        (i, list_images-IsFound s i in_list, fine, same),
    λ (i, (key, p, e), fine, same).
        rw same (select-In filter i (list_images D s) (list_images-In s key i p e) fine),
  )

  -- ListImages answers with exactly the images that are stored under some key without a slash and
  -- that the filter asks for: all of them without a name in the filter, and otherwise those whose
  -- stored name is the filter's. Each is given by its stored name, its tags and its digests, with
  -- size 0, user 0 and no user name. Keys gives the names of the stored files, as documented.
  pub list_images_handler_iff :
      (s : D.State) (filter : Option String) (c : CriImage)
      → In c (list_images_handler D hash s filter) ↔ (
          (i : Image) × IsFound D s i
          × IsWanted filter i
          × (c ≡ record {
            id = i.image;
            repo_tags = i.tags;
            repo_digests = i.digests;
            size = 0;
            uid = 0;
            username = "";
          }))
  list_images_handler_iff s filter c = (
    λ h.
        let (i, found, fine, same) = (list_images_handler-passes s filter c).0 h in
        (i, found, (passes_iff filter i).0 fine, same),
    λ (i, found, wanted, same).
        (list_images_handler-passes s filter c).1 (i, found, (passes_iff filter i).1 wanted, same),
  )

no_members : {A : Type 0} → (xs : List A) → ((x : A) → In x xs → ⊥) → xs ≡ []
no_members [] h = refl
no_members (x ∷ xs) h = absurd (h x (inl refl))

module _ (D : Diskv) (hash : String → String) (L : IsLawful D) (N : IsListing D) where
  -- A name is pulled whose key has an image already, and no stored image has that name. ImageStatus
  -- then knows the name, and ListImages with the name as its filter lists nothing, since the image
  -- keeps the name by which it was first pulled. The pull succeeds, Keys gives the names of the
  -- stored files, as documented, and the disk is lawful.
  pub list_images_misses :
      (s t : D.State) (name key : String) (auth : Option Auth) (i : Image)
      → pull_image D hash s (some name) auth ≡ (ok key, t)
      → get_image D s (get_image_name_tag_and_digest hash name).0 ≡ some i
      → ((j : Image) (k : String) → get_image D s k ≡ some j → (name == j.image) ≡ false)
      → ((j : Image) × (image_status D hash t (some name) ≡ some (known name j)))
        × (list_images_handler D hash t (some name) ≡ [])
  unfolding image_status pulled
  list_images_misses s t name key auth i pulls found unnamed =
      let (own, tag, digest) = get_image_name_tag_and_digest hash name in
      let (_, at) = get_image-pull_image D hash L s t name key auth pulls in
      let p : Image = pulled name tag digest auth (get_image D s own) in
      let after : Image = pulled name tag digest auth (some i) in
      let stored : get_image D t own ≡ some after =
        at own ∙ rw (eq_refl own) (ap (λ o. some (pulled name tag digest auth o)) found) in
      (
        (after, ap (Handlers.status_of name) stored),
        no_members (list_images_handler D hash t (some name)) (λ c h.
            let (j, (k, _, e), fine, _) =
              (list_images_handler-passes D hash N t (some name) c).0 h in
            elim (Bool-cases (own == k)) [
              | inl same ↦
                  let new : some j ≡ some after =
                    sym e ∙ ap (get_image D t) (sym ((eq_iff own k).0 same)) ∙ stored in
                  cc (
                    fine,
                    ap (λ (x : Image). name == x.image) (some-injective _ _ new),
                    unnamed i own found,
                  )
              | inr other ↦
                  let old : get_image D s k ≡ some j =
                    sym (at k ∙ ap (λ b. if b then some p else get_image D s k) other) ∙ e in
                  cc (fine, unnamed j k old)
            ]),
      )
