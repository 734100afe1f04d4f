-- ===== src/Base/Text.antt =====
-- What the source uses of Go's packages strings and fmt, over the native texts: a text is
-- taken apart one character at a time, so that the functions compute at a literal prefix.
-- Separators are given by their code, and all of them are ASCII.
use Prim.Native.Char.{Char, code}
use Prim.Native.Nat.{ℕ}
use Prim.Native.String.{String}
use Prim.Native.String.compare
use text.Mathlib.Text.{◌==◌}
use mathlib.Core.Path.{◌≡◌, refl, ap, sym, ◌∙◌}
use mathlib.Core.Logic.{inl, inr}
use mathlib.Core.Bool.{Bool, true, false, ◌&&◌, ◌||◌}
use mathlib.Core.List.{List, [], ◌∷◌}
use native.Mathlib.Omega.{arith}
use text.Mathlib.TextEquality.{eq_iff}
use text.Mathlib.TextLemmas.{head-eq_of_cons-eq, tail-eq_of_cons-eq}
use luna_for_mac.Base.Tests.{nat_eq, if◌then◌else◌, Bool-cases}
use luna_for_mac.Base.Lists.{All}

-- `s + t`, and the `%s` of `Sprintf`.
infixl 65 ◌<>◌
abbrev pub ◌<>◌ : String → String → String
String.[] <> t = t
String.◌∷◌ c s <> t = String.◌∷◌ c (s <> t)

-- strings.HasPrefix
abbrev pub has_prefix : String → String → Bool
has_prefix s String.[] = true
has_prefix String.[] (String.◌∷◌ d p) = false
has_prefix (String.◌∷◌ c s) (String.◌∷◌ d p) = nat_eq (code c) (code d) && has_prefix s p

-- strings.Contains
abbrev pub contains_text : String → String → Bool
contains_text String.[] t = has_prefix String.[] t
contains_text (String.◌∷◌ c s) t = has_prefix (String.◌∷◌ c s) t || contains_text s t

abbrev pub cons_head : Char → List String → List String
cons_head c [] = String.◌∷◌ c "" ∷ []
cons_head c (w ∷ ws) = String.◌∷◌ c w ∷ ws

-- strings.Split with a separator of one character. The result is never empty.
unfoldable pub split : ℕ → String → List String
split sep String.[] = "" ∷ []
split sep (String.◌∷◌ c s) =
    let rest = split sep s in if nat_eq (code c) sep then "" ∷ rest else cons_head c rest

-- strings.Join with a separator.
abbrev pub join : String → List String → String
join sep [] = ""
join sep (w ∷ []) = w
join sep (w ∷ v ∷ ws) = w <> (sep <> join sep (v ∷ ws))

-- No character of the text has the code.
abbrev pub Lacks : ℕ → String → Type 0
Lacks sep String.[] = Unit
Lacks sep (String.◌∷◌ c s) = (nat_eq (code c) sep ≡ false) × Lacks sep s

pub append_assoc : (s t u : String) → s <> t <> u ≡ s <> (t <> u)
append_assoc String.[] t u = refl
append_assoc (String.◌∷◌ c s) t u = ap (String.◌∷◌ c) (append_assoc s t u)

pub append-empty : (s : String) → s <> "" ≡ s
append-empty String.[] = refl
append-empty (String.◌∷◌ c s) = ap (String.◌∷◌ c) (append-empty s)

pub append_cancel_left : (s t u : String) → s <> t ≡ s <> u → t ≡ u
append_cancel_left String.[] t u e = e
append_cancel_left (String.◌∷◌ c s) t u e = append_cancel_left s t u (tail-eq_of_cons-eq e)

-- A text without the separator is one part.
pub split-Lacks : (sep : ℕ) (s : String) → Lacks sep s → split sep s ≡ s ∷ []
unfolding split
split-Lacks sep String.[] h = refl
split-Lacks sep (String.◌∷◌ c s) h = rw (h.0, split-Lacks sep s h.1) refl

-- The part up to the first separator is split off.
cons_head-cons :
    (c : Char) (ws : List String) → (v : String) × (vs : List String) × (cons_head c ws ≡ v ∷ vs)
cons_head-cons c [] = (_, _, refl)
cons_head-cons c (w ∷ ws) = (_, _, refl)

-- A text has at least one part.
pub split-cons : (sep : ℕ) (s : String) → (w : String) × (ws : List String) × (split sep s ≡ w ∷ ws)
unfolding split
split-cons sep String.[] = (_, _, refl)
split-cons sep (String.◌∷◌ c s) = elim (Bool-cases (nat_eq (code c) sep)) [
  | inl e ↦ ("", split sep s, rw e refl)
  | inr e ↦ let (v, vs, f) = cons_head-cons c (split sep s) in (v, vs, rw e f)
]

pub split-append :
    (sep : ℕ) (c : Char) (s t : String)
    → Lacks sep s
    → nat_eq (code c) sep ≡ true
    → split sep (s <> String.◌∷◌ c t) ≡ s ∷ split sep t
unfolding split
split-append sep c String.[] t h e = rw e refl
split-append sep c (String.◌∷◌ d s) t h e = rw (h.0, split-append sep c s t h.1 e) refl

cons_head-Lacks :
    (sep : ℕ) (c : Char) (ws : List String)
    → nat_eq (code c) sep ≡ false
    → All (Lacks sep) ws
    → All (Lacks sep) (cons_head c ws)
cons_head-Lacks sep c [] e h = ((e, tt), tt)
cons_head-Lacks sep c (w ∷ ws) e h = ((e, h.0), h.1)

-- No part holds the separator.
pub All-Lacks-split : (sep : ℕ) (s : String) → All (Lacks sep) (split sep s)
unfolding split
All-Lacks-split sep String.[] = (tt, tt)
All-Lacks-split sep (String.◌∷◌ c s) = elim (Bool-cases (nat_eq (code c) sep)) [
  | inl e ↦ rw e (tt, All-Lacks-split sep s)
  | inr e ↦ rw e (cons_head-Lacks sep c (split sep s) e (All-Lacks-split sep s))
]

pub filled : (c : Char) (s : String) → (String.◌∷◌ c s == "") ≡ false
filled c s = rw (compare.cons-nil c s) refl

-- Texts whose first characters differ are not equal.
pub heads_differ :
    (c d : Char) (s t : String)
    → nat_eq (code c) (code d) ≡ false
    → (String.◌∷◌ c s == String.◌∷◌ d t) ≡ false
heads_differ c d s t h = elim (Bool-cases (String.◌∷◌ c s == String.◌∷◌ d t)) [
  | inl e ↦
      let same : code c ≡ code d =
        ap code (head-eq_of_cons-eq ((eq_iff (String.◌∷◌ c s) (String.◌∷◌ d t)).0 e)) in
      absurd (ground arith)
  | inr e ↦ e
]

-- A common prefix does not matter to a comparison.
pub append_eq : (p s t : String) → (p <> s == p <> t) ≡ (s == t)
append_eq p s t = elim (Bool-cases (s == t)) [
  | inl e ↦ rw e ((eq_iff (p <> s) (p <> t)).1 (ap (λ u. p <> u) ((eq_iff s t).0 e)))
  | inr e ↦ elim (Bool-cases (p <> s == p <> t)) [
    | inl f ↦ f ∙ sym ((eq_iff s t).1 (append_cancel_left p s t ((eq_iff (p <> s) (p <> t)).0 f)))
    | inr f ↦ f ∙ sym e
  ]
]
