-- ===== src/Runtime/LogPipe/Lines.antt =====
-- The lines that are copied: all lines of the stream that have an end.
use Prim.Native.Char.{Char, code}
use luna_for_mac.Base.{
  ℕ, zero, suc, ◌≤◌, ◌<◌, String, true, false, ◌≡◌, refl, sym, ap, subst, ◌∙◌, Option, none, some,
  List, [], ◌∷◌, ◌<>◌, ◌>>=◌, nat_eq, if◌then◌else◌, arith, All, Lacks, Bool-cases, Option-cases,
  inl, inr,
}
use luna_for_mac.Runtime.LogPipe.{
  newline, read_line, log_entry, pipe_output_to_log_file, concat, text_length,
}

-- A line: a text without an end of line, and then one.
pub record IsLine (w : String) : Type 0 where
  pub body : String
  pub last : Char
  pub plain : Lacks newline body
  pub ends : nat_eq (code last) newline ≡ true
  pub whole : w ≡ body <> String.◌∷◌ last ""

abbrev pub one_more : Char → List String → List String
one_more c [] = []
one_more c (w ∷ ws) = String.◌∷◌ c w ∷ ws

-- The lines of a text that have an end, each with its end.
abbrev pub lines : String → List String
lines String.[] = []
lines (String.◌∷◌ c s) =
    let rest = lines s in
    if nat_eq (code c) newline then String.◌∷◌ c "" ∷ rest else one_more c rest

-- The entries of lines, one after the other.
abbrev pub entries_of : (ℕ → String) → String → List String → List String
entries_of clock stream_type [] = []
entries_of clock stream_type (line ∷ ls) =
    log_entry (clock zero) stream_type line ∷ entries_of (λ n. clock (suc n)) stream_type ls

IsLine-longer :
    (c : Char) (w : String) → nat_eq (code c) newline ≡ false → IsLine w → IsLine (String.◌∷◌ c w)
IsLine-longer c w f i = record {
  body = String.◌∷◌ c i.body;
  last = i.last;
  plain = (f, i.plain);
  ends = i.ends;
  whole = ap (String.◌∷◌ c) i.whole;
}

-- The lines are lines, and together with a rest that has no end of line they are the text.
abbrev pub Splits : String → List String → Type 0
Splits s ws = (rest : String) × Lacks newline rest × (concat ws <> rest ≡ s) × All IsLine ws

longer :
    (c : Char) (s : String) (ws : List String)
    → nat_eq (code c) newline ≡ false
    → Splits s ws
    → Splits (String.◌∷◌ c s) (one_more c ws)
longer c s [] f (rest, h, e, i) = (String.◌∷◌ c rest, (f, h), ap (String.◌∷◌ c) e, tt)
longer c s (w ∷ ws) f (rest, h, e, i) =
    (rest, h, ap (String.◌∷◌ c) e, (IsLine-longer c w f i.0, i.1))

pub lines-Splits : (s : String) → Splits s (lines s)
lines-Splits String.[] = ("", tt, refl, tt)
lines-Splits (String.◌∷◌ c s) =
    let (rest, h, e, i) = lines-Splits s in
    elim (Bool-cases (nat_eq (code c) newline)) [
      | inl f ↦ rw f (
        rest,
        h,
        ap (String.◌∷◌ c) e,
        (record { body = ""; last = c; plain = tt; ends = f; whole = refl }, i),
      )
      | inr f ↦ rw f (longer c s (lines s) f (rest, h, e, i))
    ]

-- The first line of a text.
pub lines-line :
    (body : String) (last : Char) (t : String)
    → Lacks newline body
    → nat_eq (code last) newline ≡ true
    → lines (body <> String.◌∷◌ last "" <> t) ≡ (body <> String.◌∷◌ last "") ∷ lines t
lines-line String.[] last t h e = rw e refl
lines-line (String.◌∷◌ c s) last t h e = rw (h.0, lines-line s last t h.1 e) refl

lines_after : Option (String × String) → List String
lines_after none = []
lines_after (some (line, rest)) = line ∷ lines rest

longer_after :
    (c : Char) (o : Option (String × String))
    → one_more c (lines_after o) ≡ lines_after (o >>= λ r. some (String.◌∷◌ c r.0, r.1))
unfolding lines_after
longer_after c none = refl
longer_after c (some r) = refl

lines-read_line : (s : String) → lines s ≡ lines_after (read_line s)
unfolding read_line lines_after
lines-read_line String.[] = refl
lines-read_line (String.◌∷◌ c s) = elim (Bool-cases (nat_eq (code c) newline)) [
  | inl f ↦ rw f refl
  | inr f ↦ rw f (ap (one_more c) (lines-read_line s) ∙ longer_after c (read_line s))
]

-- A line that was read is not empty, so that less is left.
Shorter : String → Option (String × String) → Type 0
Shorter s none = Unit
Shorter s (some r) = text_length r.1 < text_length s

bind-Shorter :
    (c : Char) (s : String) (o : Option (String × String))
    → Shorter s o
    → Shorter (String.◌∷◌ c s) (o >>= λ r. some (String.◌∷◌ c r.0, r.1))
unfolding Shorter
bind-Shorter c s none h = tt
bind-Shorter c s (some r) h = omega arith

read_line-Shorter : (s : String) → Shorter s (read_line s)
unfolding read_line Shorter
read_line-Shorter String.[] = tt
read_line-Shorter (String.◌∷◌ c s) = elim (Bool-cases (nat_eq (code c) newline)) [
  | inl f ↦ rw f (omega arith)
  | inr f ↦ rw f (bind-Shorter c s (read_line s) (read_line-Shorter s))
]

-- With as much fuel as the stream is long, or more, the loop writes one entry for each line of the
-- stream that has an end, in their order, and nothing of what follows the last end of a line.
pub pipe_output_to_log_file_lem :
    (fuel : ℕ) (clock : ℕ → String) (stream_type stream : String)
    → text_length stream ≤ fuel
    → pipe_output_to_log_file fuel clock stream_type stream
      ≡ entries_of clock stream_type (lines stream)
unfolding pipe_output_to_log_file lines_after Shorter
pipe_output_to_log_file_lem zero clock stream_type String.[] h = refl
pipe_output_to_log_file_lem zero clock stream_type (String.◌∷◌ c s) h = absurd (omega arith)
pipe_output_to_log_file_lem (suc fuel) clock stream_type stream h =
    elim (Option-cases (read_line stream)) [
      | inl e ↦
          rw (e, pipe_output_to_log_file)
            (ap (entries_of clock stream_type) (sym (lines-read_line stream ∙ ap lines_after e)))
      | inr ((line, rest), e) ↦
          let less : text_length rest < text_length stream =
            subst (Shorter stream) e (read_line-Shorter stream) in
          rw (e, pipe_output_to_log_file)
            (ap (λ es. log_entry (clock zero) stream_type line ∷ es)
                (pipe_output_to_log_file_lem fuel (λ n. clock (suc n)) stream_type rest
                  (omega arith))
              ∙ ap (entries_of clock stream_type) (sym (lines-read_line stream ∙ ap lines_after e)))
    ]
