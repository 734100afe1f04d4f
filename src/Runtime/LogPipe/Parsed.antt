-- ===== src/Runtime/LogPipe/Parsed.antt =====
-- The log read back: each stream's lines, whatever order the writes of the two goroutines came in.
use Prim.Native.Char.{code}
use luna_for_mac.Base.{
  ℕ, zero, suc, String, false, ◌≡◌, refl, sym, ap, subst, ◌∙◌, List, [], ◌∷◌, ◌==◌, ◌<>◌, nat_eq,
  if◌then◌else◌, arith, All, Lacks, eq_refl,
}
use luna_for_mac.Runtime.LogPipe.{
  newline, log_entry, pipe_output_to_log_file, concat, text_length, LogPipe, Merge, merged,
  from_left, from_right, Logged,
}
use luna_for_mac.Runtime.LogPipe.Lines.{
  IsLine, lines, lines-line, lines-Splits, entries_of, pipe_output_to_log_file_lem,
}

abbrev space : ℕ
space = 32

-- An entry's field up to the first space, and what follows the space.
abbrev take_field : String → String
take_field String.[] = ""
take_field (String.◌∷◌ c s) =
    let rest = take_field s in if nat_eq (code c) space then "" else String.◌∷◌ c rest

abbrev drop_field : String → String
drop_field String.[] = ""
drop_field (String.◌∷◌ c s) = let rest = drop_field s in if nat_eq (code c) space then s else rest

abbrev entry_stream : String → String
entry_stream w = take_field (drop_field w)

abbrev entry_text : String → String
entry_text w = drop_field (drop_field (drop_field w))

-- The texts of the entries of one stream.
abbrev pub stream_lines : String → List String → List String
stream_lines stream_type [] = []
stream_lines stream_type (w ∷ ws) =
    let rest = stream_lines stream_type ws in
    if entry_stream w == stream_type then entry_text w ∷ rest else rest

-- A formatted time has no space and no end of line.
abbrev pub IsStamp : String → Type 0
IsStamp t = Lacks space t × Lacks newline t

take_field-space : (a b : String) → Lacks space a → take_field (a <> (" " <> b)) ≡ a
take_field-space String.[] b h = refl
take_field-space (String.◌∷◌ c a) b h = rw h.0 (ap (String.◌∷◌ c) (take_field-space a b h.1))

drop_field-space : (a b : String) → Lacks space a → drop_field (a <> (" " <> b)) ≡ b
drop_field-space String.[] b h = refl
drop_field-space (String.◌∷◌ c a) b h = rw h.0 (drop_field-space a b h.1)

module _ (t stream_type line : String) (stamp : Lacks space t)
    (word : Lacks space stream_type) where
  entry_stream-log_entry : entry_stream (log_entry t stream_type line) ≡ stream_type
  entry_stream-log_entry =
      ap take_field (drop_field-space t (stream_type <> (" F " <> line)) stamp)
      ∙ take_field-space stream_type ("F " <> line) word

  entry_text-log_entry : entry_text (log_entry t stream_type line) ≡ line
  entry_text-log_entry =
      ap (λ s. drop_field (drop_field s))
        (drop_field-space t (stream_type <> (" F " <> line)) stamp)
      ∙ ap drop_field (drop_field-space stream_type ("F " <> line) word)

IsLine-after : (p w : String) → Lacks newline p → IsLine w → IsLine (p <> w)
IsLine-after String.[] w h i = i
IsLine-after (String.◌∷◌ c p) w h i =
    let j = IsLine-after p w h.1 i in
    record {
      body = String.◌∷◌ c j.body;
      last = j.last;
      plain = (h.0, j.plain);
      ends = j.ends;
      whole = ap (String.◌∷◌ c) j.whole;
    }

-- A file that is made of lines has these lines.
lines-concat : (ws : List String) → All IsLine ws → lines (concat ws) ≡ ws
lines-concat [] h = refl
lines-concat (w ∷ ws) h =
    let i = h.0 in
    ap (λ v. lines (v <> concat ws)) i.whole
    ∙ lines-line i.body i.last (concat ws) i.plain i.ends
    ∙ ap (λ v. v ∷ lines (concat ws)) (sym i.whole)
    ∙ ap (λ vs. w ∷ vs) (lines-concat ws h.1)

Merge-All :
    (P : String → Type 0) (xs ys zs : List String) → Merge xs ys zs → All P xs → All P ys → All P zs
Merge-All P xs ys zs merged hx hy = tt
Merge-All P xs ys zs (from_left m) hx hy = (hx.0, Merge-All P _ _ _ m hx.1 hy)
Merge-All P xs ys zs (from_right m) hx hy = (hy.0, Merge-All P _ _ _ m hx hy.1)

Merge-swap : (xs ys zs : List String) → Merge xs ys zs → Merge ys xs zs
Merge-swap xs ys zs merged = merged
Merge-swap xs ys zs (from_left m) = from_right (Merge-swap _ _ _ m)
Merge-swap xs ys zs (from_right m) = from_left (Merge-swap _ _ _ m)

abbrev IsOther : String → String → Type 0
IsOther stream_type w = (entry_stream w == stream_type) ≡ false

stream_lines-Merge :
    (stream_type : String) (xs ys zs : List String)
    → Merge xs ys zs
    → All (IsOther stream_type) ys
    → stream_lines stream_type zs ≡ stream_lines stream_type xs
stream_lines-Merge stream_type xs ys zs merged h = refl
stream_lines-Merge stream_type xs ys zs (from_right m) h =
    rw h.0 (stream_lines-Merge stream_type _ _ _ m h.1)
stream_lines-Merge stream_type xs ys zs (from_left {x} m) h =
    ap (λ rest. if entry_stream x == stream_type then entry_text x ∷ rest else rest)
      (stream_lines-Merge stream_type _ _ _ m h)

-- The entries of one stream.
module _ (stream_type : String) (word : IsStamp stream_type) where
  entries_of-IsLine :
      (clock : ℕ → String) (ls : List String)
      → ((n : ℕ) → IsStamp (clock n))
      → All IsLine ls
      → All IsLine (entries_of clock stream_type ls)
  entries_of-IsLine clock [] h i = tt
  entries_of-IsLine clock (line ∷ ls) h i = (
    IsLine-after (clock zero) _ (h zero).1 (
        IsLine-after " " _ (refl, tt)
          (IsLine-after stream_type _ word.1
            (IsLine-after " F " line (refl, (refl, (refl, tt))) i.0))),
    entries_of-IsLine (λ n. clock (suc n)) ls (λ n. h (suc n)) i.1,
  )

  stream_lines-entries_of :
      (clock : ℕ → String) (ls : List String)
      → ((n : ℕ) → IsStamp (clock n))
      → stream_lines stream_type (entries_of clock stream_type ls) ≡ ls
  stream_lines-entries_of clock [] h = refl
  stream_lines-entries_of clock (line ∷ ls) h =
      rw
        (
          entry_stream-log_entry (clock zero) stream_type line (h zero).0 word.0,
          eq_refl stream_type,
          entry_text-log_entry (clock zero) stream_type line (h zero).0 word.0,
        )
        (ap (λ rest. line ∷ rest)
          (stream_lines-entries_of (λ n. clock (suc n)) ls (λ n. h (suc n))))

  entries_of-IsOther :
      (other : String)
      → (stream_type == other) ≡ false
      → (clock : ℕ → String) (ls : List String) → ((n : ℕ) → IsStamp (clock n))
      → All (IsOther other) (entries_of clock stream_type ls)
  entries_of-IsOther other e clock [] h = tt
  entries_of-IsOther other e clock (line ∷ ls) h = (
    ap (λ s. s == other) (entry_stream-log_entry (clock zero) stream_type line (h zero).0 word.0)
        ∙ e,
    entries_of-IsOther other e (λ n. clock (suc n)) ls (λ n. h (suc n)),
  )

stdout-IsStamp : IsStamp "stdout"
stdout-IsStamp = (
  (refl, (refl, (refl, (refl, (refl, (refl, tt)))))),
  (refl, (refl, (refl, (refl, (refl, (refl, tt)))))),
)

stderr-IsStamp : IsStamp "stderr"
stderr-IsStamp = (
  (refl, (refl, (refl, (refl, (refl, (refl, tt)))))),
  (refl, (refl, (refl, (refl, (refl, (refl, tt)))))),
)

-- In whatever order the two goroutines write, reading the log back gives, for each stream, exactly
-- its lines that have an end, in their order. A formatted time has no space and no end of line.
pub stream_lines-Logged :
    (out_clock err_clock : ℕ → String) (lp : LogPipe) (log : String)
    → ((n : ℕ) → IsStamp (out_clock n))
    → ((n : ℕ) → IsStamp (err_clock n))
    → Logged out_clock err_clock lp log
    → (stream_lines "stdout" (lines log) ≡ lines lp.stdout)
      × (stream_lines "stderr" (lines log) ≡ lines lp.stderr)
unfolding Logged
stream_lines-Logged out_clock err_clock lp log out_stamps err_stamps (writes, m, e) =
    let outs = entries_of out_clock "stdout" (lines lp.stdout) in
    let errs = entries_of err_clock "stderr" (lines lp.stderr) in
    let (_, _, _, out_lines) = lines-Splits lp.stdout in
    let (_, _, _, err_lines) = lines-Splits lp.stderr in
    let out_same =
      pipe_output_to_log_file_lem (text_length lp.stdout) out_clock "stdout" lp.stdout
        (omega arith) in
    let err_same =
      pipe_output_to_log_file_lem (text_length lp.stderr) err_clock "stderr" lp.stderr
        (omega arith) in
    let both : Merge outs errs writes =
      subst (λ ys. Merge outs ys writes) err_same
        (subst
          (λ xs.
            Merge xs (pipe_output_to_log_file (text_length lp.stderr) err_clock "stderr" lp.stderr)
              writes)
          out_same m) in
    let written : lines log ≡ writes =
      ap lines e
      ∙ lines-concat writes (
          Merge-All IsLine outs errs writes both
            (entries_of-IsLine "stdout" stdout-IsStamp out_clock (lines lp.stdout) out_stamps
              out_lines)
            (entries_of-IsLine "stderr" stderr-IsStamp err_clock (lines lp.stderr) err_stamps
              err_lines)) in
    (
      ap (stream_lines "stdout") written
          ∙ stream_lines-Merge "stdout" outs errs writes both (
              entries_of-IsOther "stderr" stderr-IsStamp "stdout" refl err_clock (lines lp.stderr)
                err_stamps)
          ∙ stream_lines-entries_of "stdout" stdout-IsStamp out_clock (lines lp.stdout) out_stamps,
      ap (stream_lines "stderr") written
          ∙ stream_lines-Merge "stderr" errs outs writes (Merge-swap outs errs writes both) (
              entries_of-IsOther "stdout" stdout-IsStamp "stderr" refl out_clock (lines lp.stdout)
                out_stamps)
          ∙ stream_lines-entries_of "stderr" stderr-IsStamp err_clock (lines lp.stderr) err_stamps,
    )
