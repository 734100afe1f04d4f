-- ===== src/Runtime/Exec/Answers.antt =====
-- What ExecSync answers, and how long it lets the command run.
use luna_for_mac.Base.{
  ℕ, ◌*◌, ◌-◌, ◌^◌, ◌≤◌, ◌<◌, String, Bool, true, false, ◌≡◌, ◌↔◌, refl, Option, none, some, List,
  ◌∷◌, arith, nat_eq, leb, if◌then◌else◌, Bool-cases, inl, inr,
}
use luna_for_mac.Base.Int.{ℤ, pos, negsuc}
use luna_for_mac.Runtime.Duration.{seconds_duration-exact, seconds_duration-wraps}
use luna_for_mac.Runtime.Exec.{Run, RunError, timed_out, exec_timeout, answer_run, exec_sync}

-- The child context of a request with a timeout of `n` seconds ends after 120 seconds where `n` is 0,
-- after exactly `n` seconds up to 9223372036, and from there on up to 18446744073 at once: the
-- multiplication wraps around, and the duration is negative.
pub exec_timeout_bounds :
    (n : ℕ)
    → n ≤ 18446744073
    → exec_timeout (pos n) ≡ (
        if nat_eq n 0
        then pos 120000000000
        else if leb n 9223372036
        then pos (n * 1000000000)
        else negsuc (2 ^ 64 - 1 - n * 1000000000))
unfolding exec_timeout
exec_timeout_bounds n h = elim (Bool-cases (nat_eq n 0)) [
  | inl e ↦ rw e (seconds_duration-exact 120 (omega arith))
  | inr e ↦ elim (Bool-cases (leb n 9223372036)) [
    | inl f ↦ rw (e, f) (seconds_duration-exact n (ground arith))
    | inr f ↦ rw (e, f) (seconds_duration-wraps n (ground arith) h)
  ]
]

-- A command that is run with a deadline in the past, under a context that is not cancelled, has
-- exceeded the deadline, as context.WithTimeout says.
pub record IsTimely (run : Bool → String → List String → ℤ → Run) : Type 0 where
  pub expires :
      (name : String) (args : List String) (d : ℕ)
      → (run false name args (negsuc d)).deadline_exceeded ≡ true

answer_run-none :
    (stdout stderr : String) (expired : Bool) (error : Option RunError)
    → ((answer_run stdout stderr expired error).1 ≡ none) ↔ ((expired ≡ false) × (error ≡ none))
unfolding answer_run
answer_run-none stdout stderr true error = (λ h. cc, λ h. cc (h.0))
answer_run-none stdout stderr false none = (λ h. (refl, refl), λ h. refl)
answer_run-none stdout stderr false (some e) = (λ h. cc, λ h. cc (h.1))

module _ (run : Bool → String → List String → ℤ → Run) where
  -- For a command that is not empty ExecSync answers without an error exactly when the command has
  -- ended before its deadline and `cmd.Output()` gave no error.
  pub exec_sync_error_iff :
      (cancelled : Bool) (name : String) (args : List String) (timeout : ℤ)
      → ((exec_sync run cancelled (record { cmd = name ∷ args; timeout = timeout })).1 ≡ none) ↔ (
          ((run cancelled name args (exec_timeout timeout)).deadline_exceeded ≡ false)
          × ((run cancelled name args (exec_timeout timeout)).error ≡ none))
  unfolding exec_sync
  exec_sync_error_iff cancelled name args timeout =
      let r = run cancelled name args (exec_timeout timeout) in
      answer_run-none r.stdout r.stderr r.deadline_exceeded r.error

  -- With a timeout of more than 9223372036 seconds, and of at most 18446744073, ExecSync of a
  -- command that is not empty, with a context that is not cancelled, answers that the command timed
  -- out, since the duration wraps around. A command that is run with a deadline in the past, under
  -- such a context, has exceeded it, as documented.
  pub exec_sync_overflows :
      IsTimely run
      → (name : String) (args : List String) (n : ℕ) → 9223372036 < n
      → n ≤ 18446744073
      → (exec_sync run false (record { cmd = name ∷ args; timeout = pos n })).1 ≡ some timed_out
  unfolding exec_sync answer_run exec_timeout
  exec_sync_overflows timely name args n low high =
      let other : nat_eq n 0 ≡ false = ground arith in
      rw (other, seconds_duration-wraps n low high, timely.expires name args _) refl
