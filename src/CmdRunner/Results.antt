-- ===== src/CmdRunner/Results.antt =====
-- `exec_cmds` of cmd_runner.c: the results that are sent, and the commands that were executed.
use spp_tmp.Base.{
  ℕ, zero, suc, ◌-◌, ◌<◌, ◌≤◌, ◌≡◌, refl, ap, Bool, true, false, List, [], ◌∷◌, ◌++◌, if◌then◌else◌,
  arith, Bool-cases, inl, inr, length, replicate, take,
}
use spp_tmp.CmdRunner.{CmdResult, success, failed, invalid, exec_loop, exec_cmds}

module _ {Cmd S : Type 0} (exec_one_cmd : Cmd → S → Bool × S) where
  -- The state after commands, whatever they return.
  abbrev pub run_cmds : List Cmd → S → S
  run_cmds [] s = s
  run_cmds (c ∷ cs) s = run_cmds cs (exec_one_cmd c s).1

  -- Whether they all return SPPWK_RET_OK.
  abbrev pub all_ok : List Cmd → S → Bool
  all_ok [] s = true
  all_ok (c ∷ cs) s = if (exec_one_cmd c s).0 then all_ok cs (exec_one_cmd c s).1 else false

  -- The results of the last `n` commands, if the first of them fails.
  abbrev pub stopped : ℕ → List CmdResult
  stopped zero = []
  stopped (suc n) = failed ∷ replicate n invalid

  -- Some number `k` of commands succeed; if there are more, the next one fails, and it is the last one
  -- that is executed.
  abbrev pub StopsAt : ℕ → List Cmd → S → List CmdResult × S → Type 0
  StopsAt k cs s (results, t) =
      (k ≤ length cs)
      × (all_ok (take k cs) s ≡ true)
      × (k < length cs → all_ok (take (suc k) cs) s ≡ false)
      × (results ≡ replicate k success ++ stopped (length cs - k))
      × (t ≡ run_cmds (take (suc k) cs) s)

  exec_loop_stops : (cs : List Cmd) (s : S) → (k : ℕ) × StopsAt k cs s (exec_loop exec_one_cmd cs s)
  unfolding exec_loop
  exec_loop_stops [] s = (0, (omega arith, refl, (λ h. absurd (omega arith)), refl, refl))
  exec_loop_stops (c ∷ cs) s = elim (Bool-cases (exec_one_cmd c s).0) [
    | inr e ↦
        let all : suc (length cs) - 0 ≡ suc (length cs) = omega arith in
        (0, (omega arith, refl, (λ _. rw e refl), rw (e, all) refl, rw e refl))
    | inl e ↦
        let (k, (le, ok, stop, res, state)) = exec_loop_stops cs (exec_one_cmd c s).1 in
        let less : suc (length cs) - suc k ≡ length cs - k = omega arith in
        (
          suc k,
          (
            omega arith,
            rw e ok,
            (λ h. rw e (stop (omega arith))),
            rw (e, less) (ap (λ l. success ∷ l) res),
            rw e state,
          ),
        )
  ]

  -- A request without an exit command: some number `k` of its commands succeed and are reported as
  -- successes. If there are more, the next one fails and is reported so, and those behind it are
  -- reported as invalid. No command behind the failing one is executed.
  pub exec_cmds_stops :
      (cmds : List Cmd) (s : S)
      → let (results, goes_on, t) =
          exec_cmds exec_one_cmd (record { commands = cmds; is_requested_exit = false }) s in
        (goes_on ≡ true) × ((k : ℕ) × StopsAt k cmds s (results, t))
  unfolding exec_cmds
  exec_cmds_stops cmds s = (refl, exec_loop_stops cmds s)
