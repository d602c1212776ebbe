-- ===== src/CmdRunner.antt =====
-- src/shared/secondary/spp_worker_th/cmd_runner.c: the execution of the commands of a request.
-- `exec_one_cmd` and the state that it changes are arguments; `true` is SPPWK_RET_OK.
pub mod Results
use spp_tmp.Base.{
  ℕ, zero, suc, Bool, true, false, List, [], ◌∷◌, if◌then◌else◌, length, replicate, set,
}

pub data CmdResult : Type 0 where
  success failed invalid : CmdResult

-- `commands` with `nof_cmds`, and `is_requested_exit`.
pub record CmdReq (Cmd : Type 0) : Type 0 where
  pub commands : List Cmd
  pub is_requested_exit : Bool

module _ {Cmd S : Type 0} (exec_one_cmd : Cmd → S → Bool × S) where
  -- The loop, which does not execute the commands behind the first that fails.
  pub exec_loop : List Cmd → S → List CmdResult × S
  exec_loop [] s = ([], s)
  exec_loop (c ∷ cs) s =
      let (ok, t) = exec_one_cmd c s in
      let (rest, u) = exec_loop cs t in
      if ok then (success ∷ rest, u) else (failed ∷ replicate (length cs) invalid, t)

  -- `exec_cmds` of a request that was parsed: the results that are sent, whether the process goes on,
  -- and the state.
  pub exec_cmds : CmdReq Cmd → S → List CmdResult × Bool × S
  exec_cmds req s =
      let (results, t) = exec_loop req.commands s in
      if req.is_requested_exit then (set results 0 success, false, t) else (results, true, t)
