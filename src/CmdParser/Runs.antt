-- ===== src/CmdParser/Runs.antt =====
-- cmd_parser.c with vf/vf_cmd_runner.c: an accepted port command runs, and what the parser does not check.
use spp_tmp.Base.{ℕ, Bool, true, Option, none, some, if◌then◌else◌}
use spp_tmp.WorkerTypes.{PortIdx}
use spp_tmp.Manager.{MngData, in_arrays}
use spp_tmp.VfCommand.{add_port, del_port}
use spp_tmp.CmdParser.{PortCmd, Env}
use spp_tmp.CmdParser.Params.{is_add}

module _ (e : Env) (max_queues : ℕ) where
  -- The effect of the command on the component `id` and the port `q`; `none` is an access outside the
  -- arrays.
  abbrev pub effect : PortCmd → ℕ → PortIdx → Option (Bool × MngData)
  effect c id q =
      if is_add c.wk_action
      then add_port e.max_lcore max_queues c.port.iface_type q c.dir id c.port_attrs e.mng
      else if in_arrays e.mng q
      then some (true, del_port e.max_lcore max_queues q c.dir id e.mng)
      else none
