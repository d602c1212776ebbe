-- ===== src/Mirror/Command.antt =====
-- src/mirror/mir_cmd_runner.c: the commands that change the components of spp_mirror.
-- SPPWK_ACT_START, SPPWK_ACT_STOP and SPPWK_ACT_DEL read as in src/vf/vf_cmd_runner.c, but that a
-- mirror has no classifier, so the definitions of that file are used.
use spp_tmp.Base.{
  ℕ, ◌+◌, Bool, true, false, ◌||◌, not, Option, none, some, List, if◌then◌else◌, ltb, leb, update,
}
use spp_tmp.PortManager.{PortType}
use spp_tmp.WorkerTypes.{PortDir, PortIdx, PortAttrs, WorkerType, is_add_vlan}
use spp_tmp.Manager.{
  MngData, get_sppwk_port, in_arrays, deref, put_port, get_idx_port_info, sppwk_get_lcore_id, is_rx,
}
use spp_tmp.VfCommand.{
  Action, find_attrs, set_attrs, side_of, put_side, append_port, put_component, change, store_attrs,
  del_port,
}
use spp_tmp.VfComponent.{start_comp, stop_comp}

abbrev pub unchanged : ℕ → Unit {0} → Unit {0}
unchanged id u = u

module _ (max_lcore : ℕ) where
  unfoldable pub update_comp : Action → List ℕ → ℕ → WorkerType → MngData → Bool × MngData
  update_comp act name lcore_id wk_type s = elim act [
    | Action.start ↦ start_comp max_lcore name lcore_id wk_type s
    | Action.stop ↦ (true, (stop_comp max_lcore unchanged name (s, tt)).0)
    | _ ↦ (false, record s { change_core = update s.change_core 0 true })
  ]

-- `SPPWK_RET_OK` is `true`.
unfoldable pub check_mir_port_count : PortDir → ℕ → ℕ → Bool
check_mir_port_count dir nof_rx nof_tx =
    let rx = if is_rx dir then nof_rx + 1 else nof_rx in
    let tx = if is_rx dir then nof_tx else nof_tx + 1 in not (ltb 1 rx || ltb 2 tx)

-- RTE_MAX_LCORE and RTE_MAX_ETHPORTS
module _ (max_lcore max_ethports : ℕ) where
  -- A port that the component has already. Here and below `none` is an access to a port outside the
  -- arrays.
  unfoldable pub update_tag : PortIdx → ℕ → PortAttrs → MngData → Option (Bool × MngData)
  update_tag p id attrs s =
      if not (is_add_vlan attrs.ops)
      then some (true, s)
      else if not (in_arrays s p)
      then none
      else (elim (find_attrs (λ a. is_add_vlan a.ops) (deref s p).port_attrs) [
        | none ↦ some (false, s)
        | some j ↦ some (true, change id (put_port p (set_attrs j attrs (deref s p)) s))
      ])

  -- A port that it has not. `t` is the type in the command.
  unfoldable pub append_new :
      PortType → PortIdx → PortDir → ℕ → PortAttrs → MngData → Option (Bool × MngData)
  append_new t p dir id attrs s =
      let c = s.component id in
      let ports = side_of dir c in
      if leb max_ethports ports.nof
      then some (false, s)
      else if not (in_arrays s p)
      then none
      else (elim (store_attrs max_lcore max_ethports attrs (deref s p)) [
        | none ↦ some (false, s)
        | some info ↦ some (
          true,
          change id (
              put_component id (put_side dir (append_port p ports) c)
                (put_port p (record info { iface_type = t }) s)),
        )
      ])

  -- SPPWK_ACT_ADD
  unfoldable pub add_port :
      PortType → PortIdx → PortDir → ℕ → PortAttrs → MngData → Option (Bool × MngData)
  add_port t p dir id attrs s =
      let c = s.component id in
      if not (check_mir_port_count dir c.rx.nof c.tx.nof)
      then some (false, s)
      else elim (get_idx_port_info p (side_of dir c)) [
        | some k ↦ update_tag p id attrs s
        | none ↦ append_new t p dir id attrs s
      ]

  -- `none` is an access through NULL, for a port of a type without an array, or outside the arrays.
  unfoldable pub update_port :
      Action → PortIdx → PortDir → List ℕ → PortAttrs → MngData → Option (Bool × MngData)
  update_port act port dir name attrs s = elim (sppwk_get_lcore_id max_lcore name s) [
    | none ↦ some (false, s)
    | some id ↦ elim (get_sppwk_port port.iface_type port.iface_no port.queue_no) [
      | none ↦ none
      | some p ↦ elim act [
        | Action.add ↦ add_port port.iface_type p dir id attrs s
        | Action.del ↦
            if in_arrays s p then some (true, del_port max_lcore max_ethports p dir id s) else none
        | _ ↦ some (false, s)
      ]
    ]
  ]
