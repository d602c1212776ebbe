-- ===== src/CmdParser/Params.antt =====
-- cmd_parser.c: the functions that parse one parameter of a command into its field.
-- `flag` is `allow_override`.
use spp_tmp.Base.{
  ℕ, zero, suc, ◌-◌, Bool, true, false, ◌&&◌, not, Option, none, some, List, ◌==◌, if◌then◌else◌,
  leb, length,
}
use spp_tmp.WorkerTypes.{PortDir, PortIdx, PortOps, is_no_type, eth_vlan_id_max}
use spp_tmp.Manager.{sppwk_check_used_port, sppwk_get_lcore_id, is_some}
use spp_tmp.VfCommand.{Action}
use spp_tmp.CString.{is_neg}
use spp_tmp.PortUid.{parse_resource_uid, is_phy}
use spp_tmp.CmdParser.{
  CompCmd, PortCmd, Env, Outcome, accept, reject, undefined, cmd_act_list, act_of, port_dir_list,
  dir_of, port_ability_list, ops_of, get_list_idx, get_int_in_range, get_uint_in_range,
  get_comp_type_from_str, sppwk_name_bufsz, sppwk_val_bufsz, spp_vlan_pcp_max,
}

abbrev pub is_add : Action → Bool
is_add Action.add = true
is_add _ = false

abbrev pub is_del : Action → Bool
is_del Action.del = true
is_del _ = false

abbrev pub is_start : Action → Bool
is_start Action.start = true
is_start _ = false

-- The index of a word, if it is positive.
abbrev pub positive : Option ℕ → Option ℕ
positive none = none
positive (some zero) = none
positive (some (suc i)) = some (suc i)

-- `strcpy` to an array of SPPWK_NAME_BUFSZ bytes behind the test of SPPWK_VAL_BUFSZ.
unfoldable pub copy_name : List ℕ → Outcome (List ℕ)
copy_name arg_val =
    if leb sppwk_val_bufsz (length arg_val)
    then reject
    else if leb sppwk_name_bufsz (length arg_val)
    then undefined
    else accept arg_val

abbrev pub put_vid : ℕ → PortCmd → PortCmd
put_vid v c = record c {
  port_attrs = record (c.port_attrs) {
    vlantag = record (c.port_attrs.vlantag) { vid = v; pcp = 4_294_967_295 };
  };
}

abbrev pub put_pcp : ℕ → PortCmd → PortCmd
put_pcp v c = record c {
  port_attrs = record (c.port_attrs) { vlantag = record (c.port_attrs.vlantag) { pcp = v } };
}

module _ (e : Env) where
  abbrev pub parse_uid : List ℕ → Option PortIdx
  parse_uid = parse_resource_uid e.max_ethports e.rxq e.txq

  abbrev pub used : PortIdx → PortDir → Bool
  used p d = is_some (sppwk_check_used_port e.max_lcore p.iface_type p.iface_no p.queue_no d e.mng)

  abbrev pub lcore_of : List ℕ → Option ℕ
  lcore_of name = sppwk_get_lcore_id e.max_lcore name e.mng

  -- `component`
  unfoldable pub parse_comp_action : Bool → List ℕ → CompCmd → Outcome CompCmd
  parse_comp_action flag arg_val c = elim (positive (get_list_idx arg_val cmd_act_list)) [
    | none ↦ reject
    | some ret ↦
        if not (ret == 1) && not (ret == 2)
        then reject
        else accept (record c { wk_action = act_of ret })
  ]

  unfoldable pub parse_comp_name : Bool → List ℕ → CompCmd → Outcome CompCmd
  unfolding copy_name
  parse_comp_name flag arg_val c =
      if is_start c.wk_action && is_some (lcore_of arg_val)
      then reject
      else elim (copy_name arg_val) [
        | accept n ↦ accept (record c { name = n })
        | reject ↦ reject
        | undefined ↦ undefined
      ]

  unfoldable pub parse_comp_lcore_id : Bool → List ℕ → CompCmd → Outcome CompCmd
  parse_comp_lcore_id flag arg_val c =
      if not (is_start c.wk_action)
      then accept c
      else elim (get_uint_in_range arg_val 0 (e.max_lcore - 1)) [
        | none ↦ reject
        | some v ↦ accept (record c { core = v })
      ]

  unfoldable pub parse_comp_type : Bool → List ℕ → CompCmd → Outcome CompCmd
  parse_comp_type flag arg_val c =
      let comp_type = get_comp_type_from_str arg_val in
      if not (is_start c.wk_action)
      then accept c
      else if is_no_type comp_type
      then reject
      else accept (record c { wk_type = comp_type })

  -- `port`
  unfoldable pub parse_port_action : Bool → List ℕ → PortCmd → Outcome PortCmd
  parse_port_action flag arg_val c = elim (positive (get_list_idx arg_val cmd_act_list)) [
    | none ↦ reject
    | some ret ↦
        if not (ret == 3) && not (ret == 4)
        then reject
        else accept (record c { wk_action = act_of ret })
  ]

  unfoldable pub parse_port : Bool → List ℕ → PortCmd → Outcome PortCmd
  parse_port flag arg_val c = elim (parse_uid arg_val) [
    | none ↦ reject
    | some tmp_port ↦
        if not flag
          && (is_add c.wk_action && used tmp_port PortDir.rx_dir && used tmp_port PortDir.tx_dir)
        then reject
        else accept (record c { port = tmp_port })
  ]

  -- `queue_no > max_port_queue`, where the latter is the number of queues less 1.
  abbrev pub exceeds : PortDir → PortIdx → Bool
  exceeds PortDir.rx_dir p = not (is_neg p.queue_no) && leb (e.rxq p.iface_no) p.queue_no
  exceeds PortDir.tx_dir p = not (is_neg p.queue_no) && leb (e.txq p.iface_no) p.queue_no
  exceeds _ p = not (is_neg p.queue_no)

  unfoldable pub parse_port_direction : Bool → List ℕ → PortCmd → Outcome PortCmd
  parse_port_direction flag arg_val c = elim (positive (get_list_idx arg_val port_dir_list)) [
    | none ↦ reject
    | some ret ↦
        if is_add c.wk_action && is_phy c.port.iface_type && exceeds (dir_of ret) c.port
        then reject
        else if not flag && (is_add c.wk_action && used c.port (dir_of ret))
        then reject
        else accept (record c { dir = dir_of ret })
  ]

  unfoldable pub parse_comp_name_portcmd : Bool → List ℕ → PortCmd → Outcome PortCmd
  unfolding copy_name
  parse_comp_name_portcmd flag arg_val c =
      if not (is_some (lcore_of arg_val)) then reject else elim (copy_name arg_val) [
        | accept n ↦ accept (record c { name = n })
        | reject ↦ reject
        | undefined ↦ undefined
      ]

  unfoldable pub parse_port_vlan_ops : Bool → List ℕ → PortCmd → Outcome PortCmd
  parse_port_vlan_ops flag arg_val c = elim (c.port_attrs.ops) [
    | PortOps.no_ops ↦ elim (positive (get_list_idx arg_val port_ability_list)) [
      | none ↦ reject
      | some ret ↦
          accept (record c { port_attrs = record (c.port_attrs) { ops = ops_of ret; dir = c.dir } })
    ]
    | _ ↦ accept c
  ]

  -- The PCP becomes -1.
  unfoldable pub parse_port_vid : Bool → List ℕ → PortCmd → Outcome PortCmd
  parse_port_vid flag arg_val c = elim (c.port_attrs.ops) [
    | PortOps.add_vlan ↦ elim (get_int_in_range arg_val 0 eth_vlan_id_max) [
      | none ↦ reject
      | some v ↦ accept (put_vid v c)
    ]
    | _ ↦ accept c
  ]

  unfoldable pub parse_port_pcp : Bool → List ℕ → PortCmd → Outcome PortCmd
  parse_port_pcp flag arg_val c = elim (c.port_attrs.ops) [
    | PortOps.add_vlan ↦ elim (get_int_in_range arg_val 0 spp_vlan_pcp_max) [
      | none ↦ reject
      | some v ↦ accept (put_pcp v c)
    ]
    | _ ↦ accept c
  ]
