-- ===== src/CmdParser/ClsParams.antt =====
-- cmd_parser.c: the functions that parse one parameter of the classifier_table command into its field.
-- `flag` is `allow_override`.
use spp_tmp.Base.{ℕ, Bool, true, false, ◌&&◌, not, none, some, List, ◌==◌, if◌then◌else◌, list_eq}
use spp_tmp.WorkerTypes.{PortIdx, eth_vlan_id_max}
use spp_tmp.Manager.{get_sppwk_port, deref}
use spp_tmp.VfClsTable.{is_undef}
use spp_tmp.CString.{codes}
use spp_tmp.MacAddr.{sppwk_convert_mac_str_to_int64, is_neg64}
use spp_tmp.CmdParser.{
  ClsType, ClsCmd, Env, Outcome, accept, reject, undefined, cmd_act_list, act_of, cls_type_list,
  cls_type_of, get_list_idx, get_int_in_range,
}
use spp_tmp.CmdParser.Params.{is_add, is_del, positive, parse_uid}

abbrev pub is_mac : ClsType → Bool
is_mac ClsType.mac = true
is_mac _ = false

abbrev pub mac_text : List ℕ → List ℕ
mac_text arg_val = if list_eq arg_val (codes "default") then codes "00:00:00:00:00:01" else arg_val

abbrev pub require : {A : Type 0} → Outcome Bool → Outcome A → Outcome A
require (accept true) k = k
require (accept false) k = reject
require reject k = reject
require undefined k = undefined

module _ (e : Env) where
  unfoldable pub parse_cls_action : Bool → List ℕ → ClsCmd → Outcome ClsCmd
  parse_cls_action flag arg_val c = elim (positive (get_list_idx arg_val cmd_act_list)) [
    | none ↦ reject
    | some idx ↦
        if not (idx == 3) && not (idx == 4)
        then reject
        else accept (record c { wk_action = act_of idx })
  ]

  unfoldable pub parse_cls_type : Bool → List ℕ → ClsCmd → Outcome ClsCmd
  parse_cls_type flag arg_val c = elim (positive (get_list_idx arg_val cls_type_list)) [
    | none ↦ reject
    | some idx ↦ accept (record c { cls_type = cls_type_of idx })
  ]

  unfoldable pub parse_cls_vid : Bool → List ℕ → ClsCmd → Outcome ClsCmd
  parse_cls_vid flag arg_val c = elim (get_int_in_range arg_val 0 eth_vlan_id_max) [
    | none ↦ reject
    | some v ↦ accept (record c { vid = v })
  ]

  unfoldable pub parse_mac_addr : Bool → List ℕ → ClsCmd → Outcome ClsCmd
  parse_mac_addr flag arg_val c = elim (sppwk_convert_mac_str_to_int64 (mac_text arg_val)) [
    | none ↦ undefined
    | some res ↦ if is_neg64 res then reject else accept (record c { mac = mac_text arg_val })
  ]

  -- A test of the entry of a port; `undefined` is the dereference of NULL.
  unfoldable pub is_added_port : PortIdx → Outcome Bool
  is_added_port p = elim (get_sppwk_port p.iface_type p.iface_no p.queue_no) [
    | none ↦ undefined
    | some q ↦ accept (not (is_undef (deref e.mng q).iface_type))
  ]

  unfoldable pub is_used_with_addr : ℕ → ℕ → PortIdx → Outcome Bool
  is_used_with_addr vid mac_addr p = elim (get_sppwk_port p.iface_type p.iface_no p.queue_no) [
    | none ↦ undefined
    | some q ↦
        let a = (deref e.mng q).cls_attrs in accept (mac_addr == a.mac_addr && vid == a.vlantag.vid)
  ]

  -- The end of `parse_cls_port`, with the VLAN ID set.
  unfoldable pub check_cls_port : PortIdx → ClsCmd → Outcome ClsCmd
  unfolding is_used_with_addr
  check_cls_port tmp_port c =
      let done = accept (record c { port = tmp_port }) in
      if is_add c.wk_action
      then require (is_used_with_addr eth_vlan_id_max 0 tmp_port) done
      else if is_del c.wk_action
      then (elim (sppwk_convert_mac_str_to_int64 c.mac) [
        | none ↦ undefined
        | some mac_addr ↦
            if is_neg64 mac_addr
            then reject
            else require (is_used_with_addr c.vid mac_addr tmp_port) done
      ])
      else done

  unfoldable pub parse_cls_port : Bool → List ℕ → ClsCmd → Outcome ClsCmd
  unfolding is_added_port check_cls_port
  parse_cls_port flag arg_val c = elim (parse_uid e arg_val) [
    | none ↦ reject
    | some tmp_port ↦ require (is_added_port tmp_port) (
        check_cls_port tmp_port
          (if is_mac c.cls_type then record c { vid = eth_vlan_id_max } else c))
  ]
