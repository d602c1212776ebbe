-- ===== src/VfClsTable.antt =====
-- src/vf/vf_cmd_runner.c: the command that changes the address table of a classifier of spp_vf.
pub mod Entries
use spp_tmp.Base.{
  ℕ, zero, suc, ◌+◌, ◌-◌, Bool, true, false, ◌&&◌, ◌||◌, not, Option, none, some, List, [], ◌∷◌,
  ◌==◌, if◌then◌else◌, ltb, leb, update, set,
}
use spp_tmp.PortManager.{PortType, type_no}
use spp_tmp.WorkerTypes.{
  LcoreStatus, PortDir, dir_no, PortIdx, PortInfo, PortArray, PortOps, PortAttrs, is_no_ops,
  is_add_vlan, CompInfo, WorkerType, is_cls, zero_attrs, zero_comp, zero_tag, ClsAttrs,
  eth_vlan_id_max,
}
use spp_tmp.Manager.{
  MngData, CoreInfo, CoreMngInfo, get_sppwk_port, in_arrays, deref, put_port, get_idx_port_info,
  delete_port_info, del_comp_info, get_free_lcore_id, sppwk_get_lcore_id, set_component_change_port,
  is_rx,
}
use spp_tmp.VfCommand.{Action}

-- `update_cls_table`; `mac` is the value of `sppwk_convert_mac_str_to_int64`, `none` if that is -1.
abbrev pub put_cls : ClsAttrs → PortInfo → PortInfo
put_cls a info = record info { cls_attrs = a }

abbrev pub is_undef : PortType → Bool
is_undef PortType.undef = true
is_undef _ = false

abbrev pub cleared : ClsAttrs → ClsAttrs
cleared a = record {
  mac_addr = 0;
  mac_addr_str = [];
  vlantag = record (a.vlantag) { vid = eth_vlan_id_max };
}

unfoldable pub cls_attrs_after : Action → ℕ → ℕ → List ℕ → ClsAttrs → Option ClsAttrs
cls_attrs_after act vid mac mac_str a = elim act [
  | Action.del ↦
      if not (a.vlantag.vid == 0) && not (a.vlantag.vid == vid)
      then none
      else if not (a.mac_addr == 0) && not (a.mac_addr == mac)
      then none
      else some (cleared a)
  | Action.add ↦
      if not (a.vlantag.vid == eth_vlan_id_max)
      then none
      else if not (a.mac_addr == 0)
      then none
      else some (record {
        mac_addr = mac;
        mac_addr_str = mac_str;
        vlantag = record (a.vlantag) { vid = vid };
      })
  | _ ↦ some a
]

-- `none` is an access to a port outside the arrays.
pub update_cls_table :
    (max_lcore : ℕ) → Action → ℕ → Option ℕ → List ℕ → PortIdx → MngData → Option (Bool × MngData)
update_cls_table max_lcore act vid mac mac_str port s = elim mac [
  | none ↦ some (false, s)
  | some m ↦ elim (get_sppwk_port port.iface_type port.iface_no port.queue_no) [
    | none ↦ some (false, s)
    | some p ↦
        if not (in_arrays s p)
        then none
        else if is_undef (deref s p).iface_type
        then some (false, s)
        else elim (cls_attrs_after act vid m mac_str (deref s p).cls_attrs) [
          | none ↦ some (false, s)
          | some a ↦
              let info = put_cls a (deref s p) in
              some
                (true, set_component_change_port max_lcore info PortDir.tx_dir (put_port p info s))
        ]
  ]
]
