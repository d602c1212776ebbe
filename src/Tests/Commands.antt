-- ===== src/Tests/Commands.antt =====
-- The tests of vf/vf_cmd_runner.c and secondary/spp_worker_th/cmd_utils.c.
use spp_tmp.Base.{for_from, ℕ, ◌+◌, ◌<◌, ◌≡◌, refl, true, false, none, some, [], ◌∷◌, arith, update}
use spp_tmp.PortManager.{PortType}
use spp_tmp.WorkerTypes.{
  LcoreStatus, PortDir, PortIdx, PortArray, WorkerType, ClsAttrs, zero_info, zero_comp, zero_attrs,
  null_port, zero_cls_attrs, zero_tag, eth_vlan_id_max, is_no_type,
}
use spp_tmp.Manager.{
  MngData, get_sppwk_port, in_arrays, get_idx_port_info, delete_port_info, del_comp_info, shift,
  port_eq, sppwk_get_lcore_id, get_free_lcore_id,
}
use spp_tmp.Manager.Arrays.{IsDistinct, without, delete_port_info_lem, del_comp_info_absent}
use spp_tmp.VfCommand.{Action, add_port, check_vf_port_count, store_attrs, update_port}
use spp_tmp.VfCommand.Ports.{AllSound, update_port-AllSound}
use spp_tmp.VfComponent.{start_comp, stop_comp}
use spp_tmp.VfComponent.Names.{IsNamed, start_comp-IsNamed, stop_comp_keeps}
use spp_tmp.VfClsTable.{cls_attrs_after}
use spp_tmp.VfClsTable.Entries.{cls_attrs_add_del}
use spp_tmp.Lcore.Publish.{IsFlipped}
use spp_tmp.ManagerInit.{init_mng_data}
use spp_tmp.ManagerInit.Sound.{init_mng_data_sound}

abbrev pub ring : ℕ → PortIdx
ring i = record { iface_type = PortType.ring; iface_no = i; queue_no = 0 }

abbrev three_rings : PortArray
three_rings = record { nof = 3; ptr = ring }

abbrev rings_left : ℕ → PortIdx
rings_left = update (shift 1 2 ring) 2 null_port

delete_port_info_lem_example :
    (idx : ℕ) × (idx < 3)
    × (port_eq (ring 1) (ring idx) ≡ true)
    × ((k : ℕ) → k < 2 → rings_left k ≡ without idx ring k)
    × (rings_left 2 ≡ null_port)
    × ((k : ℕ) → k < 2 → port_eq (ring 1) (rings_left k) ≡ false)
    × IsDistinct 2 rings_left
unfolding delete_port_info get_idx_port_info for_from
delete_port_info_lem_example =
    delete_port_info_lem (ring 1) three_rings {r = rings_left} (λ i j hi hj e. ground arith) refl

-- The core has the components 5, 6 and 7.
del_comp_info_absent_example : del_comp_info 9 3 (λ k. k + 5) 0 ≡ 6
del_comp_info_absent_example =
    del_comp_info_absent 9 3 (λ k. k + 5) (λ k h. omega arith) 0 (omega arith)

-- No components; every lcore is stopped.
abbrev pub idle_vf : MngData
idle_vf = record {
  nof_ports = 4;
  nof_queues = 16;
  phy = λ i j. zero_info;
  vhost = λ i. zero_info;
  ring = λ i. zero_info;
  component = λ i. zero_comp;
  core = λ i. record {
    status = LcoreStatus.stopped;
    ref_index = 0;
    upd_index = 1;
    core = λ _. record { num = 0; id = λ _. 0 };
  };
  change_core = λ i. false;
  change_component = λ i. false;
}

-- A classifier "c" without ports is component 0.
abbrev pub with_cls : MngData
with_cls = record idle_vf {
  component =
      update idle_vf.component 0 (record zero_comp { name = 99 ∷ []; wk_type = WorkerType.cls });
}

abbrev added : MngData
added = elim (add_port 4 16 PortType.ring (ring 0) PortDir.tx_dir 0 zero_attrs with_cls) [
  | none ↦ with_cls
  | some (ok, t) ↦ t
]

update_port-AllSound_example : AllSound added
unfolding for_from update_port add_port check_vf_port_count get_idx_port_info store_attrs
    sppwk_get_lcore_id get_sppwk_port in_arrays
update_port-AllSound_example =
    update_port-AllSound 4 16 Action.add (ring 0) PortDir.tx_dir (99 ∷ []) zero_attrs with_cls
      {b = true} {t = added} (λ i. ground arith) refl

abbrev started : MngData
started = (start_comp 4 (102 ∷ []) 2 WorkerType.forwarder with_cls).1

start_comp-IsNamed_example :
    (id : ℕ) × (id < 4)
    × (is_no_type (with_cls.component id).wk_type ≡ true)
    × (started.component
        ≡ update with_cls.component id (record zero_comp {
          name = 102 ∷ [];
          wk_type = WorkerType.forwarder;
          lcore_id = 2;
          comp_id = id;
        }))
    × IsNamed 4 started
unfolding start_comp sppwk_get_lcore_id get_free_lcore_id
start_comp-IsNamed_example =
    start_comp-IsNamed 4 (102 ∷ []) 2 WorkerType.forwarder with_cls {t = started}
      (λ i j hi hj ne e. ground arith) refl

stop_comp_keeps_example : (stop_comp 4 (λ i (n : ℕ). n + 1) (99 ∷ []) (with_cls, 7)).1 ≡ 7
stop_comp_keeps_example = stop_comp_keeps 4 (λ i (n : ℕ). n + 1) (99 ∷ []) with_cls 7

abbrev no_entry_yet : ClsAttrs
no_entry_yet = record zero_cls_attrs { vlantag = record zero_tag { vid = 0x0fff } }

abbrev entry_of_100 : ClsAttrs
entry_of_100 = record {
  mac_addr = 0x060504030202;
  mac_addr_str = 48 ∷ [];
  vlantag = record zero_tag { vid = 100 };
}

cls_attrs_add_del_example :
    (no_entry_yet.vlantag.vid ≡ eth_vlan_id_max)
    × (no_entry_yet.mac_addr ≡ 0)
    × (entry_of_100.vlantag.vid ≡ 100)
    × (entry_of_100.mac_addr ≡ 0x060504030202)
    × (c : ClsAttrs) × (cls_attrs_after Action.del 100 0x060504030202 (48 ∷ []) entry_of_100
        ≡ some c)
    × (c.vlantag.vid ≡ eth_vlan_id_max)
    × (c.mac_addr ≡ 0)
    × (c.mac_addr_str ≡ [])
    × (cls_attrs_after Action.add 100 0x060504030202 (48 ∷ []) c ≡ some entry_of_100)
unfolding cls_attrs_after
cls_attrs_add_del_example =
    cls_attrs_add_del 100 0x060504030202 (48 ∷ []) no_entry_yet {b = entry_of_100} refl

init_mng_data_sound_example :
    let t = init_mng_data 4 2 4 (1 ∷ 2 ∷ []) idle_vf in
    AllSound t × IsNamed 4 t × ((k : ℕ) → k < 4 → IsFlipped (t.core k))
init_mng_data_sound_example = init_mng_data_sound 4 2 4 (1 ∷ 2 ∷ []) idle_vf
