-- ===== src/ManagerInit.antt =====
-- src/shared/secondary/spp_worker_th/cmd_utils.c: the initial management data, before
-- `init_host_port_info` adds the ports of the host.
pub mod Sound
use spp_tmp.Base.{ℕ, zero, suc, true, false, Option, none, some, List, [], ◌∷◌, update, for_from}
use spp_tmp.PortManager.{PortType}
use spp_tmp.WorkerTypes.{
  LcoreStatus, PortInfo, CompInfo, zero_info, zero_comp, zero_cls_attrs, zero_tag, eth_vlan_id_max,
}
use spp_tmp.Manager.{CoreInfo, CoreMngInfo, MngData}

abbrev pub undef_port : ℕ → ℕ → PortInfo
undef_port i q = record zero_info {
  iface_type = PortType.undef;
  iface_no = i;
  ethdev_port_id = none;
  queue_no = q;
  cls_attrs = record zero_cls_attrs { vlantag = record zero_tag { vid = eth_vlan_id_max } };
}

abbrev pub init_queue : ℕ → ℕ → MngData → MngData
init_queue i q s = record s { phy = update s.phy i (update (s.phy i) q (undef_port i q)) }

abbrev pub init_vhost_ring : ℕ → MngData → MngData
init_vhost_ring i s = record s {
  vhost = update s.vhost i (undef_port i 0);
  ring = update s.ring i (undef_port i 0);
}

-- RTE_MAX_ETHPORTS and RTE_MAX_QUEUES_PER_PORT.
pub init_iface_info : ℕ → ℕ → MngData → MngData
init_iface_info max_ethports max_queues s =
    for_from max_ethports 0 (λ i t. init_vhost_ring i (for_from max_queues 0 (init_queue i) t))
      (record s { phy = λ i q. zero_info; vhost = λ i. zero_info; ring = λ i. zero_info })

abbrev pub number_component : ℕ → MngData → MngData
number_component cnt s = record s {
  component = update s.component cnt (record (s.component cnt) { comp_id = cnt });
}

unfoldable pub init_component_infos : ℕ → MngData → MngData
init_component_infos max_lcore s =
    record (for_from max_lcore 0 number_component (record s { component = λ i. zero_comp })) {
      change_component = λ i. false;
    }

abbrev pub zero_core : CoreMngInfo
zero_core = record {
  status = LcoreStatus.unused;
  ref_index = 0;
  upd_index = 0;
  core = λ side. record { num = 0; id = λ i. 0 };
}

-- `set_all_core_status`; the list is that of the slave lcores.
pub set_all_core_status : List ℕ → LcoreStatus → MngData → MngData
set_all_core_status [] st s = s
set_all_core_status (i ∷ is) st s =
    set_all_core_status is st
      (record s { core = update s.core i (record (s.core i) { status = st }) })

abbrev pub side_core : ℕ → MngData → MngData
side_core cnt s = record s {
  core = update s.core cnt (record (s.core cnt) { ref_index = 0; upd_index = 1 });
}

pub init_core_info : ℕ → List ℕ → MngData → MngData
init_core_info max_lcore slaves s =
    record (for_from max_lcore 0 side_core
      (set_all_core_status slaves LcoreStatus.stopped (record s { core = λ i. zero_core }))) {
        change_core = λ i. false;
      }

-- The first part of `init_mng_data`.
unfoldable pub init_mng_data : ℕ → ℕ → ℕ → List ℕ → MngData → MngData
init_mng_data max_ethports max_queues max_lcore slaves s =
    init_component_infos max_lcore
      (init_core_info max_lcore slaves (init_iface_info max_ethports max_queues s))
