-- ===== src/Tests/Data.antt =====
-- The tables, ports and packets of the tests.
use spp_tmp.Base.{ℕ, refl, true, false, none, some, [], ◌∷◌, ◌==◌, if◌then◌else◌, arith, replicate}
use spp_tmp.Ethdev.{Medium, start}
use spp_tmp.PortManager.{PortType, PortState, port_reset, get_port_max_queues}
use spp_tmp.PortManager.Wired.{IsWired, FitsQueues}
use spp_tmp.WorkerTypes.{
  PortDir, PortOps, PortAttrs, PortInfo, PortIdx, CompInfo, WorkerType, zero_info, zero_attrs,
  zero_comp, null_port,
}
use spp_tmp.Capability.{CapState, Column, zero_sides}
use spp_tmp.Forwarder.{ForwardInfo, ForwardPath, zero_path}

-- Queue 0 of port 0 is patched to port 1, queue 0 of port 2 to port 3; each port has one queue.
abbrev pub out_of : ℕ → ℕ
out_of i = if i == 0 then 1 else if i == 2 then 3 else port_reset

abbrev pub two_patches : PortState
two_patches = record {
  fwd = λ i j. record {
    in_port_id = i;
    in_queue_id = j;
    out_port_id = out_of i;
    out_queue_id = 0;
    has_funcs = true;
  };
  port_map = λ i. record { id = i; port_type = PortType.phy; stats = i; queue_info = none };
  stats_mem = λ i. record { rx = 0; rx_drop = 0; tx = 0; tx_drop = 0 };
}

pub two_patches-IsWired : IsWired 4 1 two_patches
two_patches-IsWired i j hi hj = (λ _. refl, λ _. refl)

pub two_patches-FitsQueues : FitsQueues 1 two_patches
unfolding get_port_max_queues
two_patches-FitsQueues i = omega arith

-- No port is in use.
abbrev pub no_patches : PortState
no_patches = record {
  fwd = λ i j. record {
    in_port_id = port_reset;
    in_queue_id = 0;
    out_port_id = port_reset;
    out_queue_id = 0;
    has_funcs = false;
  };
  port_map = λ i. record { id = i; port_type = PortType.phy; stats = i; queue_info = none };
  stats_mem = λ i. record { rx = 0; rx_drop = 0; tx = 0; tx_drop = 0 };
}

pub no_patches-IsWired : IsWired 4 1 no_patches
no_patches-IsWired i j hi hj = (λ h. absurd (h refl), λ h. absurd (h refl))

-- Port 0 has three packets, and a device takes two of a burst.
abbrev pub loaded : Medium
loaded = record start {
  pending = λ p. if p == 0 then 70 ∷ 71 ∷ 72 ∷ [] else [];
  limit = 2;
  frames = λ m. replicate 20 m;
}

-- VLAN 100, priority 3.
abbrev pub add_100 : PortAttrs
add_100 = record {
  ops = PortOps.add_vlan;
  dir = PortDir.tx_dir;
  vlantag = record { vid = 100; pcp = 3; tci = (0, 0) };
}

abbrev pub del_tag : PortAttrs
del_tag = record zero_attrs { ops = PortOps.del_vlan; dir = PortDir.rx_dir }

abbrev pub tagging_port : PortInfo
tagging_port = record zero_info { ethdev_port_id = some 1; port_attrs = del_tag ∷ add_100 ∷ [] }

abbrev pub fresh_column : Column
fresh_column = record { size = 4; mng = λ _. zero_sides; num = 0; list = λ _. 0 }

abbrev pub fresh_caps : CapState
fresh_caps = record {
  iface_type = λ _. PortType.phy;
  iface_no = λ _. 0;
  rx = fresh_column;
  tx = fresh_column;
}

-- Port 1 adds the tag to what it sends.
abbrev pub tagging_caps : CapState
tagging_caps = record fresh_caps {
  tx = record fresh_column {
    mng = λ _. record zero_sides { port_attrs = λ _. add_100 ∷ replicate 3 zero_attrs };
  };
}

abbrev pub port_at : PortIdx → PortInfo
port_at k = record zero_info { ethdev_port_id = some k.iface_no }

-- A forwarder from port 0 to port 1.
abbrev pub fwd_comp : CompInfo
fwd_comp = record zero_comp {
  name = 102 ∷ 49 ∷ [];
  wk_type = WorkerType.forwarder;
  rx = record { nof = 1; ptr = λ _. record null_port { iface_type = PortType.phy; iface_no = 0 } };
  tx = record { nof = 1; ptr = λ _. record null_port { iface_type = PortType.phy; iface_no = 1 } };
}

abbrev pub fwd_path : ForwardPath
fwd_path = record zero_path {
  wk_type = WorkerType.forwarder;
  nof_rx = 1;
  nof_tx = 1;
  rx = λ _. record zero_info { ethdev_port_id = some 0 };
  tx = λ _. record zero_info { ethdev_port_id = some 1 };
}

abbrev pub fwd_info : ForwardInfo
fwd_info = record { ref_index = 0; upd_index = 1; path = λ _. fwd_path }
