-- ===== src/WorkerTypes.antt =====
-- src/shared/secondary/spp_worker_th/data_types.h: the types that the worker processes share.
-- A pointer to a `sppwk_port_info` is the resource that it stands for, since each resource has one
-- entry of `iface_info`: an index `PortIdx` (see Manager). -1 in an `int` is `none`.
use spp_tmp.Base.{ℕ, ◌+◌, ◌*◌, ◌/◌, ◌%◌, Bool, true, false, Option, some, List, [], replicate}
use spp_tmp.PortManager.{PortType}

pub data LcoreStatus : Type 0 where
  unused stopped idling running req_stop : LcoreStatus

pub data PortDir : Type 0 where
  none_dir rx_dir tx_dir both_dir : PortDir

abbrev pub dir_no : PortDir → ℕ
dir_no PortDir.none_dir = 0
dir_no PortDir.rx_dir = 1
dir_no PortDir.tx_dir = 2
dir_no PortDir.both_dir = 3

pub data PortOps : Type 0 where
  no_ops add_vlan del_vlan : PortOps

abbrev pub is_no_ops : PortOps → Bool
is_no_ops PortOps.no_ops = true
is_no_ops _ = false

abbrev pub is_add_vlan : PortOps → Bool
is_add_vlan PortOps.add_vlan = true
is_add_vlan _ = false

-- A 16-bit field in network byte order is its two bytes, as they lie in memory.
abbrev pub Be16 : Type 0
Be16 = ℕ × ℕ

abbrev pub cpu_to_be_16 : ℕ → Be16
cpu_to_be_16 v = (v / 256 % 256, v % 256)

abbrev pub be_to_cpu_16 : Be16 → ℕ
be_to_cpu_16 (hi, lo) = hi * 256 + lo

pub record VlanTag : Type 0 where
  pub vid : ℕ
  pub pcp : ℕ
  pub tci : Be16

-- The union of capabilities has one member.
pub record PortAttrs : Type 0 where
  pub ops : PortOps
  pub dir : PortDir
  pub vlantag : VlanTag

pub data WorkerType : Type 0 where
  no_type cls mrg forwarder mir : WorkerType

abbrev pub is_no_type : WorkerType → Bool
is_no_type WorkerType.no_type = true
is_no_type _ = false

abbrev pub is_cls : WorkerType → Bool
is_cls WorkerType.cls = true
is_cls _ = false

-- `mac_addr` is the 48-bit value of `sppwk_convert_mac_str_to_int64`: the first byte is the lowest.
pub record ClsAttrs : Type 0 where
  pub mac_addr : ℕ
  pub mac_addr_str : List ℕ
  pub vlantag : VlanTag

pub record PortIdx : Type 0 where
  pub iface_type : PortType
  pub iface_no : ℕ
  pub queue_no : ℕ

pub record PortInfo : Type 0 where
  pub iface_type : PortType
  pub iface_no : ℕ
  pub ethdev_port_id : Option ℕ
  pub queue_no : ℕ
  pub cls_attrs : ClsAttrs
  pub port_attrs : List PortAttrs

-- The NULL pointer, which stands in the unused entries of an array of ports.
abbrev pub null_port : PortIdx
null_port = record { iface_type = PortType.undef; iface_no = 0; queue_no = 0 }

-- `nof_rx` with `rx_ports`, or `nof_tx` with `tx_ports`.
pub record PortArray : Type 0 where
  pub nof : ℕ
  pub ptr : ℕ → PortIdx

pub record CompInfo : Type 0 where
  pub name : List ℕ
  pub wk_type : WorkerType
  pub lcore_id : ℕ
  pub comp_id : ℕ
  pub rx : PortArray
  pub tx : PortArray

-- What `memset` to 0 makes of the records.
abbrev pub zero_tag : VlanTag
zero_tag = record { vid = 0; pcp = 0; tci = (0, 0) }

abbrev pub zero_attrs : PortAttrs
zero_attrs = record { ops = PortOps.no_ops; dir = PortDir.none_dir; vlantag = zero_tag }

abbrev pub port_capabl_max : ℕ
port_capabl_max = 4

abbrev pub two_sides : ℕ
two_sides = 2

-- `ETH_VLAN_ID_MAX` of rte_ethdev.h and `VLAN_UNTAGGED_VID` of vf/classifier.c
abbrev pub eth_vlan_id_max : ℕ
eth_vlan_id_max = 0x0fff

abbrev pub zero_cls_attrs : ClsAttrs
zero_cls_attrs = record { mac_addr = 0; mac_addr_str = []; vlantag = zero_tag }

-- PHY is 0.
abbrev pub zero_info : PortInfo
zero_info = record {
  iface_type = PortType.phy;
  iface_no = 0;
  ethdev_port_id = some 0;
  queue_no = 0;
  cls_attrs = zero_cls_attrs;
  port_attrs = replicate port_capabl_max zero_attrs;
}

abbrev pub zero_array : PortArray
zero_array = record { nof = 0; ptr = λ _. null_port }

abbrev pub zero_comp : CompInfo
zero_comp = record {
  name = [];
  wk_type = WorkerType.no_type;
  lcore_id = 0;
  comp_id = 0;
  rx = zero_array;
  tx = zero_array;
}
