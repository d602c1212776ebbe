-- ===== src/Tests/Table.antt =====
-- An address table as a list, which meets the laws of `rte_hash`, and a classifier's component.
use spp_tmp.Base.{
  ℕ, ◌%◌, ◌≡◌, refl, arith, Option, none, some, List, [], ◌∷◌, ◌==◌, if◌then◌else◌, get_or, list_eq,
}
use spp_tmp.PortManager.{PortType}
use spp_tmp.WorkerTypes.{
  PortIdx, PortInfo, CompInfo, WorkerType, zero_info, zero_cls_attrs, zero_tag, zero_comp,
  null_port,
}
use spp_tmp.Classifier.{MacHash, cls_dummy_addr}

abbrev pub Entries : Type 0
Entries = List (List ℕ × ℕ)

abbrev pub find_entry : List ℕ → Entries → Option ℕ
find_entry k [] = none
find_entry k ((j, i) ∷ t) = if list_eq k j then some i else find_entry k t

pub created :
    (k : List ℕ) (t : Entries) → Path (Option Entries) (some []) (some t) → find_entry k t ≡ none
created k [] e = refl
created k (x ∷ t) e = absurd (ground arith)

pub added :
    (k j : List ℕ) (i : ℕ) (t u : Entries)
    → Path (Option Entries) (some ((k, i) ∷ t)) (some u)
    → find_entry j u ≡ (if list_eq j k then some i else find_entry j t)
added k j i t u e = ground arith

abbrev pub list_table : MacHash
list_table = record {
  Table = Entries;
  create = λ n. some [];
  add_key_data = λ k i t. some ((k, i) ∷ t);
  lookup_data = find_entry;
  is_multicast = λ k. get_or k 0 0 % 2 == 1;
  lookup-create = λ n k {t} e. created k t e;
  lookup-add = λ k j i t {u} e. added k j i t u e;
}

-- TX port 0 has the address 02:02:03:04:05:06, TX port 1 is the default.
abbrev pub cls_port : PortIdx → PortInfo
cls_port k = record zero_info {
  ethdev_port_id = some k.iface_no;
  cls_attrs = record zero_cls_attrs {
    mac_addr = if k.iface_no == 0 then 0x060504030202 else cls_dummy_addr;
    vlantag = record zero_tag { vid = 0x0fff };
  };
}

abbrev pub cls_comp : CompInfo
cls_comp = record zero_comp {
  name = 99 ∷ [];
  wk_type = WorkerType.cls;
  rx = record { nof = 1; ptr = λ i. record null_port { iface_type = PortType.phy; iface_no = 5 } };
  tx = record { nof = 2; ptr = λ i. record null_port { iface_type = PortType.phy; iface_no = i } };
}
