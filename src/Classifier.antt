-- ===== src/Classifier.antt =====
-- src/vf/classifier.c: the classifier of spp_vf, its tables and their update.
-- The wait in `update_classifier` is left to the caller: `update_classifier` is the part before it,
-- `clean_old` the part behind it. `rte_hash`, the allocation and `rte_is_multicast_ether_addr` are
-- parameters.
pub mod Search
pub mod Build
pub mod Loop
use spp_tmp.Base.{
  ℕ, zero, suc, ◌+◌, ◌*◌, ◌/◌, ◌%◌, ◌^◌, ◌≡◌, Bool, true, false, ◌&&◌, ◌||◌, not, Option, none,
  some, List, [], ◌∷◌, ◌++◌, ◌==◌, if◌then◌else◌, ltb, update, list_eq,
}
use spp_tmp.PortManager.{PortType}
use spp_tmp.WorkerTypes.{
  PortIdx, PortInfo, PortArray, CompInfo, zero_info, two_sides, eth_vlan_id_max,
}
use spp_tmp.Forwarder.{to_uint16}

-- A table of MAC addresses, six bytes each, with an index for each. `create n` is the attempt number
-- `n` to allocate one; the laws are the documented behaviour of `rte_hash`.
pub record MacHash : Type 1 where
  pub Table : Type 0
  pub create : ℕ → Option Table
  pub add_key_data : List ℕ → ℕ → Table → Option Table
  pub lookup_data : List ℕ → Table → Option ℕ
  pub is_multicast : List ℕ → Bool
  pub lookup-create : (n : ℕ) (k : List ℕ) {t : Table} → create n ≡ some t → lookup_data k t ≡ none
  pub lookup-add :
      (k j : List ℕ) (i : ℕ) (t : Table) {u : Table}
      → add_key_data k i t ≡ some u
      → lookup_data j u ≡ (if list_eq j k then some i else lookup_data j t)

-- `rte_memcpy(&eth_addr, &mac_addr, 6)` of a little-endian `uint64_t`.
abbrev pub mac_key : ℕ → List ℕ
mac_key m =
    m % 256
    ∷ (m / 256 % 256)
    ∷ (m / 65536 % 256)
    ∷ (m / 16777216 % 256)
    ∷ (m / 4294967296 % 256)
    ∷ (m / 1099511627776 % 256)
    ∷ []

abbrev pub vlan_untagged_vid : ℕ
vlan_untagged_vid = 0x0fff

abbrev pub cls_dummy_addr : ℕ
cls_dummy_addr = 0x0100_0000_0000

-- `pkts` up to `nof_pkts`.
pub record ClsPort : Type 0 where
  pub iface_type : PortType
  pub iface_no : ℕ
  pub queue_no : ℕ
  pub iface_no_global : ℕ
  pub ethdev_port_id : ℕ
  pub pkts : List ℕ

abbrev pub zero_cls_port : ClsPort
zero_cls_port = record {
  iface_type = PortType.phy;
  iface_no = 0;
  queue_no = 0;
  iface_no_global = 0;
  ethdev_port_id = 0;
  pkts = [];
}

-- `cls_ports` up to `nof_cls_ports`.
pub record MacClassifier (h : MacHash) : Type 0 where
  pub cls_tbl : h.Table
  pub cls_ports : List ℕ
  pub default_cls_idx : Option ℕ

pub record ClsComp (h : MacHash) : Type 0 where
  pub name : List ℕ
  pub mac_addr_entry : Bool
  pub mac_clfs : ℕ → Option (MacClassifier h)
  pub nof_tx_ports : ℕ
  pub rx_port : ClsPort
  pub tx_ports : ℕ → ClsPort

pub record ClsMng (h : MacHash) : Type 0 where
  pub comp_list : ℕ → ClsComp h
  pub ref_index : ℕ
  pub upd_index : ℕ
  pub is_used : Bool

module _ (h : MacHash) where
  abbrev pub zero_cls_comp : ClsComp h
  zero_cls_comp = record {
    name = [];
    mac_addr_entry = false;
    mac_clfs = λ _. none;
    nof_tx_ports = 0;
    rx_port = zero_cls_port;
    tx_ports = λ _. zero_cls_port;
  }

  -- `clean_classifier`, and an entry after `init_cls_mng_info`: both sides are 0.
  unfoldable pub clean_classifier : ClsMng h
  clean_classifier = record {
    comp_list = λ _. zero_cls_comp;
    ref_index = 0;
    upd_index = 0;
    is_used = false;
  }

  unfoldable pub create_mac_classification : ℕ → Option (MacClassifier h)
  create_mac_classification count = elim (h.create count) [
    | none ↦ none
    | some t ↦ some (record { cls_tbl = t; cls_ports = []; default_cls_idx = none })
  ]

  abbrev pub cls_port_of : ℕ → PortInfo → ClsPort
  cls_port_of i port = record {
    iface_type = port.iface_type;
    iface_no = i;
    queue_no = port.queue_no;
    iface_no_global = port.iface_no;
    ethdev_port_id = to_uint16 port.ethdev_port_id;
    pkts = [];
  }

  -- The instance of a VLAN ID, made if it is missing. `count` numbers the allocations.
  unfoldable pub get_or_create : ℕ → Option (MacClassifier h) → Option (MacClassifier h)
  get_or_create count (some m) = some m
  get_or_create count none = create_mac_classification count

  abbrev pub next_count : ℕ → Option (MacClassifier h) → ℕ
  next_count count (some m) = count
  next_count count none = count + 1

  abbrev pub put_clf : ℕ → MacClassifier h → ClsComp h → ClsComp h
  put_clf vid m c = record c { mac_clfs = update c.mac_clfs vid (some m); mac_addr_entry = true }

  -- The rest of a round: TX port `i` has the MAC address `mac`, its VLAN ID the instance `m`.
  unfoldable pub register : ℕ → ℕ → ℕ → MacClassifier h → ClsComp h → Bool × ClsComp h
  register i vid mac m c =
      let m' = record m { cls_ports = m.cls_ports ++ i ∷ [] } in
      if mac == cls_dummy_addr
      then (true, put_clf vid (record m' { default_cls_idx = some i }) c)
      else elim (h.add_key_data (mac_key mac) i m.cls_tbl) [
        | none ↦ (false, put_clf vid m' c)
        | some t ↦ (true, put_clf vid (record m' { cls_tbl = t }) c)
      ]

  -- One round of the loop over the TX ports; `false` is the return of SPPWK_RET_NG, with what was
  -- written until then.
  unfoldable pub init_tx_port : PortInfo → ℕ → ClsComp h × ℕ → Bool × ClsComp h × ℕ
  init_tx_port port i (c, count) =
      let vid = port.cls_attrs.vlantag.vid in
      let mac = port.cls_attrs.mac_addr in
      let c' = record c { tx_ports = update c.tx_ports i (cls_port_of i port) } in
      if mac == 0 then (true, c', count) else elim (get_or_create count (c.mac_clfs vid)) [
        | none ↦ (false, c', next_count count (c.mac_clfs vid))
        | some m ↦ let (b, d) = register i vid mac m c' in (b, d, next_count count (c.mac_clfs vid))
      ]

  module _ (deref : PortIdx → PortInfo) where
    unfoldable pub init_tx_ports : PortArray → ℕ → ℕ → ClsComp h × ℕ → Bool × ClsComp h × ℕ
    init_tx_ports ports zero i s = (true, s.0, s.1)
    init_tx_ports ports (suc n) i s =
        let (b, c, count) = init_tx_port (deref (ports.ptr i)) i s in
        let rest = init_tx_ports ports n (i + 1) (c, count) in if b then rest else (false, c, count)

    abbrev pub cls_rx_port : CompInfo → ClsPort
    cls_rx_port wk =
        if wk.rx.nof == 0
        then record zero_cls_port { iface_type = PortType.undef }
        else record (cls_port_of 0 (deref (wk.rx.ptr 0))) { iface_no = 0 }

    unfoldable pub init_component_info : CompInfo → ClsComp h × ℕ → Bool × ClsComp h × ℕ
    init_component_info wk (c, count) = init_tx_ports wk.tx wk.tx.nof 0 (
      record c { rx_port = cls_rx_port wk; nof_tx_ports = wk.tx.nof; mac_addr_entry = false },
      count,
    )

    abbrev pub put_comp : ℕ → ClsComp h → ClsMng h → ClsMng h
    put_comp side c mng = record mng { comp_list = update mng.comp_list side c }

    unfoldable pub update_classifier : CompInfo → ClsMng h × ℕ → Bool × ClsMng h × ℕ
    update_classifier wk (mng, count) =
        let (b, c, count') = init_component_info wk (mng.comp_list mng.upd_index, count) in
        if b
        then (
          true,
          record (put_comp mng.upd_index (record c { name = wk.name }) mng) {
            upd_index = mng.ref_index;
            is_used = true;
          },
          count',
        )
        else (false, put_comp mng.upd_index c mng, count')

  unfoldable pub clean_old : ClsMng h → ClsMng h
  clean_old mng = record mng { comp_list = update mng.comp_list mng.upd_index zero_cls_comp }

  unfoldable pub is_waiting : ClsMng h → Bool
  is_waiting mng = mng.ref_index == mng.upd_index
