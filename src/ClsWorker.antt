-- ===== src/ClsWorker.antt =====
-- src/vf/classifier.c: the thread of a classifier, `classify_packets` and what it calls.
-- The TX buffer of a port is `ClsPort.pkts`. The time stamp counter is an argument.
pub mod Select
pub mod Bounds
pub mod Routes
pub mod Balance
pub mod Protocol
pub mod Copies
pub mod Conserve
use spp_tmp.Base.{
  ℕ, zero, suc, ◌+◌, ◌-◌, ◌%◌, Bool, true, false, ◌&&◌, ◌||◌, not, Option, none, some, List, [],
  ◌∷◌, ◌++◌, ◌==◌, if◌then◌else◌, ltb, leb, update, for_from, length, take, drop,
}
use spp_tmp.Ethdev.{Ethdev, free_all}
use spp_tmp.BasicForwarder.{max_pkt_burst}
use spp_tmp.PortManager.{PortType}
use spp_tmp.WorkerTypes.{two_sides}
use spp_tmp.Capability.{CapState, swap_ref}
use spp_tmp.Vlan.{get_vid, eth_vlan_rx_burst, eth_vlan_tx_burst}
use spp_tmp.Classifier.{MacHash, MacClassifier, ClsPort, ClsComp, ClsMng, vlan_untagged_vid}

-- A destination: the index of a TX port, -1 or -2.
pub data Selected : Type 0 where
  to_port : ℕ → Selected
  no_entry l2_multicast : Selected

abbrev pub selected_of : Option ℕ → Selected
selected_of none = no_entry
selected_of (some i) = to_port i

abbrev pub is_undef : PortType → Bool
is_undef PortType.undef = true
is_undef _ = false

module _ (h : MacHash) where
  pub get_general_default_classified_index : ClsComp h → Option ℕ
  get_general_default_classified_index c = elim (c.mac_clfs vlan_untagged_vid) [
    | none ↦ none
    | some m ↦ m.default_cls_idx
  ]

  -- The default of an instance, or else the general default.
  abbrev pub default_of : ℕ → MacClassifier h → ClsComp h → Option ℕ
  default_of vid m c = elim m.default_cls_idx [
    | some i ↦ some i
    | none ↦ if vid == vlan_untagged_vid then none else get_general_default_classified_index c
  ]

  -- Of the bytes of a packet.
  pub select_classified_index : List ℕ → ClsComp h → Selected
  select_classified_index f c = elim (c.mac_clfs (get_vid f)) [
    | none ↦ selected_of (get_general_default_classified_index c)
    | some m ↦ elim (h.lookup_data (take 6 f) m.cls_tbl) [
      | some i ↦ to_port i
      | none ↦
          if h.is_multicast (take 6 f)
          then l2_multicast
          else selected_of (default_of (get_vid f) m c)
    ]
  ]

  module _ (eth : Ethdev) (caps : CapState) where
    open eth use {World, frame, refcnt_update, pktmbuf_free}

    pub transmit_packets : ClsPort → World → ClsPort × World
    transmit_packets p w =
        let (n_tx, v) = eth_vlan_tx_burst eth caps p.ethdev_port_id p.queue_no p.pkts w in
        (
          record p { pkts = [] },
          if n_tx == length p.pkts then v else free_all eth (drop n_tx p.pkts) v,
        )

    pub push_packet : ℕ → ClsPort → World → ClsPort × World
    push_packet pkt p w =
        let q = record p { pkts = p.pkts ++ pkt ∷ [] } in
        if length q.pkts == max_pkt_burst then transmit_packets q w else (q, w)

    -- `push_packet(pkt, clsd_data + i)`
    pub push_to : ℕ → ℕ → ClsComp h × World → ClsComp h × World
    push_to pkt i (c, w) =
        let (p, v) = push_packet pkt (c.tx_ports i) w in
        (record c { tx_ports = update c.tx_ports i p }, v)

    pub drain_port : ℕ → ClsComp h × World → ClsComp h × World
    drain_port i (c, w) =
        if length (c.tx_ports i).pkts == 0
        then (c, w)
        else (let (p, v) = transmit_packets (c.tx_ports i) w in
            (record c { tx_ports = update c.tx_ports i p }, v))

    pub transmit_all_packet : ClsComp h × World → ClsComp h × World
    transmit_all_packet (c, w) = for_from c.nof_tx_ports 0 drain_port (c, w)

    pub push_each : ℕ → List ℕ → ClsComp h × World → ClsComp h × World
    push_each pkt [] s = s
    push_each pkt (i ∷ is) s = push_each pkt is (push_to pkt i s)

    -- The general default, unless the packet has no VLAN tag.
    abbrev pub extra_default : ℕ → ClsComp h → Option ℕ
    extra_default vid c =
        if vid == vlan_untagged_vid then none else get_general_default_classified_index c

    abbrev pub push_extra : ℕ → Option ℕ → ClsComp h × World → ClsComp h × World
    push_extra pkt none s = s
    push_extra pkt (some i) s = push_to pkt i s

    abbrev pub count_of : Option ℕ → ℕ
    count_of none = 0
    count_of (some i) = 1

    pub push_default : ℕ → ClsComp h × World → ClsComp h × World
    push_default pkt (c, w) = elim (get_general_default_classified_index c) [
      | none ↦ (c, pktmbuf_free pkt w)
      | some i ↦ push_to pkt i (c, w)
    ]

    -- The copies for the members of the packet's VLAN, and for the general default.
    pub push_members : ℕ → ℕ → List ℕ → ClsComp h × World → ClsComp h × World
    push_members pkt vid members (c, w) = push_extra pkt (extra_default vid c) (
        push_each pkt members
          (c, refcnt_update pkt (length members + count_of (extra_default vid c) - 1) w))

    pub handle_l2multicast_packet : ℕ → ClsComp h × World → ClsComp h × World
    handle_l2multicast_packet pkt (c, w) = elim (c.mac_clfs (get_vid (frame pkt w))) [
      | none ↦ push_default pkt (c, w)
      | some m ↦
          if length m.cls_ports == 0
          then push_default pkt (c, w)
          else push_members pkt (get_vid (frame pkt w)) m.cls_ports (c, w)
    ]

    pub classify_one : ℕ → ClsComp h × World → ClsComp h × World
    classify_one pkt (c, w) = elim (select_classified_index (frame pkt w) c) [
      | to_port i ↦ push_to pkt i (c, w)
      | no_entry ↦ (c, pktmbuf_free pkt w)
      | l2_multicast ↦ handle_l2multicast_packet pkt (c, w)
    ]

    -- `_classify_packets`
    pub classify_all : List ℕ → ClsComp h × World → ClsComp h × World
    classify_all [] s = s
    classify_all (pkt ∷ pkts) s = classify_all pkts (classify_one pkt s)

    abbrev pub is_ready : ClsComp h → Bool
    is_ready c = not (is_undef c.rx_port.iface_type) && leb 1 c.nof_tx_ports && c.mac_addr_entry

    -- `cur_tsc - prev_tsc > drain_tsc`, where `prev_tsc` is a local variable that is 0.
    pub drain : ℕ → ℕ → ClsComp h × World → ClsComp h × World
    drain cur_tsc drain_tsc s = if ltb drain_tsc cur_tsc then transmit_all_packet s else s

    pub receive : ClsComp h × World → ClsComp h × World
    receive (c, w) =
        let (pkts, v) =
          eth_vlan_rx_burst eth caps c.rx_port.ethdev_port_id c.rx_port.queue_no max_pkt_burst w in
        classify_all pkts (c, v)

    -- `classify_packets` behind `change_classifier_index`.
    pub classify_side : ℕ → ℕ → ClsComp h × World → ClsComp h × World
    classify_side cur_tsc drain_tsc (c, w) =
        if is_ready c then receive (drain cur_tsc drain_tsc (c, w)) else (c, w)

  module _ (eth : Ethdev) where
    open eth use {World}

    abbrev pub on_side :
        (ClsComp h × World → ClsComp h × World) → ClsMng h × World → ClsMng h × World
    on_side f (mng, w) =
        let (c, v) = f (mng.comp_list mng.ref_index, w) in
        (record mng { comp_list = update mng.comp_list mng.ref_index c }, v)

    -- What is buffered goes out under the attributes that `sppwk_swap_two_sides` switches to.
    pub change_classifier_index : ClsMng h × CapState × World → ClsMng h × CapState × World
    change_classifier_index (mng, caps, w) =
        if mng.ref_index == mng.upd_index
        then (let (mng', v) = on_side (transmit_all_packet eth (swap_ref caps)) (mng, w) in
            (record mng' { ref_index = (mng'.upd_index + 1) % two_sides }, swap_ref caps, v))
        else (mng, caps, w)

    pub classify_packets : ℕ → ℕ → ClsMng h × CapState × World → ClsMng h × CapState × World
    classify_packets cur_tsc drain_tsc s =
        let (mng, caps, w) = change_classifier_index s in
        let (mng', v) = on_side (classify_side eth caps cur_tsc drain_tsc) (mng, w) in
        (mng', caps, v)
