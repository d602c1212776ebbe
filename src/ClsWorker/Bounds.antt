-- ===== src/ClsWorker/Bounds.antt =====
-- The TX buffers of src/vf/classifier.c: no packet is stored behind the end of `pkts`.
use spp_tmp.Base.{
  ℕ, ◌<◌, ◌≡◌, refl, Option, none, some, List, [], ◌∷◌, ◌==◌, arith, Bool-cases, Option-cases, inl,
  inr, length, length-append, update, update_self, update_ne, ℕ_discrete, for_from_inv, ◌⊎◌, subst,
  sym,
}
use spp_tmp.Ethdev.{Ethdev}
use spp_tmp.BasicForwarder.{max_pkt_burst}
use spp_tmp.Capability.{CapState, swap_ref}
use spp_tmp.Vlan.{get_vid}
use spp_tmp.Classifier.{MacHash, ClsComp, ClsPort, ClsMng}
use spp_tmp.ClsWorker.{
  Selected, to_port, no_entry, l2_multicast, select_classified_index,
  get_general_default_classified_index, transmit_packets, push_packet, push_to, drain_port,
  transmit_all_packet, push_each, push_extra, push_default, push_members, handle_l2multicast_packet,
  classify_one, classify_all, drain, receive, classify_side, change_classifier_index,
  classify_packets, is_ready,
}

pub Selected-cases :
    (x : Selected) → ((i : ℕ) × (x ≡ to_port i)) ⊎ ((x ≡ no_entry) ⊎ (x ≡ l2_multicast))
Selected-cases (to_port i) = inl (i, refl)
Selected-cases no_entry = inr (inl refl)
Selected-cases l2_multicast = inr (inr refl)

-- A buffer with room for one more packet.
abbrev pub HasRoom : ClsPort → Type 0
HasRoom p = length p.pkts < max_pkt_burst

-- Every TX buffer has.
abbrev pub AllRoom : {h : MacHash} → ClsComp h → Type 0
AllRoom c = (i : ℕ) → HasRoom (c.tx_ports i)

module _ (h : MacHash) where
  put-AllRoom :
      (c : ClsComp h) (i : ℕ) (p : ClsPort)
      → AllRoom c
      → HasRoom p
      → AllRoom (record c { tx_ports = update c.tx_ports i p })
  put-AllRoom c i p all room j = elim (ℕ_discrete j i) [
    | yes e ↦ ground arith
    | no ne ↦ subst HasRoom (sym (update_ne c.tx_ports i j p ne)) (all j)
  ]

  module _ (eth : Ethdev) (caps : CapState) where
    open eth use {World}

    push_packet-HasRoom :
        (pkt : ℕ) (p : ClsPort) (w : World) → HasRoom p → HasRoom (push_packet h eth caps pkt p w).0
    unfolding push_packet transmit_packets
    push_packet-HasRoom pkt p w room = ground (arith, length-append p.pkts (pkt ∷ []))

    push_to-AllRoom :
        (pkt i : ℕ) (s : ClsComp h × World) → AllRoom s.0 → AllRoom (push_to h eth caps pkt i s).0
    unfolding push_to
    push_to-AllRoom pkt i (c, w) all =
        put-AllRoom c i (push_packet h eth caps pkt (c.tx_ports i) w).0 all
          (push_packet-HasRoom pkt (c.tx_ports i) w (all i))

    push_each-AllRoom :
        (pkt : ℕ) (is : List ℕ) (s : ClsComp h × World)
        → AllRoom s.0
        → AllRoom (push_each h eth caps pkt is s).0
    unfolding push_each
    push_each-AllRoom pkt [] s all = all
    push_each-AllRoom pkt (i ∷ is) s all =
        push_each-AllRoom pkt is (push_to h eth caps pkt i s) (push_to-AllRoom pkt i s all)

    push_extra-AllRoom :
        (pkt : ℕ) (o : Option ℕ) (s : ClsComp h × World)
        → AllRoom s.0
        → AllRoom (push_extra h eth caps pkt o s).0
    push_extra-AllRoom pkt none s all = all
    push_extra-AllRoom pkt (some i) s all = push_to-AllRoom pkt i s all

    push_default-AllRoom :
        (pkt : ℕ) (s : ClsComp h × World) → AllRoom s.0 → AllRoom (push_default h eth caps pkt s).0
    unfolding push_default
    push_default-AllRoom pkt (c, w) all =
        elim (Option-cases (get_general_default_classified_index h c)) [
          | inl e ↦ rw (e, push_default) all
          | inr (i, e) ↦ rw (e, push_default) (push_to-AllRoom pkt i (c, w) all)
        ]

    push_members-AllRoom :
        (pkt vid : ℕ) (is : List ℕ) (s : ClsComp h × World)
        → AllRoom s.0
        → AllRoom (push_members h eth caps pkt vid is s).0
    unfolding push_members
    push_members-AllRoom pkt vid is (c, w) all =
        push_extra-AllRoom pkt _ _ (push_each-AllRoom pkt is (c, _) all)

    multicast-AllRoom :
        (pkt : ℕ) (s : ClsComp h × World)
        → AllRoom s.0
        → AllRoom (handle_l2multicast_packet h eth caps pkt s).0
    unfolding handle_l2multicast_packet
    multicast-AllRoom pkt (c, w) all =
        elim (Option-cases (c.mac_clfs (get_vid (eth.frame pkt w)))) [
          | inl e ↦ rw (e, handle_l2multicast_packet) (push_default-AllRoom pkt (c, w) all)
          | inr (m, e) ↦ elim (Bool-cases (length m.cls_ports == 0)) [
            | inl z ↦ rw (e, handle_l2multicast_packet, z) (push_default-AllRoom pkt (c, w) all)
            | inr z ↦
                rw (e, handle_l2multicast_packet, z)
                  (push_members-AllRoom pkt _ m.cls_ports (c, w) all)
          ]
        ]

    classify_one-AllRoom :
        (pkt : ℕ) (s : ClsComp h × World) → AllRoom s.0 → AllRoom (classify_one h eth caps pkt s).0
    unfolding classify_one
    classify_one-AllRoom pkt (c, w) all =
        elim (Selected-cases (select_classified_index h (eth.frame pkt w) c)) [
          | inl (i, e) ↦ rw (e, classify_one) (push_to-AllRoom pkt i (c, w) all)
          | inr (inl e) ↦ rw (e, classify_one) all
          | inr (inr e) ↦ rw (e, classify_one) (multicast-AllRoom pkt (c, w) all)
        ]

    classify_all-AllRoom :
        (pkts : List ℕ) (s : ClsComp h × World)
        → AllRoom s.0
        → AllRoom (classify_all h eth caps pkts s).0
    unfolding classify_all
    classify_all-AllRoom [] s all = all
    classify_all-AllRoom (pkt ∷ pkts) s all =
        classify_all-AllRoom pkts (classify_one h eth caps pkt s) (classify_one-AllRoom pkt s all)

    drain_port-AllRoom :
        (i : ℕ) (s : ClsComp h × World) → AllRoom s.0 → AllRoom (drain_port h eth caps i s).0
    unfolding drain_port transmit_packets
    drain_port-AllRoom i (c, w) all = elim (Bool-cases (length (c.tx_ports i).pkts == 0)) [
      | inl e ↦ rw e all
      | inr e ↦ rw e (put-AllRoom c i _ all (omega arith))
    ]

    pub transmit_all_packet-AllRoom :
        (s : ClsComp h × World) → AllRoom s.0 → AllRoom (transmit_all_packet h eth caps s).0
    unfolding transmit_all_packet
    transmit_all_packet-AllRoom (c, w) all =
        for_from_inv (λ _ (s : ClsComp h × World). AllRoom s.0) (drain_port h eth caps)
          c.nof_tx_ports 0 (c, w) (λ j t _ _ k. drain_port-AllRoom j t k) all

    drain-AllRoom :
        (cur lim : ℕ) (s : ClsComp h × World) → AllRoom s.0 → AllRoom (drain h eth caps cur lim s).0
    unfolding drain
    drain-AllRoom cur lim s all = ground (arith, transmit_all_packet-AllRoom s all)

    classify_side-AllRoom :
        (cur_tsc drain_tsc : ℕ) (s : ClsComp h × World)
        → AllRoom s.0
        → AllRoom (classify_side h eth caps cur_tsc drain_tsc s).0
    unfolding classify_side receive
    classify_side-AllRoom cur_tsc drain_tsc (c, w) all = elim (Bool-cases (is_ready h eth caps c)) [
      | inr e ↦ rw e all
      | inl e ↦ rw e (classify_all-AllRoom _ (_, _) (drain-AllRoom cur_tsc drain_tsc (c, w) all))
    ]

  -- Both sides.
  abbrev pub SidesRoom : ClsMng h → Type 0
  SidesRoom mng = (side : ℕ) → AllRoom (mng.comp_list side)

  put-SidesRoom :
      (mng : ClsMng h) (side : ℕ) (c : ClsComp h)
      → SidesRoom mng
      → AllRoom c
      → (k : ℕ) → AllRoom (update mng.comp_list side c k)
  put-SidesRoom mng side c all room k = elim (ℕ_discrete k side) [
    | yes e ↦
        subst (λ j. AllRoom (update mng.comp_list side c j)) (sym e)
          (subst AllRoom (sym (update_self mng.comp_list side c)) room)
    | no ne ↦ subst AllRoom (sym (update_ne mng.comp_list side k c ne)) (all k)
  ]

  module _ (eth : Ethdev) where
    change-SidesRoom :
        (mng : ClsMng h) (caps : CapState) (w : eth.World)
        → SidesRoom mng
        → SidesRoom (change_classifier_index h eth (mng, caps, w)).0
    unfolding change_classifier_index
    change-SidesRoom mng caps w all = elim (Bool-cases (mng.ref_index == mng.upd_index)) [
      | inr e ↦ rw e all
      | inl e ↦ rw e (
          put-SidesRoom mng mng.ref_index _ all (
            transmit_all_packet-AllRoom eth (swap_ref caps) (mng.comp_list mng.ref_index, w)
              (all mng.ref_index)))
    ]

    -- Every TX buffer of a classifier, on either side, has room for a packet before and after a call
    -- of `classify_packets`: `push_packet` never writes behind the end of a buffer.
    pub classify_packets-SidesRoom :
        (cur_tsc drain_tsc : ℕ) (mng : ClsMng h) (caps : CapState) (w : eth.World)
        → SidesRoom mng
        → SidesRoom (classify_packets h eth cur_tsc drain_tsc (mng, caps, w)).0
    unfolding classify_packets
    classify_packets-SidesRoom cur_tsc drain_tsc mng caps w all =
        let t = change_classifier_index h eth (mng, caps, w) in
        let kept = change-SidesRoom mng caps w all in
        put-SidesRoom t.0 t.0.ref_index _ kept (
          classify_side-AllRoom eth t.1 cur_tsc drain_tsc (t.0.comp_list t.0.ref_index, t.2)
            (kept t.0.ref_index))
