-- ===== src/ClsWorker/Conserve.antt =====
-- `classify_packets` of src/vf/classifier.c loses no mbuf and gives none back twice.
use spp_tmp.Base.{
  ℕ, ◌+◌, ◌≡◌, refl, sym, ◌∙◌, arith, Bool-cases, inl, inr, weigh, weigh-append, weigh-split, drop,
  subst, for_from_inv, ltb,
}
use spp_tmp.Ethdev.{Ethdev}
use spp_tmp.BasicForwarder.{max_pkt_burst}
use spp_tmp.Capability.{CapState}
use spp_tmp.Vlan.{eth_vlan_rx_burst}
use spp_tmp.Vlan.Burst.{eth_vlan_rx_burst-frees}
use spp_tmp.Classifier.{MacHash, ClsComp}
use spp_tmp.ClsWorker.{drain_port, transmit_all_packet, is_ready, drain, receive, classify_side}
use spp_tmp.ClsWorker.Routes.{IsRouted}
use spp_tmp.ClsWorker.Balance.{held, AllSure, Moved, Moved-refl, Moved-trans, drain_port-Moved}
use spp_tmp.ClsWorker.Copies.{classify_all-Moved}

module _ (h : MacHash) (eth : Ethdev) (caps : CapState) (sure : AllSure h eth caps) (f : ℕ → ℕ)
    (n : ℕ) where
  open eth use {
    World, acquired, released, frame, pktmbuf_free, refcnt_update, rx_burst, free_acquired,
    free_released, refcnt_acquired, refcnt_released, rx_acquired, rx_released,
  }

  abbrev To : ℕ → ClsComp h × World → ClsComp h × World → Type 0
  To = Moved h eth caps sure f n

  transmit_all-Moved :
      (s : ClsComp h × World) → s.0.nof_tx_ports ≡ n → To 0 s (transmit_all_packet h eth caps s)
  unfolding transmit_all_packet
  transmit_all-Moved (c, w) en =
      for_from_inv (λ _ t. To 0 (c, w) t) (drain_port h eth caps) c.nof_tx_ports 0 (c, w)
        (λ j t _ hj k.
          Moved-trans h eth caps sure f n 0 0 (c, w) t (drain_port h eth caps j t) k
            (drain_port-Moved h eth caps sure f n j t (omega (arith, en))))
        (Moved-refl h eth caps sure f n (c, w))

  drain-Moved :
      (cur lim : ℕ) (s : ClsComp h × World)
      → s.0.nof_tx_ports ≡ n
      → To 0 s (drain h eth caps cur lim s)
  unfolding drain
  drain-Moved cur lim s en = elim (Bool-cases (ltb lim cur)) [
    | inl e ↦ rw e (transmit_all-Moved s en)
    | inr e ↦ rw e (Moved-refl h eth caps sure f n s)
  ]

  rx_refs :
      (p q : ℕ) (w : World)
      → let (bufs, v) = eth_vlan_rx_burst eth caps p q max_pkt_burst w in
        weigh f (acquired v) + weigh f (released w)
        ≡ weigh f (acquired w) + weigh f (released v) + weigh f bufs
  rx_refs p q w =
      let (k, _, eo, a, r) = eth_vlan_rx_burst-frees eth caps p q max_pkt_burst w in
      let b = (rx_burst p q max_pkt_burst w).0 in
      rw (a, r, eo)
        (omega (
          arith,
          weigh-append f (acquired w) b,
          weigh-append f (released w) (drop k b),
          weigh-split f k b,
        ))

  receive-Moved :
      (s : ClsComp h × World) → IsRouted h n s.0.mac_clfs → To 0 s (receive h eth caps s)
  unfolding receive
  receive-Moved (c, w) routed =
      let r =
        eth_vlan_rx_burst eth caps c.rx_port.ethdev_port_id c.rx_port.queue_no max_pkt_burst w in
      let (m, p, e) = classify_all-Moved h eth caps sure f n r.0 (c, r.1) routed in
      (m, p, omega (arith, e, rx_refs c.rx_port.ethdev_port_id c.rx_port.queue_no w))

  -- A call of `classify_packets` on a component with `n` TX ports, all indices in its tables being
  -- below `n` and no VLAN operation failing on transmission: what is acquired is given back, once, or
  -- is in a TX buffer; and the tables stay.
  pub classify_side-Moved :
      (cur_tsc drain_tsc : ℕ) (c : ClsComp h) (w : World)
      → IsRouted h n c.mac_clfs
      → c.nof_tx_ports ≡ n
      → let (d, v) = classify_side h eth caps cur_tsc drain_tsc (c, w) in
        (d.mac_clfs ≡ c.mac_clfs)
        × (d.nof_tx_ports ≡ c.nof_tx_ports)
        × (weigh f (acquired v) + weigh f (released w) + held f c.tx_ports n
            ≡ weigh f (acquired w) + weigh f (released v) + held f d.tx_ports n)
  unfolding classify_side
  classify_side-Moved cur_tsc drain_tsc c w routed en = elim (Bool-cases (is_ready h eth caps c)) [
    | inr e ↦ rw e (refl, refl, omega arith)
    | inl e ↦
        let a = drain-Moved cur_tsc drain_tsc (c, w) en in
        let t = drain h eth caps cur_tsc drain_tsc (c, w) in
        let (m, p, q) = receive-Moved t (subst (IsRouted h n) (sym a.0) routed) in
        rw e (m ∙ a.0, p ∙ a.1, omega (arith, a.2, q))
  ]
