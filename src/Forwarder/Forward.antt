-- ===== src/Forwarder/Forward.antt =====
-- `forward_packets` of src/vf/forwarder.c: which mbufs it gives back, and how often.
use spp_tmp.Base.{
  ℕ, ◌+◌, ◌≤◌, ◌<◌, ◌≡◌, ◌≢◌, refl, ap, ◌∙◌, some, List, ◌++◌, arith, Bool-cases, inl, inr,
  for_from_inv, length, take, drop, take-append-drop, append_assoc, drop_all, weigh, weigh-append,
  weigh-split, nil_of_length, ==_iff, ==_ne, ℕ_discrete,
}
use spp_tmp.Ethdev.{
  Ethdev, free_all, free_rest, free_all-acquired, free_all-released, IsEven, IsEven-refl,
  IsEven-trans,
}
use spp_tmp.BasicForwarder.{max_pkt_burst}
use spp_tmp.WorkerTypes.{PortInfo}
use spp_tmp.Capability.{CapState, ref_attrs}
use spp_tmp.Vlan.{vlan_operation, eth_vlan_rx_burst, eth_vlan_tx_burst}
use spp_tmp.Vlan.Burst.{eth_vlan_rx_burst-frees, eth_vlan_tx_burst-frees, NeverFails}
use spp_tmp.Forwarder.{
  ForwardPath, ForwardInfo, to_uint16, send, forward_port, forward_packets, change_forward_index,
  is_ready,
}

module _ (eth : Ethdev) where
  open eth use {World, acquired, released, rx_burst}

  -- The transmission of one RX port, with the loop that frees the rest.
  abbrev pub sent : CapState → ℕ → ℕ → List ℕ → World → World
  sent caps p q bufs w =
      let (n, u) = eth_vlan_tx_burst eth caps p q bufs w in free_all eth (drop n bufs) u

  -- The packets of a burst are all given back once, by the device or by the loop behind it; those
  -- that a VLAN operation failed on, and those behind them, were given back before, a first time.
  pub sent_lists :
      (caps : CapState) (p q : ℕ) (bufs : List ℕ) (w : World)
      → let k = (vlan_operation eth (ref_attrs (caps.tx.mng p)) bufs w).0 in
        (k ≤ length bufs)
        × (acquired (sent caps p q bufs w) ≡ acquired w)
        × (released (sent caps p q bufs w) ≡ released w ++ (drop k bufs ++ bufs))
  sent_lists caps p q bufs w =
      let (hn, hk, a, r) = eth_vlan_tx_burst-frees eth caps p q bufs w in
      let n = (eth_vlan_tx_burst eth caps p q bufs w).0 in
      (
        hk,
        free_all-acquired eth _ _ ∙ a,
        free_all-released eth _ _
            ∙ rw r (
                append_assoc (released w) _ (drop n bufs)
                ∙ ap (λ l. released w ++ l)
                    (append_assoc _ (take n bufs) (drop n bufs) ∙ rw (take-append-drop n bufs))),
      )

  -- Every reference is acquired once and given back once, but those of `xs` are given back once more.
  abbrev pub IsEvenBut : List ℕ → World → World → Type 0
  IsEvenBut xs w v =
      (f : ℕ → ℕ)
      → weigh f (acquired v) + weigh f (released w) + weigh f xs
        ≡ weigh f (acquired w) + weigh f (released v)

  rx_port : ForwardPath → ℕ → ℕ
  rx_port path cnt = to_uint16 (path.rx cnt).ethdev_port_id

  -- What a worker receives from RX port `cnt`.
  pub received : CapState → ForwardPath → ℕ → World → List ℕ × World
  unfolding rx_port
  received caps path cnt w =
      eth_vlan_rx_burst eth caps (to_uint16 (path.rx cnt).ethdev_port_id) (path.rx cnt).queue_no
        max_pkt_burst w

  -- The packets of RX port `cnt` on which a VLAN operation of the TX port `p` fails, and those behind
  -- the first of them.
  pub failed : CapState → ForwardPath → ℕ → ℕ → World → List ℕ
  failed caps path cnt p w =
      let (bufs, v) = received caps path cnt w in
      drop (vlan_operation eth (ref_attrs (caps.tx.mng (to_uint16 (some p)))) bufs v).0 bufs

  forward_port_world :
      (caps : CapState) (path : ForwardPath) (cnt p nb_tx : ℕ) (w : World)
      → (path.tx cnt).ethdev_port_id ≡ some p
      → length (received caps path cnt w).0 ≢ 0
      → (forward_port eth caps path cnt (nb_tx, w)).1
        ≡ sent caps
            (to_uint16 (some p))
            (path.tx cnt).queue_no
            (received caps path cnt w).0
            (received caps path cnt w).1
  unfolding forward_port send received
  forward_port_world caps path cnt p nb_tx w e ne = rw (==_ne _ _ ne, e) (free_rest eth _ _ _)

  -- The packets received are acquired and not given back; those that the reception drops are both.
  received_refs :
      (caps : CapState) (path : ForwardPath) (cnt : ℕ) (w : World) (f : ℕ → ℕ)
      → let (bufs, v) = received caps path cnt w in
        weigh f (acquired v) + weigh f (released w)
        ≡ weigh f (acquired w) + weigh f (released v) + weigh f bufs
  unfolding received
  received_refs caps path cnt w f =
      let (k, _, eo, a, r) =
        eth_vlan_rx_burst-frees eth caps (to_uint16 (path.rx cnt).ethdev_port_id)
          (path.rx cnt).queue_no max_pkt_burst w in
      let b =
        (rx_burst (to_uint16 (path.rx cnt).ethdev_port_id) (path.rx cnt).queue_no max_pkt_burst
          w).0 in
      rw (a, r, eo)
        (omega (
          arith,
          weigh-append f (acquired w) b,
          weigh-append f (released w) (drop k b),
          weigh-split f k b,
        ))

  pub sent_refs :
      (caps : CapState) (p q : ℕ) (bufs : List ℕ) (w : World) (f : ℕ → ℕ)
      → let k = (vlan_operation eth (ref_attrs (caps.tx.mng p)) bufs w).0 in
        let v = sent caps p q bufs w in
        (weigh f (acquired v) ≡ weigh f (acquired w))
        × (weigh f (released v) ≡ weigh f (released w) + weigh f (drop k bufs) + weigh f bufs)
  sent_refs caps p q bufs w f =
      let (_, a, r) = sent_lists caps p q bufs w in
      let k = (vlan_operation eth (ref_attrs (caps.tx.mng p)) bufs w).0 in
      (
        ap (weigh f) a,
        ap (weigh f) r
            ∙ omega (
              arith,
              weigh-append f (released w) (drop k bufs ++ bufs),
              weigh-append f (drop k bufs) bufs,
            ),
      )

  forward_port_empty :
      (caps : CapState) (path : ForwardPath) (cnt nb_tx : ℕ) (w : World)
      → length (received caps path cnt w).0 ≡ 0
      → (forward_port eth caps path cnt (nb_tx, w)).1 ≡ (received caps path cnt w).1
  unfolding forward_port received
  forward_port_empty caps path cnt nb_tx w e = rw ((==_iff _ 0).1 e)

  pub forward_port_refs :
      (caps : CapState) (path : ForwardPath) (cnt p nb_tx : ℕ) (w : World)
      → (path.tx cnt).ethdev_port_id ≡ some p
      → IsEvenBut (failed caps path cnt p w) w (forward_port eth caps path cnt (nb_tx, w)).1
  unfolding failed
  forward_port_refs caps path cnt p nb_tx w e f = elim (ℕ_discrete (length r.0) 0) [
    | yes z ↦ rw (forward_port_empty caps path cnt nb_tx w z) (
        omega (
          arith,
          received_refs caps path cnt w f,
          ap (weigh f) (nil_of_length r.0 z),
          none_failed z,
        ))
    | no ne ↦ rw (forward_port_world caps path cnt p nb_tx w e ne) (
        omega (
          arith,
          received_refs caps path cnt w f,
          is_failed,
          sent_refs caps (to_uint16 (some p)) (path.tx cnt).queue_no r.0 r.1 f,
        ))
  ]
    where
      r : List ℕ × World
      r = received caps path cnt w

      k : ℕ
      k = (vlan_operation eth (ref_attrs (caps.tx.mng (to_uint16 (some p)))) r.0 r.1).0

      is_failed : weigh f (failed caps path cnt p w) ≡ weigh f (drop k r.0)
      is_failed = refl

      none_failed : length r.0 ≡ 0 → weigh f (failed caps path cnt p w) ≡ 0
      none_failed z = ap (weigh f) (drop_all k r.0 (omega arith))

  -- A TX port that the worker can send to, and whose VLAN operations never fail.
  abbrev pub IsSureTx : CapState → PortInfo → Type 0
  IsSureTx caps port =
      (p : ℕ) × (port.ethdev_port_id ≡ some p)
      × (NeverFails eth (ref_attrs (caps.tx.mng (to_uint16 (some p)))))

  forward_port-IsEven :
      (caps : CapState) (path : ForwardPath) (cnt nb_tx : ℕ) (w : World)
      → IsSureTx caps (path.tx cnt)
      → IsEven eth w (forward_port eth caps path cnt (nb_tx, w)).1
  unfolding failed
  forward_port-IsEven caps path cnt nb_tx w (p, e, sure) f =
      let r = received caps path cnt w in
      omega (
        arith,
        forward_port_refs caps path cnt p nb_tx w e f,
        ap (λ (k : ℕ). weigh f (drop k r.0)) (sure r.0 r.1),
        ap (weigh f) (drop_all (length r.0) r.0 (omega arith)),
      )

  -- If the VLAN operations of the path's TX ports never fail, a call of `forward_packets` gives back every mbuf
  -- that it receives, exactly once; what its RX ports' VLAN operations fail on is freed.
  pub forward_packets-IsEven :
      (info : ForwardInfo) (caps : CapState) (w : World)
      → let (info', caps') = change_forward_index (info, caps) in
        let path = info'.path info'.ref_index in
        ((cnt : ℕ) → cnt < path.nof_rx → IsSureTx caps' (path.tx cnt))
        → IsEven eth w (forward_packets eth (info, caps, w)).2
  unfolding forward_packets
  forward_packets-IsEven info caps w plain = elim (Bool-cases (is_ready path)) [
    | inr e ↦ rw e (IsEven-refl eth w)
    | inl e ↦ rw e (
        for_from_inv (λ _ s. IsEven eth w s.1) (forward_port eth caps' path) path.nof_rx 0 (0, w)
          (λ j s _ hj h.
            IsEven-trans eth w s.1 (forward_port eth caps' path j s).1 h
              (forward_port-IsEven caps' path j s.0 s.1 (plain j (omega arith))))
          (IsEven-refl eth w))
  ]
    where
      caps' : CapState
      caps' = (change_forward_index (info, caps)).1

      path : ForwardPath
      path =
          (change_forward_index (info, caps)).0.path (change_forward_index (info, caps)).0.ref_index
