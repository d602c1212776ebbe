-- ===== src/ClsWorker/Balance.antt =====
-- The mbufs of a classifier (src/vf/classifier.c): each is in a TX buffer or was given back.
use spp_tmp.Base.{
  ℕ, zero, suc, ◌+◌, ◌<◌, ◌≤◌, ◌≡◌, refl, ap, ◌∙◌, [], ◌∷◌, ◌++◌, ◌==◌, arith, Bool-cases, inl, inr,
  length, weigh, weigh-append, update, ℕ_discrete, drop, drop_all, ==_refl, ==_ne,
}
use spp_tmp.Ethdev.{Ethdev, free_all}
use spp_tmp.BasicForwarder.{max_pkt_burst}
use spp_tmp.Capability.{CapState, ref_attrs}
use spp_tmp.Vlan.{eth_vlan_tx_burst}
use spp_tmp.Vlan.Burst.{NeverFails}
use spp_tmp.Forwarder.Forward.{sent, sent_refs}
use spp_tmp.Classifier.{MacHash, ClsComp, ClsPort}
use spp_tmp.ClsWorker.{transmit_packets, push_packet, push_to, drain_port}

-- The references that are in the TX buffers of the first `n` ports.
abbrev pub held : (ℕ → ℕ) → (ℕ → ClsPort) → ℕ → ℕ
held f t zero = 0
held f t (suc n) = held f t n + weigh f (t n).pkts

held_above :
    (f : ℕ → ℕ) (t : ℕ → ClsPort) (i : ℕ) (p : ClsPort) (n : ℕ)
    → n ≤ i
    → held f (update t i p) n ≡ held f t n
held_above f t i p zero h = refl
held_above f t i p (suc n) h =
    rw (==_ne n i (omega arith)) (omega (arith, held_above f t i p n (omega arith)))

pub held-update :
    (f : ℕ → ℕ) (t : ℕ → ClsPort) (i : ℕ) (p : ClsPort) (n : ℕ)
    → i < n
    → held f (update t i p) n + weigh f (t i).pkts ≡ held f t n + weigh f p.pkts
held-update f t i p zero h = absurd (omega arith)
held-update f t i p (suc n) h = elim (ℕ_discrete n i) [
  | yes e ↦ rw e (rw (==_refl i) (omega (arith, held_above f t i p i (omega arith))))
  | no ne ↦ rw (==_ne n i ne) (omega (arith, held-update f t i p n (omega arith)))
]

module _ (h : MacHash) (eth : Ethdev) (caps : CapState) where
  open eth use {World, acquired, released, rx_burst}

  -- Every TX port's VLAN operations work on every packet.
  abbrev pub AllSure : Type 0
  AllSure = (p : ℕ) → NeverFails eth (ref_attrs (caps.tx.mng p))

  transmit_world :
      (p : ClsPort) (w : World)
      → (transmit_packets h eth caps p w).1 ≡ sent eth caps p.ethdev_port_id p.queue_no p.pkts w
  unfolding transmit_packets free_all
  transmit_world p w =
      let n = (eth_vlan_tx_burst eth caps p.ethdev_port_id p.queue_no p.pkts w).0 in
      elim (Bool-cases (n == length p.pkts)) [
        | inr e ↦ rw e
        | inl e ↦ rw (e, drop_all n p.pkts (ground arith))
      ]

  module _ (sure : AllSure) (f : ℕ → ℕ) (n : ℕ) where
    transmit_refs :
        (p : ClsPort) (w : World)
        → let v = (transmit_packets h eth caps p w).1 in
          (weigh f (acquired v) ≡ weigh f (acquired w))
          × (weigh f (released v) ≡ weigh f (released w) + weigh f p.pkts)
    transmit_refs p w =
        let (a, r) = sent_refs eth caps p.ethdev_port_id p.queue_no p.pkts w f in
        rw (transmit_world p w) (
          a,
          omega (
            arith,
            r,
            ap (λ (k : ℕ). weigh f (drop k p.pkts)) (sure p.ethdev_port_id p.pkts w),
            ap (weigh f) (drop_all (length p.pkts) p.pkts (omega arith)),
          ),
        )

    transmit_empty :
        (p : ClsPort) (w : World) → weigh f (transmit_packets h eth caps p w).0.pkts ≡ 0
    unfolding transmit_packets
    transmit_empty p w = refl

    push_refs :
        (pkt : ℕ) (p : ClsPort) (w : World)
        → let (q, v) = push_packet h eth caps pkt p w in
          (weigh f (acquired v) ≡ weigh f (acquired w))
          × (weigh f (released v) + weigh f q.pkts ≡ weigh f (released w) + weigh f p.pkts + f pkt)
    unfolding push_packet
    push_refs pkt p w = elim (Bool-cases (length (p.pkts ++ pkt ∷ []) == max_pkt_burst)) [
      | inr e ↦ rw e (refl, omega (arith, weigh-append f p.pkts (pkt ∷ [])))
      | inl e ↦ rw e (
          let (a, r) = transmit_refs (record p { pkts = p.pkts ++ pkt ∷ [] }) w in
          (
            a,
            omega (
              arith,
              r,
              transmit_empty (record p { pkts = p.pkts ++ pkt ∷ [] }) w,
              weigh-append f p.pkts (pkt ∷ []),
            ),
          ))
    ]

    -- From `s` to `t`, where `k` references are in hand at `s` and none at `t`, no reference is lost or
    -- given back twice, and the tables stay.
    abbrev pub Moved : ℕ → ClsComp h × World → ClsComp h × World → Type 0
    Moved k s t =
        (t.0.mac_clfs ≡ s.0.mac_clfs)
        × (t.0.nof_tx_ports ≡ s.0.nof_tx_ports)
        × (weigh f (acquired t.1) + weigh f (released s.1) + held f s.0.tx_ports n + k
            ≡ weigh f (acquired s.1) + weigh f (released t.1) + held f t.0.tx_ports n)

    pub Moved-refl : (s : ClsComp h × World) → Moved 0 s s
    Moved-refl s = (refl, refl, omega arith)

    pub Moved-trans :
        (j k : ℕ) (s t u : ClsComp h × World) → Moved j s t → Moved k t u → Moved (j + k) s u
    Moved-trans j k s t u (m, p, e) (m', p', e') = (m' ∙ m, p' ∙ p, omega (arith, e, e'))

    pub push_to-Moved :
        (pkt i : ℕ) (s : ClsComp h × World) → i < n → Moved (f pkt) s (push_to h eth caps pkt i s)
    unfolding push_to
    push_to-Moved pkt i (c, w) hi =
        let (a, r) = push_refs pkt (c.tx_ports i) w in
        (
          refl,
          refl,
          omega (
            arith,
            a,
            r,
            held-update f c.tx_ports i (push_packet h eth caps pkt (c.tx_ports i) w).0 n hi,
          ),
        )

    pub drain_port-Moved :
        (i : ℕ) (s : ClsComp h × World) → i < n → Moved 0 s (drain_port h eth caps i s)
    unfolding drain_port
    drain_port-Moved i (c, w) hi = elim (Bool-cases (length (c.tx_ports i).pkts == 0)) [
      | inl e ↦ rw e (Moved-refl (c, w))
      | inr e ↦ rw e (
          let (a, r) = transmit_refs (c.tx_ports i) w in
          (
            refl,
            refl,
            omega (
              arith,
              a,
              r,
              transmit_empty (c.tx_ports i) w,
              held-update f c.tx_ports i (transmit_packets h eth caps (c.tx_ports i) w).0 n hi,
            ),
          ))
    ]
