-- ===== src/Vlan/Burst.antt =====
-- The bursts of port_capability.c: which mbufs they hand on, and which references they give back.
use spp_tmp.Base.{
  ℕ, ◌≤◌, ◌≡◌, refl, sym, ap, ◌∙◌, true, Option, some, List, [], ◌∷◌, ◌++◌, ◌==◌, arith, length,
  take, drop, length-take, take-take, Bool-cases, nil_of_length, Option-cases, inl, inr, ◌⊎◌,
  append_assoc, append-nil, drop_all, ==_iff,
}
use spp_tmp.Ethdev.{Ethdev, free_rest, free_all-acquired, free_all-released}
use spp_tmp.WorkerTypes.{VlanTag, PortAttrs, PortOps, is_no_ops}
use spp_tmp.Capability.{CapState, ref_attrs}
use spp_tmp.Vlan.{
  add_vlan_tag_one, del_vlan_tag_one, tag_all, add_vlan_tag_all, del_vlan_tag_all, apply_ops,
  vlan_operation, first_attrs, eth_vlan_rx_burst, eth_vlan_tx_burst,
}
use spp_tmp.Vlan.Tagging.{SameRefs, add-SameRefs, del-SameRefs}

PortOps-cases :
    (o : PortOps) → (o ≡ PortOps.no_ops) ⊎ ((o ≡ PortOps.add_vlan) ⊎ (o ≡ PortOps.del_vlan))
PortOps-cases PortOps.no_ops = inl refl
PortOps-cases PortOps.add_vlan = inr (inl refl)
PortOps-cases PortOps.del_vlan = inr (inr refl)

module _ (eth : Ethdev) where
  open eth use {
    World, acquired, released, rx_burst, tx_burst, rx_acquired, rx_released, tx_len, tx_acquired,
    tx_released,
  }

  -- A loop over packets that stops early, and touches no reference.
  abbrev Upto : ℕ → World → ℕ × World → Type 0
  Upto n w (k, v) = (k ≤ n) × (acquired v ≡ acquired w) × (released v ≡ released w)

  tag_all-Upto :
      (one : ℕ → World → Option World)
      → ((p : ℕ) (w : World) (v : World) → one p w ≡ some v → SameRefs eth w v)
      → (ps : List ℕ) (w : World) → Upto (length ps) w (tag_all eth one ps w)
  unfolding tag_all
  tag_all-Upto one keep [] w = (omega arith, refl, refl)
  tag_all-Upto one keep (p ∷ ps) w = elim (Option-cases (one p w)) [
    | inl n ↦ rw (n, tag_all) (omega arith, refl, refl)
    | inr (v, e) ↦
        let (le, a, r) = tag_all-Upto one keep ps v in
        let (b, s) = keep p w v e in rw (e, tag_all) (omega arith, a ∙ b, r ∙ s)
  ]

  add_all-Upto :
      (tag : VlanTag) (ps : List ℕ) (w : World) → Upto (length ps) w (add_vlan_tag_all eth tag ps w)
  unfolding add_vlan_tag_all
  add_all-Upto tag ps w =
      tag_all-Upto (add_vlan_tag_one eth tag) (λ p w v e. add-SameRefs eth tag p w e) ps w

  del_all-Upto : (ps : List ℕ) (w : World) → Upto (length ps) w (del_vlan_tag_all eth ps w)
  unfolding del_vlan_tag_all
  del_all-Upto ps w = tag_all-Upto (del_vlan_tag_one eth) (λ p w v e. del-SameRefs eth p w e) ps w

  apply_ops-Upto :
      (tag : VlanTag) (l : List PortAttrs) (pkts : List ℕ) (n : ℕ) (w : World)
      → Upto n w (apply_ops eth tag l pkts n w)
  unfolding apply_ops
  apply_ops-Upto tag [] pkts n w = (omega arith, refl, refl)
  apply_ops-Upto tag (a ∷ l) pkts n w = elim (PortOps-cases a.ops) [
    | inl e ↦ rw (e, apply_ops) (omega arith, refl, refl)
    | inr (inl e) ↦
        let c = add_all-Upto tag (take n pkts) w in
        let (le, x, y) =
          apply_ops-Upto tag l pkts (add_vlan_tag_all eth tag (take n pkts) w).0
            (add_vlan_tag_all eth tag (take n pkts) w).1 in
        rw (e, apply_ops) (omega (arith, length-take n pkts), x ∙ c.1, y ∙ c.2)
    | inr (inr e) ↦
        let c = del_all-Upto (take n pkts) w in
        let (le, x, y) =
          apply_ops-Upto tag l pkts (del_vlan_tag_all eth (take n pkts) w).0
            (del_vlan_tag_all eth (take n pkts) w).1 in
        rw (e, apply_ops) (omega (arith, length-take n pkts), x ∙ c.1, y ∙ c.2)
  ]

  -- The packets that a port's operations fail on, and those behind them, are freed.
  pub vlan_operation-frees :
      (attrs : List PortAttrs) (pkts : List ℕ) (w : World)
      → let (k, v) = vlan_operation eth attrs pkts w in
        (k ≤ length pkts) × (acquired v ≡ acquired w) × (released v ≡ released w ++ drop k pkts)
  unfolding vlan_operation
  vlan_operation-frees attrs pkts w = elim (Bool-cases (is_no_ops (first_attrs attrs).ops)) [
    | inl e ↦
        rw e
          (omega arith, refl, rw (drop_all (length pkts) pkts (omega arith)) (sym (append-nil _)))
    | inr e ↦
        let r = apply_ops eth (first_attrs attrs).vlantag attrs pkts (length pkts) w in
        let (le, a, b) = apply_ops-Upto (first_attrs attrs).vlantag attrs pkts (length pkts) w in
        rw (e, free_rest eth r.0 pkts r.1)
          (le, free_all-acquired eth _ r.1 ∙ a, free_all-released eth _ r.1 ∙ rw b)
  ]

  -- What a worker receives: it is given the packets of the burst up to the first that an operation
  -- failed on; the others are freed.
  pub eth_vlan_rx_burst-frees :
      (caps : CapState) (port queue n : ℕ) (w : World)
      → let (out, v) = eth_vlan_rx_burst eth caps port queue n w in
        let bufs = (rx_burst port queue n w).0 in
        (k : ℕ) × (k ≤ length bufs)
        × (out ≡ take k bufs)
        × (acquired v ≡ acquired w ++ bufs)
        × (released v ≡ released w ++ drop k bufs)
  unfolding eth_vlan_rx_burst
  eth_vlan_rx_burst-frees caps port queue n w = elim (Bool-cases (length r.0 == 0)) [
    | inl e ↦ rw e (
      0,
      omega arith,
      refl,
      rx_acquired port queue n w,
      rw (nil_of_length r.0 ((==_iff _ 0).0 e)) (rx_released port queue n w ∙ sym (append-nil _)),
    )
    | inr e ↦
        let (le, a, b) = vlan_operation-frees (ref_attrs (caps.rx.mng port)) r.0 r.1 in
        rw e (
          (vlan_operation eth (ref_attrs (caps.rx.mng port)) r.0 r.1).0,
          le,
          refl,
          a ∙ rx_acquired port queue n w,
          b ∙ rw (rx_released port queue n w),
        )
  ]
    where
      r : List ℕ × World
      r = rx_burst port queue n w

  pub eth_vlan_tx_burst-frees :
      (caps : CapState) (port queue : ℕ) (pkts : List ℕ) (w : World)
      → let (n, v) = eth_vlan_tx_burst eth caps port queue pkts w in
        let k = (vlan_operation eth (ref_attrs (caps.tx.mng port)) pkts w).0 in
        (n ≤ k)
        × (k ≤ length pkts)
        × (acquired v ≡ acquired w)
        × (released v ≡ released w ++ (drop k pkts ++ take n pkts))
  unfolding eth_vlan_tx_burst
  eth_vlan_tx_burst-frees caps port queue pkts w = elim (Bool-cases (o.0 == 0)) [
    | inl e ↦ rw e (
      omega arith,
      (freed).0,
      (freed).1,
      (freed).2 ∙ ap (λ l. released w ++ l) (sym (append-nil _)),
    )
    | inr e ↦ rw e (
      omega (arith, tx_len port queue b o.1, length-take o.0 pkts),
      (freed).0,
      tx_acquired port queue b o.1 ∙ (freed).1,
      tx_released port queue b o.1
          ∙ rw
              (
                (freed).2,
                take-take (tx_burst port queue b o.1).0 o.0 pkts
                    (omega (arith, tx_len port queue b o.1, length-take o.0 pkts)),
              )
              (append_assoc (released w) (drop o.0 pkts) _),
    )
  ]
    where
      o : ℕ × World
      o = vlan_operation eth (ref_attrs (caps.tx.mng port)) pkts w

      b : List ℕ
      b = take o.0 pkts

      freed :
          (o.0 ≤ length pkts)
          × (acquired o.1 ≡ acquired w)
          × (released o.1 ≡ released w ++ drop o.0 pkts)
      freed = vlan_operation-frees (ref_attrs (caps.tx.mng port)) pkts w

  vlan_operation_none :
      (attrs : List PortAttrs) (pkts : List ℕ) (w : World)
      → is_no_ops (first_attrs attrs).ops ≡ true
      → vlan_operation eth attrs pkts w ≡ (length pkts, w)
  unfolding vlan_operation
  vlan_operation_none attrs pkts w e = rw e

  -- The VLAN operations of a port that work on every packet.
  abbrev pub NeverFails : List PortAttrs → Type 0
  NeverFails attrs = (pkts : List ℕ) (w : World) → (vlan_operation eth attrs pkts w).0 ≡ length pkts

  pub no_ops-NeverFails :
      (attrs : List PortAttrs) → is_no_ops (first_attrs attrs).ops ≡ true → NeverFails attrs
  no_ops-NeverFails attrs e pkts w =
      ap (λ (r : ℕ × World). r.0) (vlan_operation_none attrs pkts w e)
