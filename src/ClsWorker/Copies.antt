-- ===== src/ClsWorker/Copies.antt =====
-- A packet in the hands of src/vf/classifier.c: its copies go to TX buffers, or it is freed.
use spp_tmp.Base.{
  ℕ, zero, suc, ◌+◌, ◌-◌, ◌≡◌, ◌≢◌, refl, sym, ap, ◌∙◌, Option, none, some, List, [], ◌∷◌, ◌==◌,
  arith, Bool-cases, Option-cases, inl, inr, length, weigh, weigh-append, replicate, subst,
}
use spp_tmp.Ethdev.{Ethdev}
use spp_tmp.Capability.{CapState}
use spp_tmp.Vlan.{get_vid}
use spp_tmp.Classifier.{MacHash, ClsComp, vlan_untagged_vid}
use spp_tmp.Classifier.Build.{members_of}
use spp_tmp.ClsWorker.{
  select_classified_index, get_general_default_classified_index, push_to, push_each, push_extra,
  extra_default, count_of, push_default, push_members, handle_l2multicast_packet, classify_one,
  classify_all,
}
use spp_tmp.ClsWorker.Bounds.{Selected-cases}
use spp_tmp.ClsWorker.Routes.{IsRouted, Below, AllBelow, general_default-Below, select-Below}
use spp_tmp.ClsWorker.Balance.{AllSure, Moved, Moved-refl, Moved-trans, push_to-Moved}

weigh-replicate_add :
    (f : ℕ → ℕ) (p a b : ℕ)
    → weigh f (replicate a p) + weigh f (replicate b p) ≡ weigh f (replicate (a + b) p)
weigh-replicate_add f p zero b = rw (zero_left b) (omega arith)
  where
    zero_left : (b : ℕ) → 0 + b ≡ b
    zero_left b = omega arith
weigh-replicate_add f p (suc a) b = rw (suc_left a b) (omega (arith, weigh-replicate_add f p a b))
  where
    suc_left : (a b : ℕ) → suc a + b ≡ suc (a + b)
    suc_left a b = omega arith

weigh-replicate_pred :
    (f : ℕ → ℕ) (p k : ℕ) → k ≢ 0 → f p + weigh f (replicate (k - 1) p) ≡ weigh f (replicate k p)
weigh-replicate_pred f p zero ne = absurd (ne refl)
weigh-replicate_pred f p (suc k) ne = rw (pred k) refl
  where
    pred : (k : ℕ) → suc k - 1 ≡ k
    pred k = omega arith

module _ (h : MacHash) (eth : Ethdev) (caps : CapState) (sure : AllSure h eth caps) (f : ℕ → ℕ)
    (n : ℕ) where
  open eth use {
    World, acquired, released, frame, pktmbuf_free, refcnt_update, rx_burst, free_acquired,
    free_released, refcnt_acquired, refcnt_released, rx_acquired, rx_released,
  }

  abbrev To : ℕ → ClsComp h × World → ClsComp h × World → Type 0
  To = Moved h eth caps sure f n

  push_each-Moved :
      (pkt : ℕ) (is : List ℕ) (s : ClsComp h × World)
      → AllBelow n is
      → To (weigh f (replicate (length is) pkt)) s (push_each h eth caps pkt is s)
  unfolding push_each
  push_each-Moved pkt [] s all = Moved-refl h eth caps sure f n s
  push_each-Moved pkt (i ∷ is) s (b, all) =
      Moved-trans h eth caps sure f n (f pkt) (weigh f (replicate (length is) pkt)) s
        (push_to h eth caps pkt i s) (push_each h eth caps pkt is (push_to h eth caps pkt i s))
        (push_to-Moved h eth caps sure f n pkt i s b)
        (push_each-Moved pkt is (push_to h eth caps pkt i s) all)

  push_extra-Moved :
      (pkt : ℕ) (o : Option ℕ) (s : ClsComp h × World)
      → Below n o
      → To (weigh f (replicate (count_of h eth caps o) pkt)) s (push_extra h eth caps pkt o s)
  push_extra-Moved pkt none s b = Moved-refl h eth caps sure f n s
  push_extra-Moved pkt (some i) s b =
      let (m, p, e) = push_to-Moved h eth caps sure f n pkt i s b in (m, p, omega (arith, e))

  free-Moved : (pkt : ℕ) (c : ClsComp h) (w : World) → To (f pkt) (c, w) (c, pktmbuf_free pkt w)
  free-Moved pkt c w = (
    refl,
    refl,
    rw (free_acquired pkt w, free_released pkt w)
        (omega (arith, weigh-append f (released w) (pkt ∷ []))),
  )

  push_default-Moved :
      (pkt : ℕ) (s : ClsComp h × World)
      → IsRouted h n s.0.mac_clfs
      → To (f pkt) s (push_default h eth caps pkt s)
  unfolding push_default
  push_default-Moved pkt (c, w) routed =
      elim (Option-cases (get_general_default_classified_index h c)) [
        | inl e ↦ rw (e, push_default) (free-Moved pkt c w)
        | inr (i, e) ↦
            rw (e, push_default)
              (push_to-Moved h eth caps sure f n pkt i (c, w)
                (rw e at (general_default-Below h n c routed)))
      ]

  extra_default-Below :
      (vid : ℕ) (c : ClsComp h) → IsRouted h n c.mac_clfs → Below n (extra_default h eth caps vid c)
  extra_default-Below vid c routed = elim (Bool-cases (vid == vlan_untagged_vid)) [
    | inl e ↦ rw e tt
    | inr e ↦ rw e (general_default-Below h n c routed)
  ]

  -- The count is raised by the number of copies, less the one in hand.
  push_members-Moved :
      (pkt vid : ℕ) (is : List ℕ) (s : ClsComp h × World)
      → IsRouted h n s.0.mac_clfs
      → AllBelow n is
      → length is ≢ 0
      → To (f pkt) s (push_members h eth caps pkt vid is s)
  unfolding push_members
  push_members-Moved pkt vid is (c, w) routed all ne =
      let k = count_of h eth caps (extra_default h eth caps vid c) in
      let v = refcnt_update pkt (length is + k - 1) w in
      let (m, p, e) = push_each-Moved pkt is (c, v) all in
      let (m', p', e') =
        push_extra-Moved pkt (extra_default h eth caps vid c) (push_each h eth caps pkt is (c, v))
          (extra_default-Below vid c routed) in
      (
        m' ∙ m,
        p' ∙ p,
        omega (
          arith,
          e,
          e',
          weigh-replicate_add f pkt (length is) k,
          weigh-replicate_pred f pkt (length is + k) (omega arith),
          ap (weigh f) (refcnt_acquired pkt (length is + k - 1) w),
          ap (weigh f) (refcnt_released pkt (length is + k - 1) w),
          weigh-append f (acquired w) (replicate (length is + k - 1) pkt),
        ),
      )

  multicast-Moved :
      (pkt : ℕ) (s : ClsComp h × World)
      → IsRouted h n s.0.mac_clfs
      → To (f pkt) s (handle_l2multicast_packet h eth caps pkt s)
  unfolding handle_l2multicast_packet
  multicast-Moved pkt (c, w) routed = elim (Option-cases (c.mac_clfs (get_vid (frame pkt w)))) [
    | inl e ↦ rw (e, handle_l2multicast_packet) (push_default-Moved pkt (c, w) routed)
    | inr (m, e) ↦ elim (Bool-cases (length m.cls_ports == 0)) [
      | inl z ↦ rw (e, handle_l2multicast_packet, z) (push_default-Moved pkt (c, w) routed)
      | inr z ↦
          rw (e, handle_l2multicast_packet, z)
            (push_members-Moved pkt (get_vid (frame pkt w)) m.cls_ports (c, w) routed
              (subst (λ o. AllBelow n (members_of h o)) e (routed (get_vid (frame pkt w))).0)
              (ground arith))
    ]
  ]

  classify_one-Moved :
      (pkt : ℕ) (s : ClsComp h × World)
      → IsRouted h n s.0.mac_clfs
      → To (f pkt) s (classify_one h eth caps pkt s)
  unfolding classify_one
  classify_one-Moved pkt (c, w) routed =
      elim (Selected-cases (select_classified_index h (frame pkt w) c)) [
        | inl (i, e) ↦
            rw (e, classify_one)
              (push_to-Moved h eth caps sure f n pkt i (c, w)
                (select-Below h n (frame pkt w) c i routed e))
        | inr (inl e) ↦ rw (e, classify_one) (free-Moved pkt c w)
        | inr (inr e) ↦ rw (e, classify_one) (multicast-Moved pkt (c, w) routed)
      ]

  pub classify_all-Moved :
      (pkts : List ℕ) (s : ClsComp h × World)
      → IsRouted h n s.0.mac_clfs
      → To (weigh f pkts) s (classify_all h eth caps pkts s)
  unfolding classify_all
  classify_all-Moved [] s routed = Moved-refl h eth caps sure f n s
  classify_all-Moved (pkt ∷ pkts) s routed =
      let one = classify_one-Moved pkt s routed in
      let t = classify_one h eth caps pkt s in
      Moved-trans h eth caps sure f n (f pkt) (weigh f pkts) s t (classify_all h eth caps pkts t)
        one (classify_all-Moved pkts t (subst (IsRouted h n) (sym one.0) routed))
