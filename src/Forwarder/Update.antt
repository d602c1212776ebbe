-- ===== src/Forwarder/Update.antt =====
-- `update_forwarder` and `change_forward_index` of src/vf/forwarder.c: what a worker sees of an update.
use spp_tmp.Base.{
  update, ◌≤◌, ℕ_discrete, ℕ, ◌+◌, ◌*◌, ◌%◌, ◌<◌, ◌≡◌, ◌⊎◌, ◌↔◌, refl, ap, ◌∙◌, true, false,
  if◌then◌else◌, ltb, arith, for_from, for_from_inv,
}
use spp_tmp.WorkerTypes.{PortIdx, PortInfo, PortArray, CompInfo, two_sides}
use spp_tmp.Capability.{CapState, swap_ref}
use spp_tmp.Forwarder.{
  Updated, ForwardPath, ForwardInfo, zero_path, copy_rx, copy_tx, make_path, update_forwarder,
  is_waiting, change_forward_index, is_fwd,
}

-- The worker reads one side and the main thread has the other.
abbrev pub IsFlipped : ForwardInfo → Type 0
IsFlipped i = (i.ref_index < two_sides) × (i.upd_index ≡ (i.ref_index + 1) % two_sides)

abbrev pub current : ForwardInfo → ForwardPath
current i = i.path i.ref_index

module _ (deref : PortIdx → PortInfo) where
  -- What the loops over the ports leave alone.
  abbrev SameHeader : ForwardPath → ForwardPath → Type 0
  SameHeader p q =
      (q.nof_rx ≡ p.nof_rx) × (q.nof_tx ≡ p.nof_tx) × (q.wk_type ≡ p.wk_type) × (q.name ≡ p.name)

  copied_rx :
      (ports : PortArray) (n : ℕ) (p : ForwardPath)
      → let q = for_from n 0 (copy_rx deref ports) p in
        ((k : ℕ) → k < 0 + n → q.rx k ≡ deref (ports.ptr k)) × (q.tx ≡ p.tx) × (SameHeader p q)
  unfolding copy_rx
  copied_rx ports n p =
      for_from_inv
        (λ j q. ((k : ℕ) → k < j → q.rx k ≡ deref (ports.ptr k)) × (q.tx ≡ p.tx) × (SameHeader p q))
        (copy_rx deref ports) n 0 p (λ j q _ _ h. ((λ k lt. ground (arith, h.0 k)), h.1, h.2))
        ((λ k lt. absurd (omega arith)), refl, (refl, refl, refl, refl))

  copied_tx :
      (ports : PortArray) (n : ℕ) (p : ForwardPath)
      → let q = for_from n 0 (copy_tx deref ports) p in
        ((k : ℕ) → k < 0 + n → q.tx k ≡ deref (ports.ptr 0)) × (q.rx ≡ p.rx) × (SameHeader p q)
  unfolding copy_tx
  copied_tx ports n p =
      for_from_inv
        (λ j q. ((k : ℕ) → k < j → q.tx k ≡ deref (ports.ptr 0)) × (q.rx ≡ p.rx) × (SameHeader p q))
        (copy_tx deref ports) n 0 p (λ j q _ _ h. ((λ k lt. ground (arith, h.0 k)), h.1, h.2))
        ((λ k lt. absurd (omega arith)), refl, (refl, refl, refl, refl))

  -- The path of a component: it forwards each of its RX ports to its TX port.
  abbrev pub Routes : CompInfo → ForwardPath → Type 0
  Routes c p =
      (p.nof_rx ≡ c.rx.nof)
      × (p.nof_tx ≡ c.tx.nof)
      × (p.wk_type ≡ c.wk_type)
      × (p.name ≡ c.name)
      × ((k : ℕ) → k < c.rx.nof → p.rx k ≡ deref (c.rx.ptr k))
      × ((k : ℕ) → k < c.rx.nof * c.tx.nof → p.tx k ≡ deref (c.tx.ptr 0))

  make_path-Routes : (c : CompInfo) → c.tx.nof ≤ 1 → Routes c (make_path deref c)
  unfolding make_path
  make_path-Routes c le =
      let (rx, _, h) = copied_rx c.rx c.rx.nof start in
      let (tx, same, g) = copied_tx c.tx nof_max (for_from c.rx.nof 0 (copy_rx deref c.rx) start) in
      (
        g.0 ∙ h.0,
        g.1 ∙ h.1,
        g.2 ∙ h.2,
        g.3 ∙ h.3,
        λ k lt. ap (λ r. r k) same ∙ rx k (omega arith),
        λ k lt. tx k (elim (ℕ_discrete c.tx.nof 1) [
          | yes one ↦
              let m : c.rx.nof * c.tx.nof ≡ c.rx.nof = ap (λ n. c.rx.nof * n) one ∙ omega arith in
              ground (arith, m)
          | no ne ↦
              let z : c.tx.nof ≡ 0 = omega (arith, ne) in
              let m : c.rx.nof * c.tx.nof ≡ 0 = ap (λ n. c.rx.nof * n) z ∙ omega arith in
              absurd (omega (arith, m))
        ]),
      )
    where
      start : ForwardPath
      start = record zero_path {
        name = c.name;
        wk_type = c.wk_type;
        nof_rx = c.rx.nof;
        nof_tx = c.tx.nof;
      }

      nof_max : ℕ
      nof_max = if ltb c.tx.nof c.rx.nof then c.rx.nof * c.tx.nof else c.tx.nof

  -- The update is refused exactly for a forwarder with more than one RX port and for a component
  -- with more than one TX port.
  pub update_forwarder-refuses :
      (max_ethports : ℕ) (c : CompInfo) (info : ForwardInfo)
      → (update_forwarder deref max_ethports c info ≡ Updated.ng)
        ↔ (((is_fwd c.wk_type ≡ true) × (1 < c.rx.nof)) ⊎ (1 < c.tx.nof))
  unfolding update_forwarder
  update_forwarder-refuses max_ethports c info = ground arith

  -- With at most one TX port, at most one RX port if it is a forwarder, and at most RTE_MAX_ETHPORTS
  -- (which is not 0) RX ports, a component can be updated. The update does not touch the path that the
  -- worker reads, and lets the main thread wait. The worker's next call ends the wait, and the worker
  -- then reads a path that forwards each RX port of the component to its TX port.
  pub update_forwarder_publishes :
      (max_ethports : ℕ) (c : CompInfo) (info : ForwardInfo) (caps : CapState)
      → IsFlipped info
      → c.tx.nof ≤ 1
      → (is_fwd c.wk_type ≡ true → c.rx.nof ≤ 1)
      → c.rx.nof ≤ max_ethports
      → 1 ≤ max_ethports
      → (t : ForwardInfo) × (update_forwarder deref max_ethports c info ≡ Updated.updated t)
        × (current t ≡ current info)
        × (is_waiting t ≡ true)
        × (let (u, caps') = change_forward_index (t, caps) in
            (is_waiting u ≡ false)
            × (Routes c (current u))
            × (IsFlipped u)
            × (caps' ≡ swap_ref caps))
  unfolding update_forwarder change_forward_index is_waiting
  update_forwarder_publishes max_ethports c info caps f one fwd le pos =
      let t : ForwardInfo = record info {
        path = update info.path info.upd_index (make_path deref c);
        upd_index = info.ref_index;
      } in
      let m : update_forwarder deref max_ethports c info ≡ Updated.updated t = ground arith in
      let e : current (change_forward_index (t, caps)).0 ≡ make_path deref c = ground arith in
      (
        t,
        m,
        ground arith,
        ground arith,
        (ground arith, rw e (make_path-Routes c one), (ground arith, ground arith), ground arith),
      )

  -- A merger with more RX ports, which its type allows, makes the update write behind the path.
  pub update_forwarder_overruns :
      (max_ethports : ℕ) (c : CompInfo) (info : ForwardInfo)
      → c.tx.nof ≤ 1
      → is_fwd c.wk_type ≡ false
      → max_ethports < c.rx.nof
      → update_forwarder deref max_ethports c info ≡ Updated.crash
  unfolding update_forwarder
  update_forwarder_overruns max_ethports c info one fwd more = ground arith
