-- ===== src/Mirror/Update.antt =====
-- `update_mirror` and `change_mirror_index` of src/mirror/spp_mirror.c: how a path reaches the worker.
use spp_tmp.Base.{
  ℕ, ◌+◌, ◌%◌, ◌<◌, ◌≤◌, ◌≡◌, refl, ap, ◌∙◌, true, false, some, update, arith, for_from,
  for_from_inv,
}
use spp_tmp.WorkerTypes.{PortIdx, PortInfo, PortArray, CompInfo, two_sides}
use spp_tmp.Capability.{CapState, swap_ref}
use spp_tmp.Mirror.{
  MirrorPath, MirrorInfo, zero_path, copy_rx, copy_tx, make_path, update_mirror, is_waiting,
  change_mirror_index,
}

-- The worker reads one side and the main thread has the other.
abbrev pub IsFlipped : MirrorInfo → Type 0
IsFlipped i = (i.ref_index < two_sides) × (i.upd_index ≡ (i.ref_index + 1) % two_sides)

abbrev pub current : MirrorInfo → MirrorPath
current i = i.path i.ref_index

-- The numbers of ports that a mirror can have.
abbrev pub Fits : CompInfo → Type 0
Fits c = (c.rx.nof ≤ 1) × (c.tx.nof ≤ 2)

module _ (deref : PortIdx → PortInfo) where
  copied_rx :
      (ports : PortArray) (n : ℕ) (p : MirrorPath)
      → let q = for_from n 0 (copy_rx deref ports) p in
        ((k : ℕ) → k < 0 + n → q.rx k ≡ deref (ports.ptr k))
        × (q.nof_rx ≡ p.nof_rx)
        × (q.nof_tx ≡ p.nof_tx)
  unfolding copy_rx
  copied_rx ports n p =
      for_from_inv
        (λ j q.
          ((k : ℕ) → k < j → q.rx k ≡ deref (ports.ptr k))
          × (q.nof_rx ≡ p.nof_rx)
          × (q.nof_tx ≡ p.nof_tx))
        (copy_rx deref ports) n 0 p (λ j q _ _ h. ((λ k lt. ground (arith, h.0 k)), h.1, h.2))
        ((λ k lt. absurd (omega arith)), refl, refl)

  copied_tx :
      (ports : PortArray) (n : ℕ) (p : MirrorPath)
      → let q = for_from n 0 (copy_tx deref ports) p in
        ((k : ℕ) → k < 0 + n → q.tx k ≡ deref (ports.ptr k))
        × (q.rx ≡ p.rx)
        × (q.nof_rx ≡ p.nof_rx)
        × (q.nof_tx ≡ p.nof_tx)
  unfolding copy_tx
  copied_tx ports n p =
      for_from_inv
        (λ j q.
          ((k : ℕ) → k < j → q.tx k ≡ deref (ports.ptr k))
          × (q.rx ≡ p.rx)
          × (q.nof_rx ≡ p.nof_rx)
          × (q.nof_tx ≡ p.nof_tx))
        (copy_tx deref ports) n 0 p (λ j q _ _ h. ((λ k lt. ground (arith, h.0 k)), h.1, h.2, h.3))
        ((λ k lt. absurd (omega arith)), refl, refl, refl)

  -- A path is a copy of the component's ports.
  abbrev pub Copies : CompInfo → MirrorPath → Type 0
  Copies c p =
      ((k : ℕ) → k < c.rx.nof → p.rx k ≡ deref (c.rx.ptr k))
      × ((k : ℕ) → k < c.tx.nof → p.tx k ≡ deref (c.tx.ptr k))
      × (p.nof_rx ≡ c.rx.nof)
      × (p.nof_tx ≡ c.tx.nof)

  pub make_path-Copies : (c : CompInfo) → Copies c (make_path deref c)
  unfolding make_path
  make_path-Copies c =
      let (rx, r, t) = copied_rx c.rx c.rx.nof start in
      let (tx, same, g, g') =
        copied_tx c.tx c.tx.nof (for_from c.rx.nof 0 (copy_rx deref c.rx) start) in
      ((λ k h. ap (λ f. f k) same ∙ rx k (omega arith)), (λ k h. tx k (omega arith)), g ∙ r, g' ∙ t)
    where
      start : MirrorPath
      start = record zero_path {
        name = c.name;
        wk_type = c.wk_type;
        nof_rx = c.rx.nof;
        nof_tx = c.tx.nof;
      }

  -- An update of a component with at most one RX port and two TX ports does not touch the path that
  -- the worker reads, and lets the main thread wait. The worker's next call ends the wait, and the
  -- worker then reads the ports of the component.
  pub update_mirror_publishes :
      (c : CompInfo) (info : MirrorInfo) (caps : CapState)
      → IsFlipped info
      → Fits c
      → (t : MirrorInfo) × (update_mirror deref c info ≡ some t)
        × (current t ≡ current info)
        × (is_waiting t ≡ true)
        × (let (u, caps') = change_mirror_index (t, caps) in
            (is_waiting u ≡ false)
            × (Copies c (current u))
            × (IsFlipped u)
            × (caps' ≡ swap_ref caps))
  unfolding update_mirror change_mirror_index is_waiting
  update_mirror_publishes c info caps f h =
      let t : MirrorInfo = record info {
        path = update info.path info.upd_index (make_path deref c);
        upd_index = info.ref_index;
      } in
      let m : update_mirror deref c info ≡ some t = ground arith in
      let e : current (change_mirror_index (t, caps)).0 ≡ make_path deref c = ground arith in
      (
        t,
        m,
        ground arith,
        ground arith,
        (ground arith, rw e (make_path-Copies c), (ground arith, ground arith), ground arith),
      )
