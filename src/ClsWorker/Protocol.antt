-- ===== src/ClsWorker/Protocol.antt =====
-- `update_classifier` and `change_classifier_index` of src/vf/classifier.c: the update of a classifier
-- while its thread runs.
use spp_tmp.Base.{
  ℕ, ◌+◌, ◌%◌, ◌<◌, ◌≡◌, ◌≢◌, refl, ap, ◌∙◌, true, false, ◌==◌, arith, update, update_self,
  update_ne, ==_ne, ℕ_discrete, Bool-cases, inl, inr,
}
use spp_tmp.Ethdev.{Ethdev}
use spp_tmp.WorkerTypes.{PortInfo, PortIdx, CompInfo, two_sides}
use spp_tmp.Capability.{CapState}
use spp_tmp.Classifier.{
  MacHash, ClsComp, ClsMng, zero_cls_comp, clean_classifier, init_component_info, update_classifier,
  clean_old, is_waiting,
}
use spp_tmp.ClsWorker.{change_classifier_index}

module _ (h : MacHash) (deref : PortIdx → PortInfo) (eth : Ethdev) where
  open eth use {World}

  -- The thread reads one side and the main thread has the other.
  abbrev pub IsFlipped : ClsMng h → Type 0
  IsFlipped m = (m.ref_index < two_sides) × (m.upd_index ≡ (m.ref_index + 1) % two_sides)

  abbrev pub current : ClsMng h → ClsComp h
  current m = m.comp_list m.ref_index

  -- What the component of a successful update is built from.
  abbrev pub built : CompInfo → ClsMng h → ℕ → ClsComp h
  built wk m count = record ((init_component_info h deref wk (m.comp_list m.upd_index, count)).1) {
    name = wk.name;
  }

  update_inv :
      (wk : CompInfo) (m : ClsMng h) (count : ℕ) {t : ClsMng h} {count' : ℕ}
      → update_classifier h deref wk (m, count) ≡ (true, t, count')
      → (t.ref_index ≡ m.ref_index)
        × (t.upd_index ≡ m.ref_index)
        × (t.comp_list ≡ update m.comp_list m.upd_index (built wk m count))
  unfolding update_classifier
  update_inv wk m count {t} e =
      elim (Bool-cases (init_component_info h deref wk (m.comp_list m.upd_index, count)).0) [
        | inl b ↦ (ground arith, ground arith, ground arith)
        | inr b ↦ absurd (ground arith)
      ]

  switch_comp :
      (m : ClsMng h) (caps : CapState) (w : World) (side : ℕ)
      → (m.ref_index == m.upd_index) ≡ true
      → side ≢ m.ref_index
      → let (u, _, _) = change_classifier_index h eth (m, caps, w) in
        (u.comp_list side ≡ m.comp_list side)
        × (u.ref_index ≡ (m.upd_index + 1) % two_sides)
        × (u.upd_index ≡ m.upd_index)
  unfolding change_classifier_index
  switch_comp m caps w side e ne = rw e (update_ne m.comp_list m.ref_index side _ ne, refl, refl)

  -- A successful update does not touch the side that the thread reads, and lets the main thread wait.
  -- The next call of the thread ends the wait and makes the built tables current; the main thread
  -- then cleans the other side, which is the one that it fills next.
  pub update_classifier_publishes :
      (wk : CompInfo) (m : ClsMng h) (count : ℕ) (caps : CapState) (w : World) {t : ClsMng h}
      {count' : ℕ}
      → IsFlipped m
      → update_classifier h deref wk (m, count) ≡ (true, t, count')
      → let (u, _, _) = change_classifier_index h eth (t, caps, w) in
        let v = clean_old h u in
        (current t ≡ current m)
        × (is_waiting h t ≡ true)
        × (is_waiting h u ≡ false)
        × (current v ≡ built wk m count)
        × (v.comp_list v.upd_index ≡ zero_cls_comp h)
        × IsFlipped v
  unfolding is_waiting clean_old
  update_classifier_publishes wk m count caps w {t} f e =
      let (r, p, c) = update_inv wk m count e in
      let same : (t.ref_index == t.upd_index) ≡ true = ground arith in
      let (k, i, j) = switch_comp t caps w m.upd_index same (ground arith) in
      let u = (change_classifier_index h eth (t, caps, w)).0 in
      let ur : u.ref_index ≡ m.upd_index = omega (arith, i, p, f.1) in
      let ne : u.ref_index ≢ u.upd_index = omega (arith, i, j, p, f) in
      (
        ap (λ g. g t.ref_index) c
            ∙ rw r (
                update_ne m.comp_list m.upd_index m.ref_index (built wk m count)
                  (omega (arith, f))),
        same,
        ==_ne u.ref_index u.upd_index ne,
        update_ne u.comp_list u.upd_index u.ref_index (zero_cls_comp h) ne
            ∙ (ap u.comp_list ur
                ∙ (k
                    ∙ (ap (λ g. g m.upd_index) c
                        ∙ update_self m.comp_list m.upd_index (built wk m count)))),
        update_self u.comp_list u.upd_index (zero_cls_comp h),
        (omega (arith, i), omega (arith, i, j, p, f)),
      )

  -- From the initial state, where both sides are side 0: if the main thread updates before the thread
  -- of the classifier has run, the thread switches to the other, empty side, and the main thread then
  -- cleans the side that it has just built. The update is lost, although it returns success.
  pub update_classifier_lost :
      (wk : CompInfo) (count : ℕ) (caps : CapState) (w : World) {t : ClsMng h} {count' : ℕ}
      → update_classifier h deref wk (clean_classifier h, count) ≡ (true, t, count')
      → let (u, _, _) = change_classifier_index h eth (t, caps, w) in
        (is_waiting h u ≡ false) × ((side : ℕ) → (clean_old h u).comp_list side ≡ zero_cls_comp h)
  unfolding clean_classifier is_waiting clean_old
  update_classifier_lost wk count caps w {t} e =
      let (r, p, c) = update_inv wk (clean_classifier h) count e in
      let same : (t.ref_index == t.upd_index) ≡ true = ground arith in
      let u = (change_classifier_index h eth (t, caps, w)).0 in
      let (_, i, j) = switch_comp t caps w 1 same (omega (arith, r)) in
      (
        ==_ne u.ref_index u.upd_index (omega (arith, i, j, p)),
        λ side. elim (ℕ_discrete side 0) [
          | yes z ↦ rw (z, j, p) (update_self u.comp_list 0 (zero_cls_comp h))
          | no nz ↦
              let (k, _, _) = switch_comp t caps w side same (omega (arith, r)) in
              update_ne u.comp_list u.upd_index side (zero_cls_comp h) (omega (arith, j, p))
              ∙ (k
                  ∙ (ap (λ g. g side) c
                      ∙ update_ne (clean_classifier h).comp_list 0 side
                          (built wk (clean_classifier h) count) nz))
        ],
      )
