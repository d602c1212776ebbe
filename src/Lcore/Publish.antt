-- ===== src/Lcore/Publish.antt =====
-- The flush of the lists of components, as the worker threads see it.
use spp_tmp.Base.{
  ℕ, ◌+◌, ◌%◌, ◌<◌, ◌≡◌, refl, sym, ap, ◌∙◌, true, false, ◌&&◌, if◌then◌else◌, update, update_self,
  update_ne, for_from, for_from_inv, arith, subst, ltb, Bool-cases, inl, inr, ℕ_discrete,
}
use spp_tmp.WorkerTypes.{two_sides}
use spp_tmp.Manager.{CoreMngInfo, MngData}
use spp_tmp.Lcore.{
  get_core_info, sppwk_is_lcore_updated, mark_core, copy_core, on_changed, mark_cores, copy_cores,
  switch_core,
}

-- The thread reads one side and the main thread has the other.
abbrev pub IsFlipped : CoreMngInfo → Type 0
IsFlipped c = (c.ref_index < two_sides) × (c.upd_index ≡ (c.ref_index + 1) % two_sides)

-- A loop over the lcores applies `f` to each that was changed.
changed_cores :
    (f : CoreMngInfo → CoreMngInfo) (n : ℕ) (s : MngData)
    → let t = for_from n 0 (on_changed f) s in
      ((k : ℕ) → t.core k ≡ (if ltb k n && s.change_core k then f (s.core k) else s.core k))
      × (t.change_core ≡ s.change_core)
changed_cores f n s =
    subst
      (λ m.
        let t = for_from n 0 (on_changed f) s in
        ((k : ℕ) → t.core k ≡ (if ltb k m && s.change_core k then f (s.core k) else s.core k))
        × (t.change_core ≡ s.change_core))
      {x = 0 + n} (omega arith)
      (for_from_inv
        (λ m (t : MngData).
          ((k : ℕ) → t.core k ≡ (if ltb k m && s.change_core k then f (s.core k) else s.core k))
          × (t.change_core ≡ s.change_core))
        (on_changed f) n 0 s (λ m t _ _ h. step m t h) ((λ k. ground arith), refl))
  where
    step :
        (m : ℕ) (t : MngData)
        → ((k : ℕ) → t.core k ≡ (if ltb k m && s.change_core k then f (s.core k) else s.core k))
          × (t.change_core ≡ s.change_core)
        → ((k : ℕ)
            → (on_changed f m t).core k
              ≡ (if ltb k (m + 1) && s.change_core k then f (s.core k) else s.core k))
          × ((on_changed f m t).change_core ≡ s.change_core)
    step m t (h, e) =
        let now : t.change_core m ≡ s.change_core m = ap (λ g. g m) e in
        let here : t.core m ≡ s.core m = h m ∙ ground arith in
        elim (Bool-cases (t.change_core m)) [
          | inr b ↦ rw b ((λ k. h k ∙ other k (sym now ∙ b)), e)
          | inl b ↦ rw b ((λ k. changed k (sym now ∙ b) (h k) here), e)
        ]
      where
        other :
            (k : ℕ)
            → s.change_core m ≡ false
            → (if ltb k m && s.change_core k then f (s.core k) else s.core k)
              ≡ (if ltb k (m + 1) && s.change_core k then f (s.core k) else s.core k)
        other k b = elim (ℕ_discrete k m) [
          | yes z ↦
              subst
                (λ j.
                  (if ltb j m && s.change_core j then f (s.core j) else s.core j)
                  ≡ (if ltb j (m + 1) && s.change_core j then f (s.core j) else s.core j))
                (sym z) (ground arith)
          | no ne ↦ let q : ltb k (m + 1) ≡ ltb k m = ground arith in rw q
        ]

        changed :
            (k : ℕ)
            → s.change_core m ≡ true
            → t.core k ≡ (if ltb k m && s.change_core k then f (s.core k) else s.core k)
            → t.core m ≡ s.core m
            → update t.core m (f (t.core m)) k
              ≡ (if ltb k (m + 1) && s.change_core k then f (s.core k) else s.core k)
        changed k b hk here = elim (ℕ_discrete k m) [
          | yes z ↦
              subst
                (λ j.
                  update t.core m (f (t.core m)) j
                  ≡ (if ltb j (m + 1) && s.change_core j then f (s.core j) else s.core j))
                (sym z) (update_self t.core m (f (t.core m)) ∙ (ap f here ∙ ground arith))
          | no ne ↦
              let q : ltb k (m + 1) ≡ ltb k m = ground arith in
              update_ne t.core m k (f (t.core m)) ne ∙ rw q hk
        ]

-- One lcore: until the thread switches, it reads the list of before; then it reads the one that the
-- main thread had written, and after the copy both sides hold that list and are told apart.
core_published :
    (c : CoreMngInfo)
    → IsFlipped c
    → let m = mark_core c in
      let s = switch_core m in
      let d = copy_core s in
      (get_core_info m ≡ get_core_info c)
      × (sppwk_is_lcore_updated m ≡ true)
      × (sppwk_is_lcore_updated s ≡ false)
      × (get_core_info d ≡ c.core c.upd_index)
      × (d.core d.upd_index ≡ c.core c.upd_index)
      × IsFlipped d
unfolding get_core_info sppwk_is_lcore_updated switch_core
core_published c f = ground arith

-- A thread whose lcore is not changed goes on with its list.
core_idle :
    (c : CoreMngInfo) → IsFlipped c → (sppwk_is_lcore_updated c ≡ false) × (switch_core c ≡ c)
unfolding sppwk_is_lcore_updated switch_core
core_idle c f = ground arith

-- A flush, where every thread of a changed lcore switches between the two loops of
-- `update_lcore_info`. Until then each thread reads the list of before, and the main thread waits for
-- those that are changed. Then each thread of a changed lcore reads the list that the main thread had
-- written, both sides hold it, and the sides are told apart; the other lcores are untouched.
pub flush_published :
    (n : ℕ) (s u : MngData)
    → ((k : ℕ) → IsFlipped (s.core k))
    → ((k : ℕ) → u.core k ≡ switch_core ((mark_cores n s).core k))
    → u.change_core ≡ s.change_core
    → (k : ℕ) → k < n
    → let old = s.core k in
      let new = (copy_cores n u).core k in
      (get_core_info ((mark_cores n s).core k) ≡ get_core_info old)
      × (sppwk_is_lcore_updated ((mark_cores n s).core k) ≡ s.change_core k)
      × (s.change_core k ≡ true
          → (get_core_info new ≡ old.core old.upd_index)
            × (new.core new.upd_index ≡ old.core old.upd_index))
      × (s.change_core k ≡ false → new ≡ old)
      × IsFlipped new
unfolding mark_cores copy_cores
flush_published n s u flipped switched same k lt = elim (Bool-cases (s.change_core k)) [
  | inl b ↦
      let m : (mark_cores n s).core k ≡ mark_core (s.core k) =
        (changed_cores mark_core n s).0 k ∙ ground arith in
      let d : (copy_cores n u).core k ≡ copy_core (u.core k) =
        (changed_cores copy_core n u).0 k ∙ ground (arith, ap (λ g. g k) same) in
      let (read, wait, _, new, both, sides) = core_published (s.core k) (flipped k) in
      let dd = d ∙ ap copy_core (switched k ∙ ap switch_core m) in
      (
        ap get_core_info m ∙ read,
        ap sppwk_is_lcore_updated m ∙ (wait ∙ sym b),
        (λ _. (ap get_core_info dd ∙ new, ap (λ c. c.core c.upd_index) dd ∙ both)),
        (λ f. absurd (ground arith)),
        subst IsFlipped (sym dd) sides,
      )
  | inr b ↦
      let m : (mark_cores n s).core k ≡ s.core k =
        (changed_cores mark_core n s).0 k ∙ ground arith in
      let d : (copy_cores n u).core k ≡ u.core k =
        (changed_cores copy_core n u).0 k ∙ ground (arith, ap (λ g. g k) same) in
      let dd = d ∙ (switched k ∙ (ap switch_core m ∙ (core_idle (s.core k) (flipped k)).1)) in
      (
        ap get_core_info m,
        ap sppwk_is_lcore_updated m ∙ ((core_idle (s.core k) (flipped k)).0 ∙ sym b),
        (λ t. absurd (ground arith)),
        (λ _. dd),
        subst IsFlipped (sym dd) (flipped k),
      )
]

-- The components and their flags stay as they are in such a loop.
changed_comps :
    (f : CoreMngInfo → CoreMngInfo) (n : ℕ) (s : MngData)
    → let t = for_from n 0 (on_changed f) s in
      (t.component ≡ s.component) × (t.change_component ≡ s.change_component)
changed_comps f n s =
    for_from_inv
      (λ _ (t : MngData). (t.component ≡ s.component) × (t.change_component ≡ s.change_component))
      (on_changed f) n 0 s (λ j t _ _ h. (ground (arith, h.0), ground (arith, h.1))) (refl, refl)

pub mark_cores_comps :
    (n : ℕ) (s : MngData)
    → let t = mark_cores n s in
      (t.component ≡ s.component) × (t.change_component ≡ s.change_component)
unfolding mark_cores
mark_cores_comps n s = changed_comps mark_core n s

pub copy_cores_comps :
    (n : ℕ) (s : MngData)
    → let t = copy_cores n s in
      (t.component ≡ s.component) × (t.change_component ≡ s.change_component)
unfolding copy_cores
copy_cores_comps n s = changed_comps copy_core n s
