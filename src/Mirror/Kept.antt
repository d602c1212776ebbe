-- ===== src/Mirror/Kept.antt =====
-- What the steps of a flush leave alone: `update_port_info` and `update_lcore_info` of
-- src/shared/secondary/spp_worker_th/cmd_utils.c.
use spp_tmp.Base.{
  ℕ, zero, suc, ◌+◌, ◌≡◌, refl, ◌∙◌, Option, some, Bool-cases, Option-cases, inl, inr,
}
use spp_tmp.WorkerTypes.{PortInfo}
use spp_tmp.Manager.{MngData}
use spp_tmp.Lcore.Publish.{mark_cores_comps, copy_cores_comps}
use spp_tmp.Lcore.{mark_cores, switch_core}
use spp_tmp.Mirror.Counts.{AllMirrors}
use spp_tmp.Mirror.Flush.{
  add_ports, is_added, put_vhost, put_ring, update_port_info, update_lcore_info,
}

-- The components and their flags.
abbrev pub SameComps : MngData → MngData → Type 0
SameComps s t = (t.component ≡ s.component) × (t.change_component ≡ s.change_component)

pub same-AllMirrors : (s t : MngData) → SameComps s t → AllMirrors s → AllMirrors t
same-AllMirrors s t (e, d) all i = rw (e, d) (all i)

module _ {S : Type 0} where
  add_ports-SameComps :
      (add : ℕ → S → Option ℕ × S) (load : MngData → ℕ → PortInfo)
      (store : ℕ → PortInfo → MngData → MngData) (n cnt : ℕ) (s : MngData) (d : S)
      → ((k : ℕ) (p : PortInfo) (t : MngData) → SameComps t (store k p t))
      → SameComps s (add_ports add load store n cnt (s, d)).1
  unfolding add_ports
  add_ports-SameComps add load store zero cnt s d keep = (refl, refl)
  add_ports-SameComps add load store (suc n) cnt s d keep =
      elim (Bool-cases (is_added (load s cnt))) [
        | inr e ↦ rw e (add_ports-SameComps add load store n (cnt + 1) s d keep)
        | inl e ↦ elim (Option-cases (add (load s cnt).iface_no d).0) [
          | inl f ↦ rw (e, f) (refl, refl)
          | inr (p, f) ↦
              let t = store cnt (record (load s cnt) { ethdev_port_id = some p }) s in
              let (a, b) = keep cnt (record (load s cnt) { ethdev_port_id = some p }) s in
              let (x, y) =
                add_ports-SameComps add load store n (cnt + 1) t (add (load s cnt).iface_no d).1
                  keep in
              rw (e, f) (x ∙ a, y ∙ b)
        ]
      ]

module _ (max_lcore max_ethports : ℕ) {S : Type 0}
    (add_vhost_pmd add_ring_pmd : ℕ → S → Option ℕ × S) where
  pub update_port_info-SameComps :
      (s : MngData) (d : S)
      → SameComps s (update_port_info max_lcore max_ethports add_vhost_pmd add_ring_pmd (s, d)).1
  unfolding update_port_info
  update_port_info-SameComps s d =
      let r = add_ports add_vhost_pmd (λ (s : MngData). s.vhost) put_vhost max_ethports 0 (s, d) in
      let (a, b) =
        add_ports-SameComps add_vhost_pmd (λ (s : MngData). s.vhost) put_vhost max_ethports 0 s d
          (λ k p t. (refl, refl)) in
      let (x, y) =
        add_ports-SameComps add_ring_pmd (λ (s : MngData). s.ring) put_ring max_ethports 0 r.1 r.2
          (λ k p t. (refl, refl)) in
      elim (Bool-cases r.0) [ inl e ↦ rw e (x ∙ a, y ∙ b) | inr e ↦ rw e (a, b) ]

pub update_lcore_info-SameComps :
    (max_lcore max_ethports : ℕ) (s : MngData)
    → SameComps s (update_lcore_info max_lcore max_ethports s)
unfolding update_lcore_info
update_lcore_info-SameComps max_lcore max_ethports s =
    let t = mark_cores max_lcore s in
    let (a, b) = mark_cores_comps max_lcore s in
    let (x, y) = copy_cores_comps max_lcore (record t { core = λ k. switch_core (t.core k) }) in
    (x ∙ a, y ∙ b)
