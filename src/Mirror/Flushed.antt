-- ===== src/Mirror/Flushed.antt =====
-- What a flush of spp_mirror does: `update_comp_info` of src/mirror/mir_cmd_runner.c and `flush_cmd` of
-- src/shared/secondary/spp_worker_th/cmd_runner.c.
use spp_tmp.Base.{
  Bool, Option, none, Option-cases, ℕ, zero, suc, ◌+◌, ◌≤◌, ◌<◌, ◌≡◌, refl, ap, ◌∙◌, true, false,
  some, arith, Bool-cases, inl, inr, subst, ℕ_discrete, update, update_self, update_ne, ◌⊎◌,
}
use spp_tmp.Capability.{CapState}
use spp_tmp.Manager.{MngData, deref}
use spp_tmp.Flush.{sppwk_update_port_dir}
use spp_tmp.Flush.Total.{Used, update_port_dir_total}
use spp_tmp.Mirror.{MirrorInfo, update_mirror, change_mirror_index, is_waiting}
use spp_tmp.Mirror.Update.{IsFlipped, Copies, Fits, current, update_mirror_publishes}
use spp_tmp.Mirror.Counts.{AllMirrors}
use spp_tmp.Mirror.Flush.{update_comp_info}
use spp_tmp.Mirror.Room.{
  Reachable, Reachable-Used, HasRoom, HasRoom-changed, change_mirror_index-Used,
}

-- The thread of a component no longer makes the main thread wait and reads its ports.
abbrev pub Reads : MngData → ℕ → MirrorInfo → Type 0
Reads s i info = (is_waiting info ≡ false) × Copies (deref s) (s.component i) (current info)

abbrev pub AllFlipped : (ℕ → MirrorInfo) → Type 0
AllFlipped info = (i : ℕ) → IsFlipped (info i)

-- One component: the update, and the round of its thread that ends the wait.
handed_one :
    (s : MngData) (cnt : ℕ) (caps : CapState) (i : MirrorInfo)
    → IsFlipped i
    → Fits (s.component cnt)
    → Reachable s caps cnt
    → caps.rx.num + (s.component cnt).rx.nof ≤ caps.rx.size
    → caps.tx.num + (s.component cnt).tx.nof ≤ caps.tx.size
    → (caps' : CapState) × (sppwk_update_port_dir (deref s) (s.component cnt) caps ≡ some caps')
      × (t : MirrorInfo) × (update_mirror (deref s) (s.component cnt) i ≡ some t)
      × (Reads s cnt (change_mirror_index (t, caps')).0)
      × (IsFlipped (change_mirror_index (t, caps')).0)
      × (Used
          (s.component cnt).rx.nof
          (s.component cnt).tx.nof
          caps
          (change_mirror_index (t, caps')).1)
handed_one s cnt caps i f h (prx, ptx) rrx rtx =
    let c = s.component cnt in
    let (caps', e, u) = update_port_dir_total (deref s) c caps prx ptx rrx rtx in
    let (t, m, _, _, (w, k, g, _)) = update_mirror_publishes (deref s) c i caps' f h in
    (caps', e, t, m, (w, k), g, change_mirror_index-Used c.rx.nof c.tx.nof t caps caps' u)

-- What a component `i` gets in a flush of the components from `cnt` on.
abbrev pub Handed : MngData → ℕ → ℕ → ℕ → MirrorInfo → MirrorInfo → Type 0
Handed s n cnt i old new =
    ((cnt ≤ i) × (i < cnt + n) × (s.change_component i ≡ true) → Reads s i new)
    × ((i < cnt) ⊎ (s.change_component i ≡ false) → new ≡ old)

Handed-skip :
    (s : MngData) (n cnt i : ℕ) (old new : MirrorInfo)
    → s.change_component cnt ≡ false
    → Handed s n (cnt + 1) i old new
    → Handed s (suc n) cnt i old new
Handed-skip s n cnt i old new e (a, b) = (
  λ (lo, hi, ch). elim (ℕ_discrete i cnt) [
    | yes z ↦ let q = ap s.change_component z ∙ e in absurd (ground arith)
    | no ne ↦ a (omega arith, omega arith, ch)
  ],
  λ o. b (elim o [ inl lt ↦ inl (omega arith) | inr q ↦ inr q ]),
)

Handed-step :
    (s : MngData) (n cnt i : ℕ) (info : ℕ → MirrorInfo) (u new : MirrorInfo)
    → s.change_component cnt ≡ true
    → Reads s cnt u
    → Handed s n (cnt + 1) i (update info cnt u i) new
    → Handed s (suc n) cnt i (info i) new
Handed-step s n cnt i info u new e d (a, b) = (
  λ (lo, hi, ch). elim (ℕ_discrete i cnt) [
    | yes z ↦
        let q : new ≡ u =
          b (inl (omega arith)) ∙ ap (update info cnt u) z ∙ update_self info cnt u in
        rw (q, z) d
    | no ne ↦ a (omega arith, omega arith, ch)
  ],
  λ o. elim o [
    | inl lt ↦ b (inl (omega arith)) ∙ update_ne info cnt i u (λ z. omega arith)
    | inr q ↦
        b (inr q)
        ∙ update_ne info cnt i u (λ z. let r = ap s.change_component z ∙ e in ground arith)
  ],
)

update-AllFlipped :
    (info : ℕ → MirrorInfo) (k : ℕ) (u : MirrorInfo)
    → IsFlipped u
    → AllFlipped info
    → AllFlipped (update info k u)
update-AllFlipped info k u f all i = elim (ℕ_discrete i k) [
  | yes z ↦ rw (z, update_self info k u) f
  | no ne ↦ rw (update_ne info k i u ne) (all i)
]

module _ (max_lcore max_ethports : ℕ) where
  -- The components below `m` that are flagged have ethdev ports, and the lists have room.
  pub update_comp_info_lem :
      (s : MngData) (m n cnt : ℕ) (caps : CapState) (info : ℕ → MirrorInfo)
      → AllMirrors s
      → AllFlipped info
      → cnt + n ≤ m
      → ((i : ℕ) → i < m → s.change_component i ≡ true → Reachable s caps i)
      → HasRoom s n cnt caps
      → (caps' : CapState) × (t : ℕ → MirrorInfo) × (update_comp_info max_lcore max_ethports s n cnt
            (caps, info)
          ≡ some (true, caps', t))
        × ((i : ℕ) → Handed s n cnt i (info i) (t i))
        × AllFlipped t
  unfolding update_comp_info
  update_comp_info_lem s m zero cnt caps info all f le reach room =
      (caps, info, refl, (λ i. ((λ h. absurd (omega arith)), (λ _. refl))), f)
  update_comp_info_lem s m (suc n) cnt caps info all f le reach room =
      elim (Bool-cases (s.change_component cnt)) [
        | inr e ↦
            let (caps', t, r, h, g) =
              update_comp_info_lem s m n (cnt + 1) caps info all f (omega arith) reach
                (rw e at room) in
            (caps', t, rw e r, (λ i. Handed-skip s n cnt i (info i) (t i) e (h i)), g)
        | inl e ↦
            let id = (s.component cnt).comp_id in
            let room' = rw e at room in
            let (caps', c, t, k, d, fl, used) =
              handed_one s cnt caps (info id) (f id) (all cnt).0 (reach cnt (omega arith) e)
                (omega (arith, room'.0)) (omega (arith, room'.1)) in
            let (u, caps'') = change_mirror_index (t, caps') in
            let (w, v, r, h, g) =
              update_comp_info_lem s m n (cnt + 1) caps'' (update info id u) all
                (update-AllFlipped info id u fl f) (omega arith)
                (λ i lt ch.
                  Reachable-Used s caps caps'' i (s.component cnt).rx.nof (s.component cnt).tx.nof
                    used (reach i lt ch))
                (HasRoom-changed s n cnt caps caps'' e room used) in
            (
              w,
              v,
              rw (e, c, k) r,
              λ i. Handed-step s n cnt i info u (v i) e d (
                  subst (λ k. Handed s n (cnt + 1) i (update info k u i) (v i)) ((all cnt).2 e)
                    (h i)),
              g,
            )
      ]

  -- What an update without undefined behaviour leaves.
  abbrev pub LeavesFlipped : Option (Bool × CapState × (ℕ → MirrorInfo)) → Type 0
  LeavesFlipped none = Unit {0}
  LeavesFlipped (some (b, caps, info)) = AllFlipped info

  pub update_comp_info-LeavesFlipped :
      (s : MngData) (n cnt : ℕ) (caps : CapState) (info : ℕ → MirrorInfo)
      → AllMirrors s
      → AllFlipped info
      → LeavesFlipped (update_comp_info max_lcore max_ethports s n cnt (caps, info))
  unfolding update_comp_info
  update_comp_info-LeavesFlipped s zero cnt caps info all f = f
  update_comp_info-LeavesFlipped s (suc n) cnt caps info all f =
      elim (Bool-cases (s.change_component cnt)) [
        | inr e ↦ rw e (update_comp_info-LeavesFlipped s n (cnt + 1) caps info all f)
        | inl e ↦
            let c = s.component cnt in
            elim (Option-cases (sppwk_update_port_dir (deref s) c caps)) [
              | inl z ↦ rw (e, z) tt
              | inr (caps', z) ↦
                  let (t, m, _, _, (_, _, g, _)) =
                    update_mirror_publishes (deref s) c (info c.comp_id) caps' (f c.comp_id)
                      (all cnt).0 in
                  let (u, caps'') = change_mirror_index (t, caps') in
                  rw (e, z, m)
                    (update_comp_info-LeavesFlipped s n (cnt + 1) caps'' (update info c.comp_id u)
                      all (update-AllFlipped info c.comp_id u g f))
            ]
      ]
