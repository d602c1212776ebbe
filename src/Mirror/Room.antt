-- ===== src/Mirror/Room.antt =====
-- The room that a flush of spp_mirror needs in the lists of the marked ports (port_capability.c).
use spp_tmp.Base.{
  ℕ, zero, suc, ◌+◌, ◌≤◌, ◌≡◌, sym, ◌∙◌, true, arith, Bool-cases, inl, inr, subst, ◌==◌,
  if◌then◌else◌,
}
use spp_tmp.Capability.{CapState, swap_ref}
use spp_tmp.Capability.Switch.{switch_all_num, switch_all_size}
use spp_tmp.Manager.{MngData, deref}
use spp_tmp.Flush.Total.{Placed, Used}
use spp_tmp.Mirror.{MirrorInfo, change_mirror_index}

-- The ports of the component have ethdev ports that `g_port_mng_info` has.
abbrev pub Reachable : MngData → CapState → ℕ → Type 0
Reachable s caps i =
    let c = s.component i in
    Placed (deref s) caps.rx.size c.rx.nof c.rx × Placed (deref s) caps.tx.size c.tx.nof c.tx

pub Reachable-Used :
    (s : MngData) (old new : CapState) (i a b : ℕ)
    → Used a b old new
    → Reachable s old i
    → Reachable s new i
Reachable-Used s old new i a b (_, x, _, y) (prx, ptx) =
    let c = s.component i in
    (
      subst (λ z. Placed (deref s) z c.rx.nof c.rx) (sym x) prx,
      subst (λ z. Placed (deref s) z c.tx.nof c.tx) (sym y) ptx,
    )

-- The ports that a flush of the `n` components from `cnt` on marks.
abbrev pub rx_marks : MngData → ℕ → ℕ → ℕ
rx_marks s zero cnt = 0
rx_marks s (suc n) cnt =
    let rest = rx_marks s n (cnt + 1) in
    if s.change_component cnt then (s.component cnt).rx.nof + rest else rest

abbrev pub tx_marks : MngData → ℕ → ℕ → ℕ
tx_marks s zero cnt = 0
tx_marks s (suc n) cnt =
    let rest = tx_marks s n (cnt + 1) in
    if s.change_component cnt then (s.component cnt).tx.nof + rest else rest

-- The lists of the marked ports have room for them.
abbrev pub HasRoom : MngData → ℕ → ℕ → CapState → Type 0
HasRoom s n cnt caps =
    (caps.rx.num + rx_marks s n cnt ≤ caps.rx.size)
    × (caps.tx.num + tx_marks s n cnt ≤ caps.tx.size)

-- The worker's round leaves the counters and sizes.
pub change_mirror_index-Used :
    (a b : ℕ) (i : MirrorInfo) (old caps : CapState)
    → Used a b old caps
    → Used a b old (change_mirror_index (i, caps)).1
unfolding change_mirror_index swap_ref
change_mirror_index-Used a b i old caps (x, y, z, w) =
    elim (Bool-cases (i.ref_index == i.upd_index)) [
      | inr e ↦ rw e (x, y, z, w)
      | inl e ↦ rw e (
        switch_all_num caps.rx ∙ x,
        switch_all_size caps.rx ∙ y,
        switch_all_num caps.tx ∙ z,
        switch_all_size caps.tx ∙ w,
      )
    ]

-- A component that is updated takes its part of the room.
pub HasRoom-changed :
    (s : MngData) (n cnt : ℕ) (caps new : CapState)
    → s.change_component cnt ≡ true
    → HasRoom s (suc n) cnt caps
    → Used (s.component cnt).rx.nof (s.component cnt).tx.nof caps new
    → HasRoom s n (cnt + 1) new
HasRoom-changed s n cnt caps new e (r, t) (x, y, z, w) =
    let r' = rw e at r in let t' = rw e at t in (omega (arith, r', x, y), omega (arith, t', z, w))
