-- ===== src/CmdParser/Defined.antt =====
-- cmd_parser.c: what each accepted parameter of the port command establishes.
use spp_tmp.Base.{
  ℕ, ◌≡◌, subst, Bool, false, ◌&&◌, not, Option, none, some, List, inl, inr, Bool-cases,
  Option-cases,
}
use spp_tmp.PortManager.{PortType}
use spp_tmp.WorkerTypes.{PortDir, PortIdx}
use spp_tmp.VfCommand.{Action}
use spp_tmp.CString.{strip, strtol, to_int}
use spp_tmp.PortUid.{
  is_phy, same, many, get_port_max_queues, phy_str, vhost_str, ring_str, parse_resource_uid,
  uid_type, uid_queue, uid_iface, uid_port, out_of_range, ends_uid,
}
use spp_tmp.CmdParser.{Env}
use spp_tmp.CmdParser.Params.{parse_uid}

abbrev pub HasEntry : PortType → Type 0
HasEntry PortType.phy = Unit {0}
HasEntry PortType.vhost = Unit {0}
HasEntry PortType.ring = Unit {0}
HasEntry _ = ⊥

abbrev pub IsAddDel : Action → Type 0
IsAddDel Action.add = Unit {0}
IsAddDel Action.del = Unit {0}
IsAddDel _ = ⊥

abbrev pub IsOneWay : PortDir → Type 0
IsOneWay PortDir.rx_dir = Unit {0}
IsOneWay PortDir.tx_dir = Unit {0}
IsOneWay _ = ⊥

uid_type-HasEntry : (s : List ℕ) (t : PortType) (r : List ℕ) → uid_type s ≡ some (t, r) → HasEntry t
unfolding uid_type
uid_type-HasEntry s t r e = elim (Option-cases (strip phy_str s)) [
  | inr (_, e1) ↦ found (rw (e1, uid_type) at e) tt
  | inl e1 ↦ elim (Option-cases (strip vhost_str s)) [
    | inr (_, e2) ↦ found (rw e2 at (rw (e1, uid_type) at e)) tt
    | inl e2 ↦ elim (Option-cases (strip ring_str s)) [
      | inr (_, e3) ↦ found (rw e3 at (rw e2 at (rw (e1, uid_type) at e))) tt
      | inl e3 ↦ absurd (lost (rw e3 at (rw e2 at (rw (e1, uid_type) at e))))
    ]
  ]
]
  where
    found :
        {t' : PortType} {r' : List ℕ}
        → ◌≡◌ {A = Option (PortType × List ℕ)} (some (t', r')) (some (t, r))
        → HasEntry t'
        → HasEntry t
    found {t'} h k = let x : t' ≡ t = cc in subst HasEntry x k

    lost : ◌≡◌ {A = Option (PortType × List ℕ)} none (some (t, r)) → ⊥
    lost h = cc

-- The port of an accepted name.
abbrev pub IsNamedPort : Env → PortIdx → Type 0
IsNamedPort e p =
    HasEntry p.iface_type × (out_of_range e.max_ethports e.rxq e.txq p.iface_no ≡ false)

uid_iface-range :
    (e : Env) (s : List ℕ) (n : ℕ)
    → uid_iface e.max_ethports e.rxq e.txq s ≡ some n
    → out_of_range e.max_ethports e.rxq e.txq n ≡ false
unfolding uid_iface
uid_iface-range e s n h = elim (Option-cases (strtol 0 s)) [
  | inl e1 ↦ absurd (lost (rw (e1, uid_iface) at h))
  | inr ((v, rest), e1) ↦
      let h1 = rw (e1, uid_iface) at h in
      elim (Bool-cases (not (ends_uid rest))) [
        | inl e2 ↦ absurd (lost (rw e2 at h1))
        | inr e2 ↦
            let h2 = rw e2 at h1 in
            elim (Bool-cases (out_of_range e.max_ethports e.rxq e.txq (to_int v))) [
              | inl e3 ↦ absurd (lost (rw e3 at h2))
              | inr e3 ↦
                  let h3 = rw e3 at h2 in
                  let x : to_int v ≡ n = cc in
                  subst (λ n. out_of_range e.max_ethports e.rxq e.txq n ≡ false) x e3
            ]
      ]
]
  where
    lost : none ≡ some n → ⊥
    lost h = cc

uid_port_keeps :
    (e : Env) (t : PortType) (q : ℕ × Bool) (n : ℕ) (p : PortIdx)
    → uid_port e.max_ethports e.rxq e.txq t q n ≡ some p
    → (t ≡ p.iface_type) × (n ≡ p.iface_no)
unfolding uid_port
uid_port_keeps e t (queue_id, multi) n p h =
    elim (Bool-cases
      (is_phy t && not (same multi (many (get_port_max_queues e.max_ethports e.rxq e.txq t n))))) [
        | inl e1 ↦ let h1 = rw (e1, uid_port) at h in cc
        | inr e1 ↦ let h1 = rw (e1, uid_port) at h in (cc, cc)
      ]

pub parse_uid-IsNamedPort :
    (e : Env) (s : List ℕ) (p : PortIdx) → parse_uid e s ≡ some p → IsNamedPort e p
unfolding parse_resource_uid
parse_uid-IsNamedPort e s p h = elim (Option-cases (uid_type s)) [
  | inl e1 ↦ absurd (lost (rw (e1, parse_resource_uid) at h))
  | inr ((t, r), e1) ↦
      let h1 = rw (e1, parse_resource_uid) at h in
      elim (Option-cases (uid_queue t r)) [
        | inl e2 ↦ absurd (lost (rw e2 at h1))
        | inr (q, e2) ↦
            let h2 = rw e2 at h1 in
            elim (Option-cases (uid_iface e.max_ethports e.rxq e.txq r)) [
              | inl e3 ↦ absurd (lost (rw e3 at h2))
              | inr (n, e3) ↦
                  let (et, en) = uid_port_keeps e t q n p (rw e3 at h2) in
                  (
                    subst HasEntry et (uid_type-HasEntry s t r e1),
                    subst (λ n. out_of_range e.max_ethports e.rxq e.txq n ≡ false) en
                        (uid_iface-range e r n e3),
                  )
            ]
      ]
]
  where
    lost : none ≡ some p → ⊥
    lost h = cc
