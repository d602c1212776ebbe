-- ===== src/CmdParser/Accepted.antt =====
-- cmd_parser.c: what each accepted parameter of the port command establishes.
use spp_tmp.Base.{
  ℕ, zero, suc, ◌+◌, ◌≤◌, ◌<◌, ◌≡◌, refl, sym, subst, true, false, ◌&&◌, ◌||◌, not, Option, none,
  some, List, if◌then◌else◌, ◌==◌, length, arith, inl, inr, Bool-cases, Option-cases, ==_iff,
}
use spp_tmp.WorkerTypes.{PortDir, PortOps, PortAttrs, eth_vlan_id_max}
use spp_tmp.Manager.{is_some}
use spp_tmp.CString.{whole, strtol, to_int, int_lt}
use spp_tmp.PortUid.{is_phy}
use spp_tmp.CmdParser.{
  PortCmd, Env, Outcome, accept, reject, get_list_idx, cmd_act_list, act_of, dir_of, ops_of,
  port_dir_list, port_ability_list, get_int_in_range, spp_vlan_pcp_max,
}
use spp_tmp.CmdParser.Params.{
  positive, parse_port_action, parse_port, parse_port_direction, parse_comp_name_portcmd,
  parse_port_vlan_ops, parse_port_vid, parse_port_pcp, copy_name, parse_uid, lcore_of, is_add, used,
  exceeds, put_vid, put_pcp,
}
use spp_tmp.CmdParser.Words.{Sat, Sat-guard, Sat-option, StepOk}
use spp_tmp.CmdParser.Defined.{IsNamedPort, IsAddDel, IsOneWay, parse_uid-IsNamedPort}

-- After `i` parameters: the action, the port, the direction and the name of a component are what
-- `update_port` wants, and the VLAN ID is in range.
abbrev pub PortSound : Env → ℕ → PortCmd → Type 0
PortSound e i c =
    (1 ≤ i → IsAddDel c.wk_action)
    × (2 ≤ i → IsNamedPort e c.port)
    × (3 ≤ i → IsOneWay c.dir)
    × (4 ≤ i → is_some (lcore_of e c.name) ≡ true)
    × (c.port_attrs.vlantag.vid ≤ eth_vlan_id_max)

add_or_del : (i : ℕ) → (not (i == 3) && not (i == 4)) ≡ false → IsAddDel (act_of i)
add_or_del i h = elim (Bool-cases (i == 3)) [
  | inl e ↦ subst (λ i. IsAddDel (act_of i)) (sym ((==_iff i 3).0 e)) tt
  | inr e ↦
      let x : (i == 4) ≡ true = ground arith in
      subst (λ i. IsAddDel (act_of i)) (sym ((==_iff i 4).0 x)) tt
]

positive_dir : (o : Option ℕ) (i : ℕ) → positive o ≡ some i → IsOneWay (dir_of i)
positive_dir none i h = absurd (lost h)
  where
    lost : none ≡ some i → ⊥
    lost h = cc
positive_dir (some zero) i h = absurd (lost h)
  where
    lost : none ≡ some i → ⊥
    lost h = cc
positive_dir (some (suc k)) i h =
    let x : suc k ≡ i = cc in subst (λ i. IsOneWay (dir_of i)) x (one_way k)
  where
    one_way : (k : ℕ) → IsOneWay (dir_of (suc k))
    one_way zero = tt
    one_way (suc k) = tt

in_range :
    (s : List ℕ) (max v : ℕ) → max < 2_147_483_648 → get_int_in_range s 0 max ≡ some v → v ≤ max
unfolding get_int_in_range
in_range s max v hm h = elim (Option-cases (whole (strtol 0 s))) [
  | inl e1 ↦ let h1 = rw (e1, get_int_in_range) at h in absurd (lost h1)
  | inr (w, e1) ↦
      let h1 = rw (e1, get_int_in_range) at h in
      elim (Bool-cases (int_lt (to_int w) 0 || int_lt max (to_int w))) [
        | inl e2 ↦ absurd (lost (rw e2 at h1))
        | inr e2 ↦
            let h2 = rw e2 at h1 in
            let x : to_int w ≡ v = cc in subst (λ v. v ≤ max) x (fits (to_int w) (omega arith) e2)
      ]
]
  where
    lost : none ≡ some v → ⊥
    lost h = cc

    fits : (w : ℕ) → w < 4_294_967_296 → (int_lt w 0 || int_lt max w) ≡ false → w ≤ max
    fits w hw h = ground arith

pub copy_name_short : (w : List ℕ) → length w < 32 → copy_name w ≡ accept w
unfolding copy_name
copy_name_short w h = ground arith

module _ (e : Env) where
  pub parse_port_action-StepOk : StepOk (PortSound e) 0 (parse_port_action e)
  unfolding parse_port_action
  parse_port_action-StepOk flag arg c s p =
      Sat-option (PortSound e 1) (positive (get_list_idx arg cmd_act_list)) _ (λ i h.
        Sat-guard (PortSound e 1) (not (i == 3) && not (i == 4))
          (accept (record c { wk_action = act_of i }))
          (λ k. (
            λ _. add_or_del i k,
            λ l. absurd (omega arith),
            λ l. absurd (omega arith),
            λ l. absurd (omega arith),
            p.4,
          )))

  pub parse_port-StepOk : StepOk (PortSound e) 1 (parse_port e)
  unfolding parse_port
  parse_port-StepOk flag arg c s p = Sat-option (PortSound e 2) (parse_uid e arg) _ (λ q h.
      Sat-guard (PortSound e 2)
        (not flag && (is_add c.wk_action && used e q PortDir.rx_dir && used e q PortDir.tx_dir))
        (accept (record c { port = q }))
        (λ _. (
          λ _. p.0 (omega arith),
          λ _. parse_uid-IsNamedPort e arg q h,
          λ l. absurd (omega arith),
          λ l. absurd (omega arith),
          p.4,
        )))

  pub parse_port_direction-StepOk : StepOk (PortSound e) 2 (parse_port_direction e)
  unfolding parse_port_direction
  parse_port_direction-StepOk flag arg c s p =
      Sat-option (PortSound e 3) (positive (get_list_idx arg port_dir_list)) _ (λ i h.
        let in_use = not flag && (is_add c.wk_action && used e c.port (dir_of i)) in
        let done : Outcome PortCmd = accept (record c { dir = dir_of i }) in
        Sat-guard (PortSound e 3)
          (is_add c.wk_action && is_phy c.port.iface_type && exceeds e (dir_of i) c.port)
          (if in_use then reject else done)
          (λ _. Sat-guard (PortSound e 3) in_use done (λ _. (
            λ _. p.0 (omega arith),
            λ _. p.1 (omega arith),
            λ _. positive_dir (get_list_idx arg port_dir_list) i h,
            λ l. absurd (omega arith),
            p.4,
          ))))

  pub parse_comp_name_portcmd-StepOk : StepOk (PortSound e) 3 (parse_comp_name_portcmd e)
  unfolding parse_comp_name_portcmd
  parse_comp_name_portcmd-StepOk flag arg c s p = elim (Bool-cases (is_some (lcore_of e arg))) [
    | inr k ↦ rw k tt
    | inl k ↦ rw k (
        rw (copy_name_short arg s)
          (λ _. p.0 (omega arith), λ _. p.1 (omega arith), λ _. p.2 (omega arith), λ _. k, p.4))
  ]

  -- The parameters behind the name keep what there is, if the VLAN ID stays in range.
  attrs_keep :
      (k : ℕ) (c : PortCmd) (a : PortAttrs)
      → PortSound e (4 + k) c
      → a.vlantag.vid ≤ eth_vlan_id_max
      → PortSound e (4 + suc k) (record c { port_attrs = a })
  attrs_keep k c a p h = (
    λ _. p.0 (omega arith),
    λ _. p.1 (omega arith),
    λ _. p.2 (omega arith),
    λ _. p.3 (omega arith),
    h,
  )

  pub parse_port_vlan_ops-StepOk : StepOk (PortSound e) 4 (parse_port_vlan_ops e)
  unfolding parse_port_vlan_ops
  parse_port_vlan_ops-StepOk flag arg c s p = by_ops (c.port_attrs.ops) refl
    where
      by_ops :
          (o : PortOps)
          → c.port_attrs.ops ≡ o
          → Sat (PortSound e 5) (parse_port_vlan_ops e flag arg c)
      by_ops PortOps.no_ops h =
          rw (h, parse_port_vlan_ops)
            (Sat-option (PortSound e 5) (positive (get_list_idx arg port_ability_list)) _
              (λ i k. attrs_keep 0 c (record (c.port_attrs) { ops = ops_of i; dir = c.dir }) p p.4))
      by_ops _ h = rw (h, parse_port_vlan_ops) (attrs_keep 0 c c.port_attrs p p.4)

  pub parse_port_vid-StepOk : StepOk (PortSound e) 5 (parse_port_vid e)
  unfolding parse_port_vid
  parse_port_vid-StepOk flag arg c s p = by_ops (c.port_attrs.ops) refl
    where
      by_ops :
          (o : PortOps) → c.port_attrs.ops ≡ o → Sat (PortSound e 6) (parse_port_vid e flag arg c)
      by_ops PortOps.add_vlan h =
          rw (h, parse_port_vid)
            (Sat-option (PortSound e 6) (get_int_in_range arg 0 eth_vlan_id_max) _ (λ v k.
              attrs_keep 1 c (put_vid v c).port_attrs p
                (in_range arg eth_vlan_id_max v (omega arith) k)))
      by_ops _ h = rw (h, parse_port_vid) (attrs_keep 1 c c.port_attrs p p.4)

  pub parse_port_pcp-StepOk : StepOk (PortSound e) 6 (parse_port_pcp e)
  unfolding parse_port_pcp
  parse_port_pcp-StepOk flag arg c s p = by_ops (c.port_attrs.ops) refl
    where
      by_ops :
          (o : PortOps) → c.port_attrs.ops ≡ o → Sat (PortSound e 7) (parse_port_pcp e flag arg c)
      by_ops PortOps.add_vlan h =
          rw (h, parse_port_pcp)
            (Sat-option (PortSound e 7) (get_int_in_range arg 0 spp_vlan_pcp_max) _
              (λ v k. attrs_keep 2 c (put_pcp v c).port_attrs p p.4))
      by_ops _ h = rw (h, parse_port_pcp) (attrs_keep 2 c c.port_attrs p p.4)
