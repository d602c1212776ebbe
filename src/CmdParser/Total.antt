-- ===== src/CmdParser/Total.antt =====
-- cmd_parser.c: the parameters of the component and classifier_table commands are parsed without
-- undefined behaviour.
use spp_tmp.Base.{
  ℕ, zero, suc, ◌-◌, ◌≤◌, ◌<◌, ◌≡◌, refl, subst, Bool, true, false, ◌&&◌, not, some, List,
  if◌then◌else◌, ◌==◌, leb, length, arith, inl, inr, Bool-cases, list_eq,
}
use spp_tmp.PortManager.{PortType}
use spp_tmp.WorkerTypes.{PortIdx, is_no_type, eth_vlan_id_max}
use spp_tmp.Manager.{is_some, get_sppwk_port, deref}
use spp_tmp.VfClsTable.{is_undef}
use spp_tmp.VfCommand.{Action}
use spp_tmp.CString.{codes}
use spp_tmp.MacAddr.{sppwk_convert_mac_str_to_int64, mac_loop, is_neg64, str_len_short}
use spp_tmp.CmdParser.{
  ClsCmd, CompCmd, Env, Outcome, accept, get_list_idx, cmd_act_list, act_of, cls_type_list,
  get_int_in_range, get_uint_in_range, get_comp_type_from_str,
}
use spp_tmp.CmdParser.Params.{
  positive, parse_comp_action, parse_comp_name, parse_comp_lcore_id, parse_comp_type, is_start,
  parse_uid, lcore_of, is_add, is_del,
}
use spp_tmp.CmdParser.ClsParams.{
  is_mac, parse_cls_action, parse_cls_type, parse_cls_vid, parse_mac_addr, parse_cls_port, mac_text,
  is_added_port, is_used_with_addr, require, check_cls_port,
}
use spp_tmp.CmdParser.Words.{Sat, Sat-guard, Sat-option, StepOk}
use spp_tmp.CmdParser.Defined.{HasEntry, parse_uid-IsNamedPort}
use spp_tmp.CmdParser.Accepted.{copy_name_short}

abbrev pub IsStartStop : Action → Type 0
IsStartStop Action.start = Unit {0}
IsStartStop Action.stop = Unit {0}
IsStartStop _ = ⊥

-- After `i` parameters of `component`.
abbrev pub CompSound : Env → ℕ → CompCmd → Type 0
CompSound e i c =
    (1 ≤ i → IsStartStop c.wk_action)
    × (length c.name < 32)
    × (4 ≤ i → is_start c.wk_action ≡ true → is_no_type c.wk_type ≡ false)

-- After `i` parameters of `classifier_table`.
abbrev pub ClsSound : ℕ → ClsCmd → Type 0
ClsSound i c = length c.mac < 32

start_or_stop : (i : ℕ) → (not (i == 1) && not (i == 2)) ≡ false → IsStartStop (act_of i)
start_or_stop zero h = ground arith
start_or_stop (suc zero) h = tt
start_or_stop (suc (suc zero)) h = tt
start_or_stop (suc (suc (suc i))) h = ground arith

module _ (e : Env) where
  pub parse_comp_action-StepOk : StepOk (CompSound e) 0 (parse_comp_action e)
  unfolding parse_comp_action
  parse_comp_action-StepOk flag arg c s p =
      Sat-option (CompSound e 1) (positive (get_list_idx arg cmd_act_list)) _ (λ i h.
        Sat-guard (CompSound e 1) (not (i == 1) && not (i == 2))
          (accept (record c { wk_action = act_of i }))
          (λ k. (λ _. start_or_stop i k, p.1, λ l. absurd (omega arith))))

  pub parse_comp_name-StepOk : StepOk (CompSound e) 1 (parse_comp_name e)
  unfolding parse_comp_name
  parse_comp_name-StepOk flag arg c s p =
      elim (Bool-cases (is_start c.wk_action && is_some (lcore_of e arg))) [
        | inl k ↦ rw k tt
        | inr k ↦
            rw k (rw (copy_name_short arg s) (λ _. p.0 (omega arith), s, λ l. absurd (omega arith)))
      ]

  comp_keep :
      (c d : CompCmd)
      → CompSound e 2 c
      → c.wk_action ≡ d.wk_action
      → c.name ≡ d.name
      → CompSound e 3 d
  comp_keep c d p ea en = (
    λ _. subst IsStartStop ea (p.0 (omega arith)),
    subst (λ (n : List ℕ). length n < 32) en p.1,
    λ l. absurd (omega arith),
  )

  pub parse_comp_lcore_id-StepOk : StepOk (CompSound e) 2 (parse_comp_lcore_id e)
  unfolding parse_comp_lcore_id
  parse_comp_lcore_id-StepOk flag arg c s p = elim (Bool-cases (not (is_start c.wk_action))) [
    | inl k ↦ rw k (comp_keep c c p refl refl)
    | inr k ↦ rw k (
        Sat-option (CompSound e 3) (get_uint_in_range arg 0 (e.max_lcore - 1)) _
          (λ v _. comp_keep c (record c { core = v }) p refl refl))
  ]

  pub parse_comp_type-StepOk : StepOk (CompSound e) 3 (parse_comp_type e)
  unfolding parse_comp_type
  parse_comp_type-StepOk flag arg c s p =
      let t = get_comp_type_from_str arg in
      elim (Bool-cases (not (is_start c.wk_action))) [
        | inl k ↦
            rw k (λ _. p.0 (omega arith), p.1, λ _ h. absurd (clash (is_start c.wk_action) k h))
        | inr k ↦ rw k (
            Sat-guard (CompSound e 4) (is_no_type t) (accept (record c { wk_type = t }))
              (λ typed. (λ _. p.0 (omega arith), p.1, λ _ _. typed)))
      ]
    where
      clash : (b : Bool) → not b ≡ true → b ≡ true → ⊥
      clash true h k = cc
      clash false h k = cc

  pub parse_cls_action-StepOk : StepOk ClsSound 0 (parse_cls_action e)
  unfolding parse_cls_action
  parse_cls_action-StepOk flag arg c s p =
      Sat-option (ClsSound 1) (positive (get_list_idx arg cmd_act_list)) _ (λ i h.
        Sat-guard (ClsSound 1) (not (i == 3) && not (i == 4))
          (accept (record c { wk_action = act_of i })) (λ k. p))

  pub parse_cls_type-StepOk : StepOk ClsSound 1 (parse_cls_type e)
  unfolding parse_cls_type
  parse_cls_type-StepOk flag arg c s p =
      Sat-option (ClsSound 2) (positive (get_list_idx arg cls_type_list)) _ (λ i h. p)

  pub parse_cls_vid-StepOk : StepOk ClsSound 2 (parse_cls_vid e)
  unfolding parse_cls_vid
  parse_cls_vid-StepOk flag arg c s p =
      Sat-option (ClsSound 3) (get_int_in_range arg 0 eth_vlan_id_max) _ (λ v h. p)

  mac_text_short : (w : List ℕ) → length w < 32 → length (mac_text w) < 32
  mac_text_short w h = elim (Bool-cases (list_eq w (codes "default"))) [
    | inl k ↦ rw k (omega arith)
    | inr k ↦ rw k h
  ]

  convert_short :
      (w : List ℕ) → length w < 32 → sppwk_convert_mac_str_to_int64 w ≡ some (mac_loop 6 0 0 w)
  unfolding sppwk_convert_mac_str_to_int64
  convert_short w h = let k : leb str_len_short (length w) ≡ false = ground arith in rw k refl

  -- The address stands at one of two places in the tables.
  pub parse_mac_addr-StepOk : (i : ℕ) → StepOk ClsSound i (parse_mac_addr e)
  unfolding parse_mac_addr
  parse_mac_addr-StepOk i flag arg c s p =
      let short = mac_text_short arg s in
      rw (convert_short (mac_text arg) short, parse_mac_addr)
        (Sat-guard (ClsSound (suc i)) (is_neg64 (mac_loop 6 0 0 (mac_text arg)))
          (accept (record c { mac = mac_text arg })) (λ _. short))

  pub entry_of :
      (t : PortType) (n q : ℕ) → HasEntry t → (p : PortIdx) × (get_sppwk_port t n q ≡ some p)
  unfolding get_sppwk_port
  entry_of PortType.phy n q h = (_, refl)
  entry_of PortType.vhost n q h = (_, refl)
  entry_of PortType.ring n q h = (_, refl)
  entry_of _ n q h = absurd h

  Sat-require :
      (b : Bool) (k : Outcome ClsCmd) (i : ℕ)
      → Sat (ClsSound i) k
      → Sat (ClsSound i) (require (accept b) k)
  Sat-require true k i h = h
  Sat-require false k i h = tt

  is_used_with_addr-accept :
      (vid mac_addr : ℕ) (p : PortIdx)
      → HasEntry p.iface_type
      → (b : Bool) × (is_used_with_addr e vid mac_addr p ≡ accept b)
  unfolding is_used_with_addr
  is_used_with_addr-accept vid mac_addr p h =
      let (q, eq) = entry_of p.iface_type p.iface_no p.queue_no h in
      let a = (deref e.mng q).cls_attrs in
      (mac_addr == a.mac_addr && vid == a.vlantag.vid, rw (eq, is_used_with_addr) refl)

  is_added_port-accept :
      (p : PortIdx) → HasEntry p.iface_type → (b : Bool) × (is_added_port e p ≡ accept b)
  unfolding is_added_port
  is_added_port-accept p h =
      let (q, eq) = entry_of p.iface_type p.iface_no p.queue_no h in
      (not (is_undef (deref e.mng q).iface_type), rw (eq, is_added_port) refl)

  check_cls_port-Sat :
      (i : ℕ) (p : PortIdx) (c : ClsCmd)
      → HasEntry p.iface_type
      → ClsSound i c
      → Sat (ClsSound (suc i)) (check_cls_port e p c)
  unfolding check_cls_port
  check_cls_port-Sat i p c h s = elim (Bool-cases (is_add c.wk_action)) [
    | inl k ↦
        let (b, eq) = is_used_with_addr-accept eth_vlan_id_max 0 p h in
        rw k (rw eq (Sat-require b (accept (record c { port = p })) (suc i) s))
    | inr k ↦ elim (Bool-cases (is_del c.wk_action)) [
      | inr k2 ↦ rw k (rw k2 s)
      | inl k2 ↦
          let m = mac_loop 6 0 0 c.mac in
          let (b, eq) = is_used_with_addr-accept c.vid m p h in
          rw k (
            rw k2 (
              rw (convert_short c.mac s) (
                rw eq (
                  Sat-guard (ClsSound (suc i)) (is_neg64 m)
                    (require (accept b) (accept (record c { port = p })))
                    (λ _. Sat-require b (accept (record c { port = p })) (suc i) s)))))
    ]
  ]

  pub parse_cls_port-StepOk : (i : ℕ) → StepOk ClsSound i (parse_cls_port e)
  unfolding parse_cls_port
  parse_cls_port-StepOk i flag arg c s p = Sat-option (ClsSound (suc i)) (parse_uid e arg) _ (λ q h.
      let entry = (parse_uid-IsNamedPort e arg q h).0 in
      let c' = if is_mac c.cls_type then record c { vid = eth_vlan_id_max } else c in
      let (b, eq) = is_added_port-accept q entry in
      rw eq (
        Sat-require b (check_cls_port e q c') (suc i)
          (check_cls_port-Sat i q c' entry (kept (is_mac c.cls_type)))))
    where
      kept : (b : Bool) → ClsSound i (if b then record c { vid = eth_vlan_id_max } else c)
      kept true = p
      kept false = p
