-- ===== src/CmdParser/Tables.antt =====
-- cmd_parser.c: what the tables of the parameters and of the commands establish.
use spp_tmp.Base.{
  ℕ, ◌+◌, ◌≤◌, ◌<◌, ◌≡◌, refl, sym, subst, Bool, true, false, ◌&&◌, ◌||◌, not, none, some, List, [],
  ◌∷◌, ◌==◌, ltb, length, arith, inl, inr, Bool-cases, list_eq,
}
use spp_tmp.CString.{codes}
use spp_tmp.CmdParser.{PortCmd, CmdType, CmdAttrs, zero_cmd, Env}
use spp_tmp.CmdParser.Request.{
  Result, ok, CmdOps, parse_params, CmdParseAttrs, cmd_type_of, parse_loop, cls_mac_ops,
  cls_vlan_ops, comp_ops, port_ops, cmd_attr_list,
}
use spp_tmp.CmdParser.Words.{
  Ensures, Ensures-error, Ensures_mono, OpsOk, parse_params-Ensures, on_port-StepOk, on_comp-StepOk,
  on_cls-StepOk,
}
use spp_tmp.CmdParser.Params.{
  parse_comp_action, parse_comp_name, parse_comp_lcore_id, parse_comp_type, parse_port_action,
  parse_port, parse_port_direction, parse_comp_name_portcmd, parse_port_vlan_ops, parse_port_vid,
  parse_port_pcp,
}
use spp_tmp.CmdParser.ClsParams.{
  parse_cls_action, parse_cls_type, parse_cls_vid, parse_mac_addr, parse_cls_port,
}
use spp_tmp.CString.Tokens.{AllShort}
use spp_tmp.CmdParser.Accepted.{
  PortSound, parse_port_action-StepOk, parse_port-StepOk, parse_port_direction-StepOk,
  parse_comp_name_portcmd-StepOk, parse_port_vlan_ops-StepOk, parse_port_vid-StepOk,
  parse_port_pcp-StepOk,
}
use spp_tmp.CmdParser.Total.{
  CompSound, ClsSound, parse_comp_action-StepOk, parse_comp_name-StepOk, parse_comp_lcore_id-StepOk,
  parse_comp_type-StepOk, parse_cls_action-StepOk, parse_cls_type-StepOk, parse_cls_vid-StepOk,
  parse_mac_addr-StepOk, parse_cls_port-StepOk,
}

-- What an accepted command is, by its type.
abbrev pub CmdSound : Env → CmdType → CmdAttrs → Type 0
CmdSound e CmdType.port c = PortSound e 4 c.port
CmdSound e CmdType.worker c = CompSound e 2 c.comp
CmdSound e _ c = Unit

-- What the entry `l` at the index `i` does with the parameters.
abbrev pub run_entry : CmdParseAttrs → ℕ → List (List ℕ) → CmdAttrs → Result CmdAttrs
run_entry l i args c = elim l.func [
  | none ↦ ok (record c { ctype = cmd_type_of i })
  | some f ↦ f i args l.nof_params_max (record c { ctype = cmd_type_of i })
]

module _ (P : CmdAttrs → Type 0) (args : List (List ℕ)) (c : CmdAttrs) where
  abbrev pub EntriesOk : ℕ → List CmdParseAttrs → Type 0
  EntriesOk i [] = Unit
  EntriesOk i (l ∷ ls) =
      (l.nof_params_min ≤ length args + 1
        → length args + 1 ≤ l.nof_params_max
        → Ensures P (run_entry l i args c))
      × EntriesOk (i + 1) ls

  pub parse_loop-Ensures :
      (ls : List CmdParseAttrs) (i : ℕ) (valid : Bool) (argv0 : List ℕ)
      → length argv0 < 32
      → EntriesOk i ls
      → Ensures P (parse_loop ls i valid argv0 args c)
  unfolding parse_loop
  parse_loop-Ensures [] i true argv0 h k = Ensures-error P (codes "command") argv0 (omega arith)
  parse_loop-Ensures [] i false argv0 h k = tt
  parse_loop-Ensures (l ∷ ls) i valid argv0 h k =
      let same = list_eq argv0 l.cmd_name in
      let rest = parse_loop-Ensures ls (i + 1) (valid && not same) argv0 h k.1 in
      elim (Bool-cases (
        same
        && not
            (ltb (length args + 1) l.nof_params_min || ltb l.nof_params_max (length args + 1)))) [
              | inl e ↦ rw e (k.0 (ground arith) (ground arith))
              | inr e ↦ rw e rest
            ]

module _ (e : Env) (args : List (List ℕ)) (c : CmdAttrs) (short : AllShort 32 args) where
  abbrev IsSound : CmdAttrs → Type 0
  IsSound d = CmdSound e d.ctype d

  of_type : (t : CmdType) (d : CmdAttrs) → d.ctype ≡ t → CmdSound e t d → IsSound d
  of_type t d h k = subst (λ t. CmdSound e t d) (sym h) k

  port_table :
      (flag : Bool)
      → 4 ≤ length args
      → length args ≤ 7
      → c.ctype ≡ CmdType.port
      → PortSound e 0 c.port
      → Ensures IsSound (parse_params flag (port_ops e) args c)
  port_table flag lo hi t p =
      let P = λ (n : ℕ) (d : CmdAttrs). (d.ctype ≡ CmdType.port) × PortSound e n d.port in
      let step = on_port-StepOk CmdType.port (PortSound e) in
      Ensures_mono (P (length args + 0)) IsSound (parse_params flag (port_ops e) args c)
        (λ d h. of_type CmdType.port d h.0 (at_least_four d.port h.1))
        (parse_params-Ensures P flag 0 (port_ops e) args c
          (
            step 0 (parse_port_action e) (parse_port_action-StepOk e),
            (
              step 1 (parse_port e) (parse_port-StepOk e),
              (
                step 2 (parse_port_direction e) (parse_port_direction-StepOk e),
                (
                  step 3 (parse_comp_name_portcmd e) (parse_comp_name_portcmd-StepOk e),
                  (
                    step 4 (parse_port_vlan_ops e) (parse_port_vlan_ops-StepOk e),
                    (
                      step 5 (parse_port_vid e) (parse_port_vid-StepOk e),
                      (step 6 (parse_port_pcp e) (parse_port_pcp-StepOk e), tt),
                    ),
                  ),
                ),
              ),
            ),
          )
          (omega arith) short (t, p))
    where
      at_least_four : (d : PortCmd) → PortSound e (length args + 0) d → PortSound e 4 d
      at_least_four d h = (
        λ _. h.0 (omega arith),
        λ _. h.1 (omega arith),
        λ _. h.2 (omega arith),
        λ _. h.3 (omega arith),
        h.4,
      )

  comp_table :
      2 ≤ length args
      → length args ≤ 4
      → c.ctype ≡ CmdType.worker
      → CompSound e 0 c.comp
      → Ensures IsSound (parse_params false (comp_ops e) args c)
  comp_table lo hi t p =
      let P = λ (n : ℕ) (d : CmdAttrs). (d.ctype ≡ CmdType.worker) × CompSound e n d.comp in
      let step = on_comp-StepOk CmdType.worker (CompSound e) in
      Ensures_mono (P (length args + 0)) IsSound (parse_params false (comp_ops e) args c)
        (λ d h.
          of_type CmdType.worker d h.0 (λ _. h.1.0 (omega arith), h.1.1, λ l. absurd (omega arith)))
        (parse_params-Ensures P false 0 (comp_ops e) args c
          (
            step 0 (parse_comp_action e) (parse_comp_action-StepOk e),
            (
              step 1 (parse_comp_name e) (parse_comp_name-StepOk e),
              (
                step 2 (parse_comp_lcore_id e) (parse_comp_lcore_id-StepOk e),
                (step 3 (parse_comp_type e) (parse_comp_type-StepOk e), tt),
              ),
            ),
          )
          (omega arith) short (t, p))

  cls_table :
      (t : CmdType)
      → ((d : CmdAttrs) → CmdSound e t d)
      → (ops : List CmdOps) → OpsOk (λ n d. (d.ctype ≡ t) × ClsSound n d.cls_table) 0 ops
      → length args ≤ length ops
      → c.ctype ≡ t
      → ClsSound 0 c.cls_table
      → Ensures IsSound (parse_params false ops args c)
  cls_table t sound ops k hi h p =
      let P = λ (n : ℕ) (d : CmdAttrs). (d.ctype ≡ t) × ClsSound n d.cls_table in
      Ensures_mono (P (length args + 0)) IsSound (parse_params false ops args c)
        (λ d h. of_type t d h.0 (sound d))
        (parse_params-Ensures P false 0 ops args c k hi short (h, p))

module _ (e : Env) where
  cls_mac_ok : OpsOk (λ n d. (d.ctype ≡ CmdType.cls_mac) × ClsSound n d.cls_table) 0 (cls_mac_ops e)
  cls_mac_ok =
      let step = on_cls-StepOk CmdType.cls_mac ClsSound in
      (
        step 0 (parse_cls_action e) (parse_cls_action-StepOk e),
        (
          step 1 (parse_cls_type e) (parse_cls_type-StepOk e),
          (
            step 2 (parse_mac_addr e) (parse_mac_addr-StepOk e 2),
            (step 3 (parse_cls_port e) (parse_cls_port-StepOk e 3), tt),
          ),
        ),
      )

  cls_vlan_ok :
      OpsOk (λ n d. (d.ctype ≡ CmdType.cls_vlan) × ClsSound n d.cls_table) 0 (cls_vlan_ops e)
  cls_vlan_ok =
      let step = on_cls-StepOk CmdType.cls_vlan ClsSound in
      (
        step 0 (parse_cls_action e) (parse_cls_action-StepOk e),
        (
          step 1 (parse_cls_type e) (parse_cls_type-StepOk e),
          (
            step 2 (parse_cls_vid e) (parse_cls_vid-StepOk e),
            (
              step 3 (parse_mac_addr e) (parse_mac_addr-StepOk e 3),
              (step 4 (parse_cls_port e) (parse_cls_port-StepOk e 4), tt),
            ),
          ),
        ),
      )

  zero-PortSound : PortSound e 0 zero_cmd.port
  zero-PortSound = (
    λ l. absurd (omega arith),
    λ l. absurd (omega arith),
    λ l. absurd (omega arith),
    λ l. absurd (omega arith),
    omega arith,
  )

  zero-CompSound : CompSound e 0 zero_cmd.comp
  zero-CompSound = (λ l. absurd (omega arith), omega arith, λ l. absurd (omega arith))

  pub entries :
      (args : List (List ℕ))
      → AllShort 32 args
      → EntriesOk (λ d. CmdSound e d.ctype d) args zero_cmd 0 (cmd_attr_list e)
  entries args s = (
    λ lo hi.
        cls_table e args _ s CmdType.cls_mac (λ d. tt) (cls_mac_ops e) cls_mac_ok (omega arith) refl
          (omega arith),
    (
      λ lo hi.
          cls_table e args _ s CmdType.cls_vlan (λ d. tt) (cls_vlan_ops e) cls_vlan_ok (omega arith)
            refl (omega arith),
      (
        λ lo hi. tt,
        (
          λ lo hi. tt,
          (
            λ lo hi. tt,
            (
              λ lo hi. comp_table e args _ s (omega arith) (omega arith) refl zero-CompSound,
              (
                λ lo hi.
                    port_table e args _ s (length args + 1 == 8) (omega arith) (omega arith) refl
                      zero-PortSound,
                tt,
              ),
            ),
          ),
        ),
      ),
    ),
  )
