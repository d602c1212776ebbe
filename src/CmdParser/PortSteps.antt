-- ===== src/CmdParser/PortSteps.antt =====
-- cmd_parser.c: a port command as it is printed, and how its words are accepted one by one.
use spp_tmp.Base.{
  ℕ, ◌≤◌, ◌<◌, ◌≡◌, refl, sym, ◌∙◌, Bool, true, false, ◌&&◌, ◌||◌, not, some, List, [], ◌∷◌, length,
  arith, ◌⊎◌, inl, inr,
}
use spp_tmp.WorkerTypes.{PortDir, PortIdx, PortOps, PortAttrs, zero_attrs, zero_tag}
use spp_tmp.Manager.{is_some}
use spp_tmp.VfCommand.{Action}
use spp_tmp.CString.{codes, int_lt}
use spp_tmp.CString.Decimal.{dec}
use spp_tmp.CString.Tokens.{IsWord}
use spp_tmp.PortUid.{is_phy}
use spp_tmp.CmdParser.{
  PortCmd, CmdType, CmdAttrs, zero_cmd, Env, Outcome, accept, get_list_idx, get_int_in_range,
}
use spp_tmp.CmdParser.Params.{
  parse_port_action, parse_port, parse_port_direction, parse_comp_name_portcmd, parse_port_vlan_ops,
  parse_port_vid, parse_port_pcp, parse_uid, lcore_of, used, exceeds, is_add,
}
use spp_tmp.CmdParser.Request.{ok, CmdOps, op, on_port, parse_params, port_ops}
use spp_tmp.PortUid.RoundTrip.{strtol-dec_end, int_small}
use spp_tmp.CmdParser.Accepted.{copy_name_short}
use spp_tmp.CmdParser.Defined.{IsAddDel, IsOneWay}

-- `sppwk_action_str`
unfoldable pub sppwk_action_str : Action → List ℕ
sppwk_action_str Action.none_act = codes "none"
sppwk_action_str Action.start = codes "start"
sppwk_action_str Action.stop = codes "stop"
sppwk_action_str Action.add = codes "add"
sppwk_action_str Action.del = codes "del"

abbrev pub dir_str : PortDir → List ℕ
dir_str PortDir.rx_dir = codes "rx"
dir_str PortDir.tx_dir = codes "tx"
dir_str _ = codes "none"

-- The VLAN operation of a command: none, the insertion of a tag, or its deletion.
pub data TagOps : Type 0 where
  keep del_tag : TagOps
  add_tag : ℕ → ℕ → TagOps

abbrev pub tag_words : TagOps → List (List ℕ)
tag_words keep = []
tag_words del_tag = codes "del_vlantag" ∷ []
tag_words (add_tag vid pcp) = codes "add_vlantag" ∷ dec vid ∷ dec pcp ∷ []

abbrev pub tag_attrs : PortDir → TagOps → PortAttrs
tag_attrs d keep = zero_attrs
tag_attrs d del_tag = record { ops = PortOps.del_vlan; dir = d; vlantag = zero_tag }
tag_attrs d (add_tag vid pcp) = record {
  ops = PortOps.add_vlan;
  dir = d;
  vlantag = record zero_tag { vid = vid; pcp = pcp };
}

abbrev pub port_words : Action → List ℕ → PortDir → List ℕ → TagOps → List (List ℕ)
port_words act uid d name tag =
    codes "port" ∷ sppwk_action_str act ∷ uid ∷ dir_str d ∷ name ∷ tag_words tag

abbrev pub is_add_tag : TagOps → Bool
is_add_tag (add_tag vid pcp) = true
is_add_tag _ = false

abbrev pub TagInRange : TagOps → Type 0
TagInRange (add_tag vid pcp) = (vid ≤ 4095) × (pcp ≤ 7)
TagInRange _ = Unit {0}

-- The port, the direction and the name are what the parser admits.
pub record Admits (e : Env) (act : Action) (uid : List ℕ) (p : PortIdx) (d : PortDir)
    (name : List ℕ) (tag : TagOps) : Type 0 where
  pub acts : IsAddDel act
  pub one_way : IsOneWay d
  pub uid_word : IsWord b' ' uid
  pub uid_short : length uid < 32
  pub names : parse_uid e uid ≡ some p
  pub name_word : IsWord b' ' name
  pub name_short : length name < 32
  pub registered : is_some (lcore_of e name) ≡ true
  pub in_range : TagInRange tag
  pub queue_exists : is_add act ≡ true → is_phy p.iface_type ≡ true → exceeds e d p ≡ false
  pub free : is_add act ≡ true → is_add_tag tag ≡ false → used e p d ≡ false

three_false : (a b c : Bool) → (a ≡ true → b ≡ true → c ≡ false) → (a && b && c) ≡ false
three_false true true c h = h refl refl
three_false true false c h = refl
three_false false b c h = refl

not_used :
    (flag a u : Bool) → (a ≡ true → flag ≡ false → u ≡ false) → (not flag && (a && u)) ≡ false
not_used true a u h = refl
not_used false true u h = h refl refl
not_used false false u h = refl

not_both :
    (flag a u v : Bool)
    → (a ≡ true → flag ≡ false → (u && v) ≡ false)
    → (not flag && (a && u && v)) ≡ false
not_both true a u v h = refl
not_both false true u v h = h refl refl
not_both false false u v h = refl

and_false : (u v : Bool) → (u ≡ false) ⊎ (v ≡ false) → (u && v) ≡ false
and_false true v (inl h) = cc
and_false true v (inr h) = h
and_false false v h = refl

abbrev pub port_cmd : PortCmd → CmdAttrs
port_cmd c = record zero_cmd { ctype = CmdType.port; port = c }

pub get_int_in_range-dec :
    (n max : ℕ) → max < 2_147_483_648 → n ≤ max → get_int_in_range (dec n) 0 max ≡ some n
unfolding get_int_in_range
get_int_in_range-dec n max hm h =
    rw (strtol-dec_end n (omega arith), get_int_in_range)
      (rw (int_small n (omega arith)) (rw (fits n max hm h) refl))
  where
    fits : (n max : ℕ) → max < 2_147_483_648 → n ≤ max → (int_lt n 0 || int_lt max n) ≡ false
    fits n max hm h = ground arith

module _ (e : Env) where
  abbrev pub tag_ops : List CmdOps
  tag_ops =
      op (codes "port vlan operation") (on_port (parse_port_vlan_ops e))
      ∷ op (codes "port vid") (on_port (parse_port_vid e))
      ∷ op (codes "port pcp") (on_port (parse_port_pcp e))
      ∷ []

  action_accepted :
      (flag : Bool) (act : Action) (c : PortCmd)
      → IsAddDel act
      → parse_port_action e flag (sppwk_action_str act) c ≡ accept (record c { wk_action = act })
  unfolding parse_port_action sppwk_action_str get_list_idx
  action_accepted flag Action.add c h = refl
  action_accepted flag Action.del c h = refl
  action_accepted flag _ c h = absurd h

  one_way_free :
      (d : PortDir) (p : PortIdx)
      → IsOneWay d
      → used e p d ≡ false
      → (used e p PortDir.rx_dir && used e p PortDir.tx_dir) ≡ false
  one_way_free PortDir.rx_dir p h u =
      and_false (used e p PortDir.rx_dir) (used e p PortDir.tx_dir) (inl u)
  one_way_free PortDir.tx_dir p h u =
      and_false (used e p PortDir.rx_dir) (used e p PortDir.tx_dir) (inr u)
  one_way_free _ p h u = absurd h

  port_accepted :
      (flag : Bool) (uid : List ℕ) (p : PortIdx) (d : PortDir) (c : PortCmd)
      → parse_uid e uid ≡ some p
      → IsOneWay d
      → (is_add c.wk_action ≡ true → flag ≡ false → used e p d ≡ false)
      → parse_port e flag uid c ≡ accept (record c { port = p })
  unfolding parse_port
  port_accepted flag uid p d c h one free =
      let unused =
        not_both flag (is_add c.wk_action) (used e p PortDir.rx_dir) (used e p PortDir.tx_dir)
          (λ a f. one_way_free d p one (free a f)) in
      rw (h, parse_port) (rw unused refl)

  direction_accepted :
      (flag : Bool) (d : PortDir) (c : PortCmd)
      → IsOneWay d
      → (is_add c.wk_action ≡ true → is_phy c.port.iface_type ≡ true → exceeds e d c.port ≡ false)
      → (is_add c.wk_action ≡ true → flag ≡ false → used e c.port d ≡ false)
      → parse_port_direction e flag (dir_str d) c ≡ accept (record c { dir = d })
  unfolding parse_port_direction get_list_idx
  direction_accepted flag PortDir.rx_dir c h exists free =
      rw
        (three_false (is_add c.wk_action) (is_phy c.port.iface_type)
          (exceeds e PortDir.rx_dir c.port) exists)
        (rw (not_used flag (is_add c.wk_action) (used e c.port PortDir.rx_dir) free) refl)
  direction_accepted flag PortDir.tx_dir c h exists free =
      rw
        (three_false (is_add c.wk_action) (is_phy c.port.iface_type)
          (exceeds e PortDir.tx_dir c.port) exists)
        (rw (not_used flag (is_add c.wk_action) (used e c.port PortDir.tx_dir) free) refl)
  direction_accepted flag _ c h exists free = absurd h

  name_accepted :
      (flag : Bool) (w : List ℕ) (c : PortCmd)
      → is_some (lcore_of e w) ≡ true
      → length w < 32
      → parse_comp_name_portcmd e flag w c ≡ accept (record c { name = w })
  unfolding parse_comp_name_portcmd
  name_accepted flag w c h s = rw h (rw (copy_name_short w s) refl)

  -- One parameter more.
  params_step :
      (flag : Bool) (f : Bool → List ℕ → PortCmd → Outcome PortCmd) (n : List ℕ) (ops : List CmdOps)
      (w : List ℕ) (ws : List (List ℕ)) (c : CmdAttrs) (d : PortCmd)
      → f flag w c.port ≡ accept d
      → parse_params flag (op n (on_port f) ∷ ops) (w ∷ ws) c
        ≡ parse_params flag ops ws (record c { port = d })
  unfolding parse_params
  params_step flag f n ops w ws c d h = rw (h, parse_params) refl

  -- The words up to the name of the component.
  pub head_accepted :
      (act : Action) (uid : List ℕ) (p : PortIdx) (d : PortDir) (name : List ℕ) (tag : TagOps)
      → (flag : Bool) → flag ≡ is_add_tag tag
      → Admits e act uid p d name tag
      → parse_params flag
          (port_ops e)
          (sppwk_action_str act ∷ uid ∷ dir_str d ∷ name ∷ tag_words tag)
          (record zero_cmd { ctype = CmdType.port })
        ≡ parse_params flag tag_ops (tag_words tag) (
            port_cmd
              (record { wk_action = act; port = p; dir = d; name = name; port_attrs = zero_attrs }))
  head_accepted act uid p d name tag flag ef h =
      let c0 = zero_cmd.port in
      let c1 : PortCmd = record c0 { wk_action = act } in
      let c2 : PortCmd = record c1 { port = p } in
      let c3 : PortCmd = record c2 { dir = d } in
      let free = λ (a : is_add act ≡ true) (f : flag ≡ false). h.free a (sym ef ∙ f) in
      params_step flag (parse_port_action e) _ _ (sppwk_action_str act) _ _ c1
        (action_accepted flag act c0 h.acts)
      ∙ params_step flag (parse_port e) _ _ uid _ _ c2
          (port_accepted flag uid p d c1 h.names h.one_way free)
      ∙ params_step flag (parse_port_direction e) _ _ (dir_str d) _ _ c3
          (direction_accepted flag d c2 h.one_way h.queue_exists free)
      ∙ params_step flag (parse_comp_name_portcmd e) _ _ name _ _ (record c3 { name = name })
          (name_accepted flag name c3 h.registered h.name_short)

  abbrev pub whole_cmd : Action → PortIdx → PortDir → List ℕ → TagOps → CmdAttrs
  whole_cmd act p d name tag =
      port_cmd
        (record { wk_action = act; port = p; dir = d; name = name; port_attrs = tag_attrs d tag })

  pub tail_accepted :
      (act : Action) (p : PortIdx) (d : PortDir) (name : List ℕ) (tag : TagOps) (flag : Bool)
      → TagInRange tag
      → parse_params flag tag_ops (tag_words tag) (whole_cmd act p d name keep)
        ≡ ok (whole_cmd act p d name tag)
  unfolding parse_params parse_port_vlan_ops parse_port_vid parse_port_pcp get_list_idx
  tail_accepted act p d name keep flag h = refl
  tail_accepted act p d name del_tag flag h = refl
  tail_accepted act p d name (add_tag vid pcp) flag h =
      let tagged = λ (v c : ℕ). let cmd : CmdAttrs = whole_cmd act p d name (add_tag v c) in cmd in
      params_step flag (parse_port_vid e) (codes "port vid")
        (op (codes "port pcp") (on_port (parse_port_pcp e)) ∷ []) (dec vid) (dec pcp ∷ [])
        (tagged 0 0) (tagged vid 4_294_967_295).port (vid_accepted h.0)
      ∙ params_step flag (parse_port_pcp e) (codes "port pcp") [] (dec pcp) []
          (tagged vid 4_294_967_295) (tagged vid pcp).port (pcp_accepted h.1)
    where
      vid_accepted :
          vid ≤ 4095
          → parse_port_vid e flag (dec vid) (whole_cmd act p d name (add_tag 0 0)).port
            ≡ accept (whole_cmd act p d name (add_tag vid 4_294_967_295)).port
      vid_accepted h = rw (get_int_in_range-dec vid 4095 (omega arith) h, parse_port_vid) refl

      pcp_accepted :
          pcp ≤ 7
          → parse_port_pcp e flag
              (dec pcp)
              (whole_cmd act p d name (add_tag vid 4_294_967_295)).port
            ≡ accept (whole_cmd act p d name (add_tag vid pcp)).port
      pcp_accepted h = rw (get_int_in_range-dec pcp 7 (omega arith) h, parse_port_pcp) refl
