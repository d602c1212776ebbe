-- ===== src/CmdParser/Request.antt =====
-- cmd_parser.c: the tables of the commands and of their parameters, and the parser of a request.
use spp_tmp.Base.{
  ℕ, zero, suc, ◌+◌, ◌*◌, Bool, true, false, ◌&&◌, ◌||◌, not, Option, none, some, List, [], ◌∷◌,
  ◌==◌, if◌then◌else◌, ltb, leb, list_eq, length, get_or,
}
use spp_tmp.CString.{codes}
use spp_tmp.CmdParser.{
  ClsCmd, CompCmd, PortCmd, CmdType, CmdAttrs, zero_cmd, Env, Outcome, accept, reject, undefined,
  sppwk_max_params, sppwk_val_bufsz, split_cmd_params,
}
use spp_tmp.CmdParser.Params.{
  parse_comp_action, parse_comp_name, parse_comp_lcore_id, parse_comp_type, parse_port_action,
  parse_port, parse_port_direction, parse_comp_name_portcmd, parse_port_vlan_ops, parse_port_vid,
  parse_port_pcp,
}
use spp_tmp.CmdParser.ClsParams.{
  parse_cls_action, parse_cls_type, parse_cls_vid, parse_mac_addr, parse_cls_port,
}

pub data ParseErrorCode : Type 0 where
  wrong_format unknown_cmd no_param invalid_type invalid_value : ParseErrorCode

pub record ParseErrMsg : Type 0 where
  pub code : ParseErrorCode
  pub msg : List ℕ
  pub details : List ℕ

-- `crash` is undefined behaviour.
pub data Result {ℓ} (A : Type ℓ) : Type ℓ where
  ok : A → Result A
  err : ParseErrMsg → Result A
  crash : Result A

abbrev pub wrong {ℓ} : {A : Type ℓ} → Result A
wrong = err (record { code = ParseErrorCode.wrong_format; msg = []; details = [] })

-- `strcpy` to `details`, which has SPPWK_VAL_BUFSZ bytes.
unfoldable pub set_detailed_parse_error {ℓ} : {A : Type ℓ} → List ℕ → List ℕ → Result A
set_detailed_parse_error err_msg err_details =
    if leb sppwk_val_bufsz (length err_details)
    then crash
    else err (record { code = ParseErrorCode.invalid_value; msg = err_msg; details = err_details })

-- `struct sppwk_cmd_ops`: the offset is part of the function.
pub record CmdOps : Type 0 where
  pub name : List ℕ
  pub func : Bool → List ℕ → CmdAttrs → Outcome CmdAttrs

abbrev pub on_cls :
    (Bool → List ℕ → ClsCmd → Outcome ClsCmd) → Bool → List ℕ → CmdAttrs → Outcome CmdAttrs
on_cls f flag arg_val c = elim (f flag arg_val c.cls_table) [
  | accept v ↦ accept (record c { cls_table = v })
  | reject ↦ reject
  | undefined ↦ undefined
]

abbrev pub on_comp :
    (Bool → List ℕ → CompCmd → Outcome CompCmd) → Bool → List ℕ → CmdAttrs → Outcome CmdAttrs
on_comp f flag arg_val c = elim (f flag arg_val c.comp) [
  | accept v ↦ accept (record c { comp = v })
  | reject ↦ reject
  | undefined ↦ undefined
]

abbrev pub on_port :
    (Bool → List ℕ → PortCmd → Outcome PortCmd) → Bool → List ℕ → CmdAttrs → Outcome CmdAttrs
on_port f flag arg_val c = elim (f flag arg_val c.port) [
  | accept v ↦ accept (record c { port = v })
  | reject ↦ reject
  | undefined ↦ undefined
]

abbrev pub op : List ℕ → (Bool → List ℕ → CmdAttrs → Outcome CmdAttrs) → CmdOps
op n f = record { name = n; func = f }

-- The loop over the parameters. Behind the last entry of the table stands NULL, which is not to be called.
unfoldable pub parse_params : Bool → List CmdOps → List (List ℕ) → CmdAttrs → Result CmdAttrs
unfolding set_detailed_parse_error
parse_params flag ops [] c = ok c
parse_params flag [] (arg ∷ args) c = crash
parse_params flag (o ∷ ops) (arg ∷ args) c = elim (o.func flag arg c) [
  | accept d ↦ parse_params flag ops args d
  | reject ↦ set_detailed_parse_error o.name arg
  | undefined ↦ crash
]

abbrev pub cmd_type_of : ℕ → CmdType
cmd_type_of zero = CmdType.cls_mac
cmd_type_of (suc zero) = CmdType.cls_vlan
cmd_type_of (suc (suc zero)) = CmdType.client_id
cmd_type_of (suc (suc (suc zero))) = CmdType.status
cmd_type_of (suc (suc (suc (suc zero)))) = CmdType.exit
cmd_type_of (suc (suc (suc (suc (suc zero))))) = CmdType.worker
cmd_type_of _ = CmdType.port

-- `struct cmd_parse_attrs`. The function takes the index, the parameters and `maxargc`; `none` is NULL.
pub record CmdParseAttrs : Type 0 where
  pub cmd_name : List ℕ
  pub nof_params_min : ℕ
  pub nof_params_max : ℕ
  pub func : Option (ℕ → List (List ℕ) → ℕ → CmdAttrs → Result CmdAttrs)

-- Only the last member of the request tells the main loop to end.
pub record Req : Type 0 where
  pub cmd : CmdAttrs
  pub is_requested_client_id : Bool
  pub is_requested_status : Bool
  pub is_requested_exit : Bool

-- The entry of a command whose name and number of words fit is used. `argv0` with `args` is `argv`; the
-- flag is `is_valid_nof_params`.
unfoldable pub parse_loop :
    List CmdParseAttrs → ℕ → Bool → List ℕ → List (List ℕ) → CmdAttrs → Result CmdAttrs
unfolding set_detailed_parse_error
parse_loop [] i valid argv0 args c =
    if valid then set_detailed_parse_error (codes "command") argv0 else wrong
parse_loop (l ∷ ls) i valid argv0 args c =
    let argc = length args + 1 in
    let same = list_eq argv0 l.cmd_name in
    let rest = parse_loop ls (i + 1) (valid && not same) argv0 args c in
    if same && not (ltb argc l.nof_params_min || ltb l.nof_params_max argc)
    then (elim l.func [
      | none ↦ ok (record c { ctype = cmd_type_of i })
      | some f ↦ f i args l.nof_params_max (record c { ctype = cmd_type_of i })
    ])
    else rest

module _ (e : Env) where
  abbrev pub cls_mac_ops : List CmdOps
  cls_mac_ops =
      op (codes "action") (on_cls (parse_cls_action e))
      ∷ op (codes "type") (on_cls (parse_cls_type e))
      ∷ op (codes "mac address") (on_cls (parse_mac_addr e))
      ∷ op (codes "port") (on_cls (parse_cls_port e))
      ∷ []

  abbrev pub cls_vlan_ops : List CmdOps
  cls_vlan_ops =
      op (codes "action") (on_cls (parse_cls_action e))
      ∷ op (codes "type") (on_cls (parse_cls_type e))
      ∷ op (codes "vlan id") (on_cls (parse_cls_vid e))
      ∷ op (codes "mac address") (on_cls (parse_mac_addr e))
      ∷ op (codes "port") (on_cls (parse_cls_port e))
      ∷ []

  abbrev pub comp_ops : List CmdOps
  comp_ops =
      op (codes "action") (on_comp (parse_comp_action e))
      ∷ op (codes "component name") (on_comp (parse_comp_name e))
      ∷ op (codes "core") (on_comp (parse_comp_lcore_id e))
      ∷ op (codes "component type") (on_comp (parse_comp_type e))
      ∷ []

  abbrev pub port_ops : List CmdOps
  port_ops =
      op (codes "action") (on_port (parse_port_action e))
      ∷ op (codes "port") (on_port (parse_port e))
      ∷ op (codes "port rxtx") (on_port (parse_port_direction e))
      ∷ op (codes "component name") (on_port (parse_comp_name_portcmd e))
      ∷ op (codes "port vlan operation") (on_port (parse_port_vlan_ops e))
      ∷ op (codes "port vid") (on_port (parse_port_vid e))
      ∷ op (codes "port pcp") (on_port (parse_port_pcp e))
      ∷ []

  abbrev pub cmd_ops_list : List (List CmdOps)
  cmd_ops_list = cls_mac_ops ∷ cls_vlan_ops ∷ [] ∷ [] ∷ [] ∷ comp_ops ∷ port_ops ∷ []

  abbrev pub parse_cmd_comp : ℕ → List (List ℕ) → ℕ → CmdAttrs → Result CmdAttrs
  parse_cmd_comp ci args maxargc = parse_params false (get_or cmd_ops_list ci []) args

  abbrev pub parse_cmd_cls_table : ℕ → List (List ℕ) → ℕ → CmdAttrs → Result CmdAttrs
  parse_cmd_cls_table = parse_cmd_comp

  abbrev pub parse_cmd_cls_table_vlan : ℕ → List (List ℕ) → ℕ → CmdAttrs → Result CmdAttrs
  parse_cmd_cls_table_vlan ci args maxargc = parse_params false (get_or cmd_ops_list ci []) args

  -- All eight words are given: the VLAN tag of a registered port may be replaced.
  abbrev pub parse_cmd_port : ℕ → List (List ℕ) → ℕ → CmdAttrs → Result CmdAttrs
  parse_cmd_port ci args maxargc =
      parse_params (length args + 1 == maxargc) (get_or cmd_ops_list ci []) args

  abbrev pub attrs :
      List ℕ → ℕ → ℕ → Option (ℕ → List (List ℕ) → ℕ → CmdAttrs → Result CmdAttrs) → CmdParseAttrs
  attrs n min max f = record { cmd_name = n; nof_params_min = min; nof_params_max = max; func = f }

  abbrev pub cmd_attr_list : List CmdParseAttrs
  cmd_attr_list =
      attrs (codes "classifier_table") 5 5 (some parse_cmd_cls_table)
      ∷ attrs (codes "classifier_table") 6 6 (some parse_cmd_cls_table_vlan)
      ∷ attrs (codes "_get_client_id") 1 1 none
      ∷ attrs (codes "status") 1 1 none
      ∷ attrs (codes "exit") 1 1 none
      ∷ attrs (codes "component") 3 5 (some parse_cmd_comp)
      ∷ attrs (codes "port") 5 8 (some parse_cmd_port)
      ∷ []

  -- `tmp_str` has room for SPPWK_MAX_PARAMS * SPPWK_VAL_BUFSZ bytes. A request without a word leaves
  -- `argv[0]` as NULL, which `strcmp` dereferences.
  unfoldable pub parse_wk_cmd : List ℕ → Result CmdAttrs
  parse_wk_cmd request_str =
      if leb (sppwk_max_params * sppwk_val_bufsz) (length request_str)
      then crash
      else elim (split_cmd_params sppwk_max_params request_str) [
        | none ↦ wrong
        | some [] ↦ crash
        | some (argv0 ∷ args) ↦ parse_loop cmd_attr_list 0 true argv0 args zero_cmd
      ]

  abbrev pub getters : CmdAttrs → Req
  getters c = record {
    cmd = c;
    is_requested_client_id = elim c.ctype [ CmdType.client_id ↦ true | _ ↦ false ];
    is_requested_status = elim c.ctype [ CmdType.status ↦ true | _ ↦ false ];
    is_requested_exit = elim c.ctype [ CmdType.exit ↦ true | _ ↦ false ];
  }

  unfoldable pub sppwk_parse_req : List ℕ → Result Req
  unfolding parse_wk_cmd
  sppwk_parse_req request_str = elim (parse_wk_cmd request_str) [
    | ok c ↦ ok (getters c)
    | err m ↦ err m
    | crash ↦ crash
  ]
