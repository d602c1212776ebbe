-- ===== src/CmdParser.antt =====
-- src/shared/secondary/spp_worker_th/cmd_parser.c with cmd_parser.h: the parser of the commands that
-- spp_vf receives. This module has the requests and the functions on words; Params the functions on the
-- parameters, Request the tables and the parser itself.
-- The members of the union `spec` lie side by side: a command's functions touch one of them only.
pub mod Params
pub mod ClsParams
pub mod Request
pub mod Split
pub mod Words
pub mod Defined
pub mod Accepted
pub mod Total
pub mod Tables
pub mod Sound
pub mod Runs
pub mod PortSteps
pub mod PortCommand
use spp_tmp.Base.{
  ℕ, zero, suc, ◌+◌, ◌-◌, Bool, true, false, ◌&&◌, ◌||◌, not, Option, none, some, List, [], ◌∷◌,
  ◌==◌, if◌then◌else◌, ltb, leb, list_eq,
}
use spp_tmp.WorkerTypes.{PortDir, PortIdx, PortAttrs, PortOps, WorkerType, zero_attrs, null_port}
use spp_tmp.PortManager.{PortType}
use spp_tmp.Manager.{MngData}
use spp_tmp.VfCommand.{Action}
use spp_tmp.CString.{codes, strtol, strtoul, whole, to_int, is_neg, int_lt, strtok_r}

pub data ClsType : Type 0 where
  no_cls mac vlan : ClsType

pub record ClsCmd : Type 0 where
  pub wk_action : Action
  pub cls_type : ClsType
  pub vid : ℕ
  pub mac : List ℕ
  pub port : PortIdx

pub record CompCmd : Type 0 where
  pub wk_action : Action
  pub name : List ℕ
  pub core : ℕ
  pub wk_type : WorkerType

pub record PortCmd : Type 0 where
  pub wk_action : Action
  pub port : PortIdx
  pub dir : PortDir
  pub name : List ℕ
  pub port_attrs : PortAttrs

-- `enum sppwk_cmd_type`
pub data CmdType : Type 0 where
  cls_mac cls_vlan client_id status exit worker port : CmdType

pub record CmdAttrs : Type 0 where
  pub ctype : CmdType
  pub cls_table : ClsCmd
  pub comp : CompCmd
  pub port : PortCmd

-- PHY is 0, as the type of a port that `memset` has cleared.
abbrev pub zero_idx : PortIdx
zero_idx = record { iface_type = PortType.phy; iface_no = 0; queue_no = 0 }

-- What the `memset` of `sppwk_run_cmd` leaves.
abbrev pub zero_cmd : CmdAttrs
zero_cmd = record {
  ctype = CmdType.cls_mac;
  cls_table = record {
    wk_action = Action.none_act;
    cls_type = ClsType.no_cls;
    vid = 0;
    mac = [];
    port = zero_idx;
  };
  comp = record { wk_action = Action.none_act; name = []; core = 0; wk_type = WorkerType.no_type };
  port = record {
    wk_action = Action.none_act;
    port = zero_idx;
    dir = PortDir.none_dir;
    name = [];
    port_attrs = zero_attrs;
  };
}

-- The sizes of the arrays.
abbrev pub sppwk_max_params : ℕ
sppwk_max_params = 8

abbrev pub sppwk_name_bufsz : ℕ
sppwk_name_bufsz = 32

abbrev pub sppwk_val_bufsz : ℕ
sppwk_val_bufsz = 111

abbrev pub spp_vlan_pcp_max : ℕ
spp_vlan_pcp_max = 7

-- What the parser reads beside the request: RTE_MAX_LCORE, RTE_MAX_ETHPORTS, the numbers of queues in
-- the memzone, and `g_mng_data`.
pub record Env : Type 0 where
  pub max_lcore : ℕ
  pub max_ethports : ℕ
  pub rxq : ℕ → ℕ
  pub txq : ℕ → ℕ
  pub mng : MngData

-- SPPWK_RET_OK with what was written, SPPWK_RET_NG, or undefined behaviour: a dereference of NULL or a
-- write behind the end of an array.
pub data Outcome {ℓ} (A : Type ℓ) : Type ℓ where
  accept : A → Outcome A
  reject undefined : Outcome A

-- The lists, without their terminations; the indices are the values of the enums.
abbrev pub cmd_act_list : List (List ℕ)
cmd_act_list = codes "none" ∷ codes "start" ∷ codes "stop" ∷ codes "add" ∷ codes "del" ∷ []

abbrev pub act_of : ℕ → Action
act_of zero = Action.none_act
act_of (suc zero) = Action.start
act_of (suc (suc zero)) = Action.stop
act_of (suc (suc (suc zero))) = Action.add
act_of _ = Action.del

abbrev pub cls_type_list : List (List ℕ)
cls_type_list = codes "none" ∷ codes "mac" ∷ codes "vlan" ∷ []

abbrev pub cls_type_of : ℕ → ClsType
cls_type_of zero = ClsType.no_cls
cls_type_of (suc zero) = ClsType.mac
cls_type_of _ = ClsType.vlan

abbrev pub port_dir_list : List (List ℕ)
port_dir_list = codes "none" ∷ codes "rx" ∷ codes "tx" ∷ []

abbrev pub dir_of : ℕ → PortDir
dir_of zero = PortDir.none_dir
dir_of (suc zero) = PortDir.rx_dir
dir_of _ = PortDir.tx_dir

abbrev pub port_ability_list : List (List ℕ)
port_ability_list = codes "none" ∷ codes "add_vlantag" ∷ codes "del_vlantag" ∷ []

abbrev pub ops_of : ℕ → PortOps
ops_of zero = PortOps.no_ops
ops_of (suc zero) = PortOps.add_vlan
ops_of _ = PortOps.del_vlan

unfoldable pub get_list_idx : List ℕ → List (List ℕ) → Option ℕ
get_list_idx str [] = none
get_list_idx str (l ∷ ls) =
    if list_eq l str
    then some 0
    else (elim (get_list_idx str ls) [ none ↦ none | some i ↦ some (i + 1) ])

unfoldable pub get_int_in_range : List ℕ → ℕ → ℕ → Option ℕ
get_int_in_range arg_val min max = elim (whole (strtol 0 arg_val)) [
  | none ↦ none
  | some v ↦ if int_lt (to_int v) min || int_lt max (to_int v) then none else some (to_int v)
]

unfoldable pub get_uint_in_range : List ℕ → ℕ → ℕ → Option ℕ
get_uint_in_range arg_val min max = elim (whole (strtoul 0 arg_val)) [
  | none ↦ none
  | some v ↦ if ltb (to_int v) min || ltb max (to_int v) then none else some (to_int v)
]

-- The words of a request; `none` is SPPWK_RET_NG, for more than `max` words.
unfoldable pub split_cmd_params : ℕ → List ℕ → Option (List (List ℕ))
split_cmd_params zero s = elim (strtok_r b' ' s) [ none ↦ some [] | some _ ↦ none ]
split_cmd_params (suc max) s = elim (strtok_r b' ' s) [
  | none ↦ some []
  | some (argv_tok, saveptr) ↦ elim (split_cmd_params max saveptr) [
    | none ↦ none
    | some argv ↦ some (argv_tok ∷ argv)
  ]
]

-- vf/vf_cmd_runner.c. The comparison includes the terminating 0.
unfoldable pub get_comp_type_from_str : List ℕ → WorkerType
get_comp_type_from_str type_str =
    if list_eq type_str (codes "classifier")
    then WorkerType.cls
    else if list_eq type_str (codes "merge")
    then WorkerType.mrg
    else if list_eq type_str (codes "forward")
    then WorkerType.forwarder
    else WorkerType.no_type
