-- ===== src/Tests/Parser.antt =====
-- The tests of secondary/spp_worker_th/cmd_parser.c and of the strings in it.
use spp_tmp.Base.{
  ℕ, ◌-◌, ◌^◌, ◌≡◌, ◌↔◌, refl, Option, none, some, List, [], ◌∷◌, ◌==◌, if◌then◌else◌, arith,
}
use spp_tmp.PortManager.{PortType}
use spp_tmp.WorkerTypes.{PortDir, PortIdx}
use spp_tmp.Manager.{MngData, get_sppwk_port, sppwk_get_lcore_id, sppwk_check_used_port}
use spp_tmp.VfCommand.{Action}
use spp_tmp.CString.{codes, convert, strtol, strip, is_prefix, strstr, strtok_r}
use spp_tmp.CString.Decimal.{dec}
use spp_tmp.CString.Tokens.{is_word, is_word-IsWord}
use spp_tmp.PortUid.{
  uid_type, uid_queue, uid_iface, uid_port, parse_resource_uid, sppwk_port_uid, get_port_max_queues,
  type_str, dec_int,
}
use spp_tmp.PortUid.RoundTrip.{parse-port_uid}
use spp_tmp.MacAddr.{sppwk_convert_mac_str_to_int64}
use spp_tmp.MacAddr.Convert.{mac_str, convert-mac_str}
use spp_tmp.CmdParser.{Env, split_cmd_params, get_list_idx}
use spp_tmp.CmdParser.Request.{
  parse_wk_cmd, ok, err, crash, Req, ParseErrorCode, sppwk_parse_req, parse_loop, parse_params,
  set_detailed_parse_error, getters,
}
use spp_tmp.CmdParser.Params.{
  parse_port_action, parse_port, parse_port_direction, parse_comp_name_portcmd,
}
use spp_tmp.CmdParser.Split.{split-join}
use spp_tmp.CmdParser.Sound.{parse_req_crash}
use spp_tmp.CmdParser.PortSteps.{sppwk_action_str, add_tag, tag_attrs, port_cmd, Admits}
use spp_tmp.CmdParser.PortCommand.{parse_req-port_words}
use spp_tmp.Tests.Commands.{with_cls, ring}

abbrev eight_ports : MngData
eight_ports = record with_cls { nof_ports = 8 }

-- Eight ports; port 1 has two RX queues. The component "c" is a classifier.
abbrev env : Env
env = record {
  max_lcore = 4;
  max_ethports = 8;
  rxq = λ i. if i == 1 then 2 else 1;
  txq = λ i. 1;
  mng = eight_ports;
}

abbrev uid_of : List ℕ → Option PortIdx
uid_of = parse_resource_uid 8 env.rxq env.txq

abbrev words : List (List ℕ)
words = codes "port" ∷ codes "add" ∷ codes "ring:0" ∷ []

split-join_example : split_cmd_params 8 (codes "port add ring:0") ≡ some words
unfolding is_word
split-join_example = split-join 8 words (
  is_word-IsWord b' ' (codes "port") refl,
  (is_word-IsWord b' ' (codes "add") refl, (is_word-IsWord b' ' (codes "ring:0") refl, tt)),
)

-- Numbers, names of ports and addresses.
numbers :
    (strtol 0 (codes " -0x1fq") ≡ some (2 ^ 64 - 31, codes "q"))
    × (strtol 0 (codes "010") ≡ some (8, []))
    × (strtol 16 (codes "0xg") ≡ some (0, codes "xg"))
    × (strtol 0 (codes "x") ≡ none)
unfolding convert
numbers = (refl, refl, refl, refl)

uids :
    (uid_of (codes "ring:3") ≡ some (ring 3))
    × (uid_of (codes "phy:1") ≡ none)
    × (uid_of (codes "phy:1nq1")
        ≡ some (record { iface_type = PortType.phy; iface_no = 1; queue_no = 1 }))
    × (uid_of (codes "ring:8") ≡ some (ring 8))
    × (uid_of (codes "ring:9") ≡ none)
    × (uid_of (codes "phy:1nq-1")
        ≡ some (record { iface_type = PortType.phy; iface_no = 1; queue_no = 2 ^ 32 - 1 }))
unfolding convert parse_resource_uid strip strstr is_prefix get_port_max_queues uid_type uid_queue
    uid_iface uid_port
uids = (refl, refl, refl, refl, refl, refl)

parse-port_uid_example : uid_of (codes "phy:1 nq 0") ≡ none
unfolding sppwk_port_uid get_port_max_queues dec_int dec type_str
parse-port_uid_example =
    parse-port_uid 8 env.rxq env.txq PortType.phy 1 0 2 {uid = codes "phy:1 nq 0"} (omega arith)
      (omega arith) refl refl

convert-mac_str_example :
    sppwk_convert_mac_str_to_int64 (mac_str 0x52 0x54 0 0x12 0x34 0xab) ≡ some 0xab3412005452
convert-mac_str_example =
    convert-mac_str 0x52 0x54 0 0x12 0x34 0xab (omega arith) (omega arith) (omega arith)
      (omega arith) (omega arith) (omega arith)

parse_req_crash_example :
    (sppwk_parse_req env (codes "  ") ≡ crash) ↔ (◌≡◌ {A = List (List ℕ)} [] [])
unfolding split_cmd_params strtok_r
parse_req_crash_example = parse_req_crash env (codes "  ") [] (omega arith) refl tt

abbrev command : List ℕ
command = codes "port add ring:0 tx c add_vlantag 100 3"

abbrev parsed : Req
parsed = getters env (
    port_cmd (record {
      wk_action = Action.add;
      port = ring 0;
      dir = PortDir.tx_dir;
      name = codes "c";
      port_attrs = tag_attrs PortDir.tx_dir (add_tag 100 3);
    }))

admitted :
    Admits env Action.add (codes "ring:0") (ring 0) PortDir.tx_dir (codes "c") (add_tag 100 3)
unfolding is_word convert parse_resource_uid strip strstr is_prefix get_port_max_queues
    sppwk_get_lcore_id uid_type uid_queue uid_iface uid_port
admitted = record {
  acts = tt;
  one_way = tt;
  uid_word = is_word-IsWord b' ' (codes "ring:0") refl;
  uid_short = omega arith;
  names = refl;
  name_word = is_word-IsWord b' ' (codes "c") refl;
  name_short = omega arith;
  registered = refl;
  in_range = omega arith;
  queue_exists = λ _ h. cc;
  free = λ _ h. cc;
}

parse_req-port_words_example : sppwk_parse_req env command ≡ ok parsed
unfolding dec sppwk_action_str
parse_req-port_words_example =
    parse_req-port_words env Action.add (codes "ring:0") (ring 0) PortDir.tx_dir (codes "c")
      (add_tag 100 3) admitted

abbrev long_name : List ℕ
long_name = codes "abcdefghijklmnopqrstuvwxyzabcdef"

-- What is refused, and with which message.
refused :
    (sppwk_parse_req env (codes "port add ring:0 tx x")
      ≡ err (record {
        code = ParseErrorCode.invalid_value;
        msg = codes "component name";
        details = codes "x";
      }))
    × (sppwk_parse_req env (codes "port add")
        ≡ err (record { code = ParseErrorCode.wrong_format; msg = []; details = [] }))
    × (sppwk_parse_req env (codes "pord add")
        ≡ err (record {
          code = ParseErrorCode.invalid_value;
          msg = codes "command";
          details = codes "pord";
        }))
unfolding sppwk_parse_req parse_loop parse_params split_cmd_params strtok_r parse_resource_uid strip
    strstr is_prefix convert get_list_idx sppwk_get_lcore_id set_detailed_parse_error uid_type
    uid_queue uid_iface uid_port get_port_max_queues parse_port_action parse_port
    parse_port_direction parse_comp_name_portcmd parse_wk_cmd sppwk_check_used_port get_sppwk_port
refused = (refl, refl, refl)
