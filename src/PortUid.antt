-- ===== src/PortUid.antt =====
-- The names of ports in the commands and the responses of the worker processes: `parse_resource_uid`
-- of src/shared/secondary/spp_worker_th/cmd_parser.c, and `sppwk_port_uid` and `get_port_max_queues` of
-- cmd_utils.c. RTE_MAX_ETHPORTS and the queue numbers in the memzone of the primary are parameters.
-- An `int` is its two's complement.
pub mod RoundTrip
use spp_tmp.Base.{
  ℕ, zero, suc, ◌+◌, ◌-◌, Bool, true, false, ◌&&◌, ◌||◌, not, Option, none, some, List, [], ◌∷◌,
  ◌++◌, ◌==◌, if◌then◌else◌, ltb, leb, drop,
}
use spp_tmp.PortManager.{PortType}
use spp_tmp.WorkerTypes.{PortIdx}
use spp_tmp.CString.{codes, strtol, whole, to_int, is_neg, int_lt, strip, is_prefix, strstr}
use spp_tmp.CString.Decimal.{dec}

abbrev pub is_phy : PortType → Bool
is_phy PortType.phy = true
is_phy _ = false

-- SPPWK_PHY_STR, SPPWK_VHOST_STR and SPPWK_RING_STR with the colon.
abbrev pub phy_str : List ℕ
phy_str = codes "phy:"

abbrev pub vhost_str : List ℕ
vhost_str = codes "vhost:"

abbrev pub ring_str : List ℕ
ring_str = codes "ring:"

abbrev pub delim_phy_mq : List ℕ
delim_phy_mq = codes "nq"

-- `ptype` and `iface_no_and_queue_no_str`
unfoldable pub uid_type : List ℕ → Option (PortType × List ℕ)
unfolding strip
uid_type s = elim (strip phy_str s) [
  | some r ↦ some (PortType.phy, r)
  | none ↦ elim (strip vhost_str s) [
    | some r ↦ some (PortType.vhost, r)
    | none ↦ elim (strip ring_str s) [ some r ↦ some (PortType.ring, r) | none ↦ none ]
  ]
]

-- `queue_id` and `multi_queue_flg`
unfoldable pub uid_queue : PortType → List ℕ → Option (ℕ × Bool)
unfolding strstr
uid_queue t s = elim (strstr delim_phy_mq s) [
  | none ↦ some (0, false)
  | some q ↦
      if is_phy t
      then (elim (whole (strtol 0 (drop 2 q))) [ none ↦ none | some v ↦ some (to_int v, true) ])
      else none
]

abbrev pub ends_uid : List ℕ → Bool
ends_uid [] = true
ends_uid (c ∷ cs) = is_prefix delim_phy_mq (c ∷ cs)

-- What `%d` prints.
unfoldable pub dec_int : ℕ → List ℕ
dec_int v = if is_neg v then b'-' ∷ dec (4_294_967_296 - v) else dec v

unfoldable pub type_str : PortType → Option (List ℕ)
type_str PortType.phy = some phy_str
type_str PortType.ring = some ring_str
type_str PortType.vhost = some vhost_str
type_str _ = none

abbrev pub same : Bool → Bool → Bool
same true b = b
same false b = not b

abbrev pub many : Option ℕ → Bool
many none = false
many (some m) = ltb 1 m

module _ (max_ethports : ℕ) (rxq txq : ℕ → ℕ) where
  abbrev pub out_of_range : ℕ → Bool
  out_of_range n = int_lt max_ethports n || is_neg n

  -- `none` is SPPWK_RET_NG. RTE_MAX_ETHPORTS itself is not refused: `rxq` and `txq` are then what lies
  -- behind the array.
  unfoldable pub get_port_max_queues : PortType → ℕ → Option ℕ
  get_port_max_queues t n =
      if out_of_range n
      then none
      else if not (is_phy t)
      then some 1
      else if ltb (txq n) (rxq n)
      then some (rxq n)
      else some (txq n)

  unfoldable pub uid_iface : List ℕ → Option ℕ
  uid_iface s = elim (strtol 0 s) [
    | none ↦ none
    | some (v, rest) ↦
        if not (ends_uid rest)
        then none
        else if out_of_range (to_int v)
        then none
        else some (to_int v)
  ]

  unfoldable pub uid_port : PortType → ℕ × Bool → ℕ → Option PortIdx
  uid_port t (queue_id, multi) n =
      if is_phy t && not (same multi (many (get_port_max_queues t n)))
      then none
      else some (record { iface_type = t; iface_no = n; queue_no = queue_id })

  -- `none` is SPPWK_RET_NG.
  unfoldable pub parse_resource_uid : List ℕ → Option PortIdx
  parse_resource_uid res_uid = elim (uid_type res_uid) [
    | none ↦ none
    | some (t, s) ↦ elim (uid_queue t s) [
      | none ↦ none
      | some q ↦ elim (uid_iface s) [ none ↦ none | some n ↦ uid_port t q n ]
    ]
  ]

  -- `none` is SPPWK_RET_NG.
  unfoldable pub sppwk_port_uid : PortType → ℕ → ℕ → Option (List ℕ)
  sppwk_port_uid t n q = elim (type_str t) [
    | none ↦ none
    | some p ↦ elim (get_port_max_queues t n) [
      | none ↦ none
      | some m ↦
          if leb m 1
          then some (p ++ dec_int n)
          else some (p ++ (dec_int n ++ (codes " nq " ++ dec_int q)))
    ]
  ]
