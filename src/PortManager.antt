-- ===== src/PortManager.antt =====
-- src/shared/port_manager.c, used by spp_nfv and spp_primary: the table of patches
-- `ports_fwd_array`, the table of ports `port_map`, and the functions that change them.
-- The tables are globals: one record holds both. Arrays are functions of the index, so what lies
-- behind the end of an array is a value that the model leaves open. The function pointers of an
-- entry are only ever NULL or the DPDK bursts: `has_funcs` says which.
pub mod Wired
pub mod Ports
pub mod Patch
pub mod Remove
use spp_tmp.Base.{
  ℕ, zero, suc, ◌+◌, ◌-◌, ◌^◌, Bool, true, false, ◌&&◌, ◌||◌, not, Option, none, some, ltb, leb,
  ◌==◌, if◌then◌else◌, update, for_from,
}

abbrev pub port_reset : ℕ
port_reset = 0xffff

pub data PortType : Type 0 where
  phy ring vhost pcap nullpmd tap memif pipe undef : PortType

-- The number of an enum member.
abbrev pub type_no : PortType → ℕ
type_no PortType.phy = 0
type_no PortType.ring = 1
type_no PortType.vhost = 2
type_no PortType.pcap = 3
type_no PortType.nullpmd = 4
type_no PortType.tap = 5
type_no PortType.memif = 6
type_no PortType.pipe = 7
type_no PortType.undef = 8

pub record Port : Type 0 where
  pub in_port_id : ℕ
  pub in_queue_id : ℕ
  pub out_port_id : ℕ
  pub out_queue_id : ℕ
  pub has_funcs : Bool

pub record PortQueue : Type 0 where
  pub rxq : ℕ
  pub txq : ℕ

pub record Stats : Type 0 where
  pub rx : ℕ
  pub rx_drop : ℕ
  pub tx : ℕ
  pub tx_drop : ℕ

-- `stats` is a pointer: an address of the memory `PortState.stats_mem`.
pub record PortMap : Type 0 where
  pub id : ℕ
  pub port_type : PortType
  pub stats : ℕ
  pub queue_info : Option PortQueue

pub record PortState : Type 0 where
  pub fwd : ℕ → ℕ → Port
  pub port_map : ℕ → PortMap
  pub stats_mem : ℕ → Stats

-- Write one entry of `ports_fwd_array`.
unfoldable pub set_fwd : ℕ → ℕ → Port → PortState → PortState
set_fwd i j p s = record s { fwd = update s.fwd i (update (s.fwd i) j p) }

abbrev pub reset_port : Port → Port
reset_port p = record p {
  in_port_id = port_reset;
  in_queue_id = 0;
  out_port_id = port_reset;
  out_queue_id = 0;
}

unfoldable pub forward_array_init_one : ℕ → ℕ → PortState → PortState
forward_array_init_one i j s = set_fwd i j (reset_port (s.fwd i j)) s

unfoldable pub port_map_init_one : ℕ → PortState → PortState
port_map_init_one i s = record s {
  port_map =
      update s.port_map i
        (record { id = port_reset; port_type = PortType.undef; stats = i; queue_info = none });
}

-- The larger number of queues; 1 without queue information.
unfoldable pub get_port_max_queues : PortState → ℕ → ℕ
get_port_max_queues s i = elim ((s.port_map i).queue_info) [
  | none ↦ 1
  | some q ↦ if leb q.txq q.rxq then q.rxq else q.txq
]

-- `default` of `nof_queues` is 1.
unfoldable pub is_valid_port_rxq : PortState → ℕ → ℕ → Bool
is_valid_port_rxq s i rxq = elim ((s.port_map i).queue_info) [
  | none ↦ ltb rxq 1
  | some q ↦ ltb rxq q.rxq
]

unfoldable pub is_valid_port_txq : PortState → ℕ → ℕ → Bool
is_valid_port_txq s i txq = elim ((s.port_map i).queue_info) [
  | none ↦ ltb txq 1
  | some q ↦ ltb txq q.txq
]

-- The results 0, -1 and 1 of `add_patch`.
pub data PatchResult : Type 0 where
  patched invalid_port invalid_queue : PatchResult

pub reset_out : ℕ → ℕ → PortState → PortState
reset_out i j s =
    if (s.fwd i j).in_port_id == port_reset
    then s
    else set_fwd i j (record (s.fwd i j) { out_port_id = port_reset }) s

pub fill_in : ℕ → ℕ → ℕ → ℕ → PortState → PortState
fill_in ip iq op oq = set_fwd ip iq (record {
  in_port_id = ip;
  in_queue_id = iq;
  out_port_id = op;
  out_queue_id = oq;
  has_funcs = true;
})

pub fill_out : ℕ → ℕ → PortState → PortState
fill_out op oq s =
    set_fwd op oq (record (s.fwd op oq) { in_port_id = op; in_queue_id = oq; has_funcs = true }) s

-- `for` with `break`: `n` entries are left, the next is `i`.
unfoldable pub find_from : (ℕ → Bool) → ℕ → ℕ → ℕ
find_from p zero i = port_reset
find_from p (suc n) i = let rest = find_from p n (i + 1) in if p i then i else rest

-- The test that lets the loop of `forward_array_remove` go on to the next entry.
unfoldable pub passes_over : ℕ → ℕ → Port → Bool
passes_over p q e =
    (e.in_port_id == port_reset) && (not (e.out_port_id == p) || not (e.out_queue_id == q))

-- The inner loop, with `remove_flg` as the second part of the result.
pub remove_queue : ℕ → ℕ → ℕ → ℕ → ℕ → PortState → PortState × Bool
remove_queue p q i zero j s = (s, false)
remove_queue p q i (suc n) j s =
    let rest = remove_queue p q i n (j + 1) s in
    if passes_over p q (s.fwd i j)
    then rest
    else (set_fwd i j (record (s.fwd i j) { out_port_id = port_reset }) s, true)

pub remove_port : ℕ → ℕ → ℕ → ℕ → PortState → PortState
remove_port p q zero i s = s
remove_port p q (suc n) i s =
    let (t, found) = remove_queue p q i (get_port_max_queues s i) 0 s in
    let rest = remove_port p q n (i + 1) t in if found then t else rest

-- RTE_MAX_ETHPORTS and RTE_MAX_QUEUES_PER_PORT are constants of the DPDK configuration.
module _ (max_ethports : ℕ) where
  pub forward_array_init : ℕ → PortState → PortState
  forward_array_init max_queues =
      for_from max_ethports 0 λ i. for_from max_queues 0 λ j. forward_array_init_one i j

  pub port_map_init : PortState → PortState
  port_map_init = for_from max_ethports 0 port_map_init_one

  -- The bound of the inner loop is read before the loop, and the loop does not change it.
  pub forward_array_reset : PortState → PortState
  forward_array_reset =
      for_from max_ethports 0 λ i s. for_from (get_port_max_queues s i) 0 (reset_out i) s

  unfoldable pub is_valid_port : PortState → ℕ → ℕ → Bool
  is_valid_port s i q =
      if ltb max_ethports i
      then false
      else if (s.port_map i).id == port_reset
      then false
      else ltb q (get_port_max_queues s i)

  unfoldable pub add_patch : ℕ → ℕ → ℕ → ℕ → PortState → PatchResult × PortState
  add_patch ip iq op oq s =
      if not (is_valid_port s ip iq) || not (is_valid_port s op oq)
      then (invalid_port, s)
      else if not (is_valid_port_rxq s ip iq) || not (is_valid_port_txq s op oq)
      then (invalid_queue, s)
      else (patched, fill_out op oq (fill_in ip iq op oq s))

  unfoldable pub find_port_id : ℕ → PortType → PortState → ℕ
  find_port_id id t s =
      find_from (λ i. (type_no (s.port_map i).port_type == type_no t) && ((s.port_map i).id == id))
        max_ethports 0

  pub forward_array_remove : ℕ → ℕ → PortState → PortState
  forward_array_remove p q s = remove_port p q max_ethports 0 (forward_array_init_one p q s)
