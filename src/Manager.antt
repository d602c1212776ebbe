-- ===== src/Manager.antt =====
-- src/shared/secondary/spp_worker_th/cmd_utils.c and `del_comp_info` of cmd_runner.c: the management
-- data of the main thread of spp_vf and spp_mirror, `g_mng_data`.
-- A pointer to a `sppwk_port_info` is a `PortIdx` as `get_sppwk_port` makes it. -1 is `none`.
pub mod Arrays
use spp_tmp.Base.{
  ℕ, zero, suc, ◌+◌, ◌-◌, Bool, true, false, ◌&&◌, ◌||◌, not, Option, none, some, List, [], ◌∷◌,
  ◌==◌, if◌then◌else◌, ltb, update, for_from, list_eq,
}
use spp_tmp.PortManager.{PortType, type_no}
use spp_tmp.WorkerTypes.{
  LcoreStatus, PortDir, PortIdx, PortInfo, PortArray, CompInfo, WorkerType, is_no_type, null_port,
  zero_info, zero_comp, two_sides, eth_vlan_id_max,
}

pub record CoreInfo : Type 0 where
  pub num : ℕ
  pub id : ℕ → ℕ

pub record CoreMngInfo : Type 0 where
  pub status : LcoreStatus
  pub ref_index : ℕ
  pub upd_index : ℕ
  pub core : ℕ → CoreInfo

-- What `g_mng_data` points to, without the backup. `phy` is an array of RTE_MAX_ETHPORTS (`nof_ports`)
-- rows of RTE_MAX_QUEUES_PER_PORT (`nof_queues`) entries, `vhost` and `ring` have RTE_MAX_ETHPORTS
-- entries; at other indices the functions are what the memory holds there.
pub record MngData : Type 0 where
  pub nof_ports : ℕ
  pub nof_queues : ℕ
  pub phy : ℕ → ℕ → PortInfo
  pub vhost : ℕ → PortInfo
  pub ring : ℕ → PortInfo
  pub component : ℕ → CompInfo
  pub core : ℕ → CoreMngInfo
  pub change_core : ℕ → Bool
  pub change_component : ℕ → Bool

-- The address that the C function computes, without an access and without a test of the numbers: it
-- may lie outside the arrays, see `in_arrays`. `none` is NULL.
unfoldable pub get_sppwk_port : PortType → ℕ → ℕ → Option PortIdx
get_sppwk_port PortType.phy i q =
    some (record { iface_type = PortType.phy; iface_no = i; queue_no = q })
get_sppwk_port PortType.vhost i q =
    some (record { iface_type = PortType.vhost; iface_no = i; queue_no = 0 })
get_sppwk_port PortType.ring i q =
    some (record { iface_type = PortType.ring; iface_no = i; queue_no = 0 })
get_sppwk_port _ i q = none

-- The address is that of an entry of the arrays. An access to another one is undefined behaviour.
unfoldable pub in_arrays : MngData → PortIdx → Bool
in_arrays s p = elim p.iface_type [
  | PortType.phy ↦ ltb p.iface_no s.nof_ports && ltb p.queue_no s.nof_queues
  | PortType.vhost ↦ ltb p.iface_no s.nof_ports
  | PortType.ring ↦ ltb p.iface_no s.nof_ports
  | _ ↦ false
]

-- A load through a pointer, and a store.
unfoldable pub deref : MngData → PortIdx → PortInfo
deref s p = elim p.iface_type [
  | PortType.phy ↦ s.phy p.iface_no p.queue_no
  | PortType.vhost ↦ s.vhost p.iface_no
  | PortType.ring ↦ s.ring p.iface_no
  | _ ↦ zero_info
]

unfoldable pub put_port : PortIdx → PortInfo → MngData → MngData
put_port p v s = elim p.iface_type [
  | PortType.phy ↦ record s {
    phy = update s.phy p.iface_no (update (s.phy p.iface_no) p.queue_no v);
  }
  | PortType.vhost ↦ record s { vhost = update s.vhost p.iface_no v }
  | PortType.ring ↦ record s { ring = update s.ring p.iface_no v }
  | _ ↦ s
]

abbrev pub port_eq : PortIdx → PortIdx → Bool
port_eq p q =
    (type_no p.iface_type == type_no q.iface_type)
    && (p.iface_no == q.iface_no)
    && (p.queue_no == q.queue_no)

-- `for` with `return cnt`: `n` entries are left, the next is `i`.
abbrev pub first_index : (ℕ → Bool) → ℕ → ℕ → Option ℕ
first_index p zero i = none
first_index p (suc n) i = let rest = first_index p n (i + 1) in if p i then some i else rest

abbrev pub is_some {ℓ} : {A : Type ℓ} → Option A → Bool
is_some none = false
is_some (some a) = true

-- The ports of a component in a direction; none for the others, where `max` stays 0.
abbrev pub ports_of : PortDir → CompInfo → PortArray
ports_of PortDir.rx_dir c = c.rx
ports_of PortDir.tx_dir c = c.tx
ports_of _ c = record { nof = 0; ptr = λ _. null_port }

abbrev pub is_rx : PortDir → Bool
is_rx PortDir.rx_dir = true
is_rx _ = false

abbrev pub uses_port : PortIdx → PortDir → CompInfo → Bool
uses_port p d c =
    not (is_no_type c.wk_type)
    && is_some (first_index (λ i. port_eq ((ports_of d c).ptr i) p) (ports_of d c).nof 0)

unfoldable pub get_idx_port_info : PortIdx → PortArray → Option ℕ
get_idx_port_info p ports =
    for_from ports.nof 0 (λ cnt ret. if port_eq p (ports.ptr cnt) then some cnt else ret) none

-- The loop that moves the entries behind `idx` one forward, where `n` is the last index.
unfoldable pub shift {ℓ} : {A : Type ℓ} → ℕ → ℕ → (ℕ → A) → ℕ → A
shift idx n = for_from (n - idx) idx (λ cnt a. update a cnt (a (cnt + 1)))

-- The array after the deletion; `none` is SPPWK_RET_NG. The number of ports is the caller's.
unfoldable pub delete_port_info : PortIdx → PortArray → Option (ℕ → PortIdx)
delete_port_info p ports = elim (get_idx_port_info p ports) [
  | none ↦ none
  | some idx ↦ some (update (shift idx (ports.nof - 1) ports.ptr) (ports.nof - 1) null_port)
]

-- `idx` starts at 0, so it is never negative. The number of components is the caller's.
unfoldable pub del_comp_info : ℕ → ℕ → (ℕ → ℕ) → ℕ → ℕ
del_comp_info lcore_id nof_comps comp_ary =
    let idx = for_from nof_comps 0 (λ cnt idx. if lcore_id == comp_ary cnt then cnt else idx) 0 in
    update (shift idx (nof_comps - 1) comp_ary) (nof_comps - 1) 0

-- RTE_MAX_LCORE.
module _ (max_lcore : ℕ) where
  unfoldable pub sppwk_check_used_port : PortType → ℕ → ℕ → PortDir → MngData → Option ℕ
  sppwk_check_used_port t i q d s = elim (get_sppwk_port t i q) [
    | none ↦ none
    | some p ↦ first_index (λ cnt. uses_port p d (s.component cnt)) max_lcore 0
  ]

  abbrev pub flag : Option ℕ → MngData → MngData
  flag none s = s
  flag (some i) s = record s { change_component = update s.change_component i true }

  abbrev pub goes_out : PortDir → Bool
  goes_out PortDir.tx_dir = true
  goes_out PortDir.both_dir = true
  goes_out _ = false

  abbrev pub comes_in : PortDir → Bool
  comes_in PortDir.rx_dir = true
  comes_in PortDir.both_dir = true
  comes_in _ = false

  pub set_component_change_port : PortInfo → PortDir → MngData → MngData
  set_component_change_port port d s =
      let used =
        λ (d' : PortDir). sppwk_check_used_port port.iface_type port.iface_no port.queue_no d' s in
      let t = if comes_in d then flag (used PortDir.rx_dir) s else s in
      if goes_out d then flag (used PortDir.tx_dir) t else t

  unfoldable pub get_free_lcore_id : MngData → Option ℕ
  get_free_lcore_id s = first_index (λ cnt. is_no_type (s.component cnt).wk_type) max_lcore 0

  unfoldable pub sppwk_get_lcore_id : List ℕ → MngData → Option ℕ
  sppwk_get_lcore_id [] s = none
  sppwk_get_lcore_id (c ∷ cs) s =
      first_index (λ cnt. list_eq (c ∷ cs) (s.component cnt).name) max_lcore 0
