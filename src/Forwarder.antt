-- ===== src/Forwarder.antt =====
-- src/vf/forwarder.c: the forwarder and the merger of spp_vf.
-- The wait at the end of `update_forwarder` is left to the caller: `update_forwarder` is the part
-- before it, and `is_waiting` is its condition.
pub mod Update
pub mod Forward
use spp_tmp.Base.{
  ℕ, zero, suc, ◌+◌, ◌-◌, ◌*◌, ◌%◌, Bool, true, false, ◌&&◌, ◌||◌, not, Option, none, some, List,
  [], ◌∷◌, ◌==◌, if◌then◌else◌, ltb, leb, update, for_from, length, drop,
}
use spp_tmp.Ethdev.{Ethdev, free_all}
use spp_tmp.BasicForwarder.{max_pkt_burst}
use spp_tmp.WorkerTypes.{PortIdx, PortInfo, PortArray, CompInfo, WorkerType, zero_info, two_sides}
use spp_tmp.Capability.{CapState, swap_ref}
use spp_tmp.Vlan.{eth_vlan_rx_burst, eth_vlan_tx_burst}

pub record ForwardPath : Type 0 where
  pub name : List ℕ
  pub wk_type : WorkerType
  pub nof_rx : ℕ
  pub nof_tx : ℕ
  -- `ports[i].rx` and `ports[i].tx`
  pub rx : ℕ → PortInfo
  pub tx : ℕ → PortInfo

pub record ForwardInfo : Type 0 where
  pub ref_index : ℕ
  pub upd_index : ℕ
  pub path : ℕ → ForwardPath

abbrev pub zero_path : ForwardPath
zero_path = record {
  name = [];
  wk_type = WorkerType.no_type;
  nof_rx = 0;
  nof_tx = 0;
  rx = λ _. zero_info;
  tx = λ _. zero_info;
}

-- An entry of `g_forward_info` after `init_forwarder`.
pub init_forward_info : ForwardInfo
init_forward_info = record { ref_index = 0; upd_index = 1; path = λ _. zero_path }

abbrev pub is_fwd : WorkerType → Bool
is_fwd WorkerType.forwarder = true
is_fwd _ = false

abbrev pub is_mrg : WorkerType → Bool
is_mrg WorkerType.mrg = true
is_mrg _ = false

-- What `update_forwarder` does: SPPWK_RET_NG, a write behind the ports of the path, or an update.
pub data Updated : Type 0 where
  ng crash : Updated
  updated : ForwardInfo → Updated

-- What a port pointer points to.
module _ (deref : PortIdx → PortInfo) where
  pub copy_rx : PortArray → ℕ → ForwardPath → ForwardPath
  copy_rx ports cnt p = record p { rx = update p.rx cnt (deref (ports.ptr cnt)) }

  -- Every entry gets the first TX port.
  pub copy_tx : PortArray → ℕ → ForwardPath → ForwardPath
  copy_tx ports cnt p = record p { tx = update p.tx cnt (deref (ports.ptr 0)) }

  -- The stores of an update into its path. `update_forwarder` tests before that the entries exist.
  pub make_path : CompInfo → ForwardPath
  make_path c =
      let nof_max = if ltb c.tx.nof c.rx.nof then c.rx.nof * c.tx.nof else c.tx.nof in
      for_from nof_max 0 (copy_tx c.tx) (
        for_from c.rx.nof 0 (copy_rx c.rx) (record zero_path {
          name = c.name;
          wk_type = c.wk_type;
          nof_rx = c.rx.nof;
          nof_tx = c.tx.nof;
        }))

  -- The loops of `make_path` write `ports[cnt]` for `cnt` below the numbers of ports, and `ports` has
  -- RTE_MAX_ETHPORTS entries.
  unfoldable pub update_forwarder : ℕ → CompInfo → ForwardInfo → Updated
  update_forwarder max_ethports c info =
      if is_fwd c.wk_type && ltb 1 c.rx.nof
      then ng
      else if not (c.tx.nof == 0) && not (c.tx.nof == 1)
      then ng
      else if ltb max_ethports c.rx.nof || ltb max_ethports c.tx.nof
      then crash
      else updated (record info {
        path = update info.path info.upd_index (make_path c);
        upd_index = info.ref_index;
      })

unfoldable pub is_waiting : ForwardInfo → Bool
is_waiting info = info.ref_index == info.upd_index

unfoldable pub change_forward_index : ForwardInfo × CapState → ForwardInfo × CapState
change_forward_index (info, caps) =
    if info.ref_index == info.upd_index
    then (record info { ref_index = (info.upd_index + 1) % two_sides }, swap_ref caps)
    else (info, caps)

-- An `int` that is passed as `uint16_t`.
abbrev pub to_uint16 : Option ℕ → ℕ
to_uint16 none = 0xffff
to_uint16 (some p) = p % 0x1_0000

abbrev pub is_ready : ForwardPath → Bool
is_ready path =
    if is_mrg path.wk_type
    then (path.nof_tx == 1) && leb 1 path.nof_rx
    else (path.nof_tx == 1) && (path.nof_rx == 1)

module _ (eth : Ethdev) where
  open eth use {World}

  -- `ethdev_port_id >= 0` guards the transmission; without it `nb_tx` keeps its old value.
  pub send : CapState → PortInfo → List ℕ → ℕ → World → ℕ × World
  send caps tx bufs nb_tx w = elim tx.ethdev_port_id [
    | none ↦ (nb_tx, w)
    | some p ↦ eth_vlan_tx_burst eth caps (to_uint16 (some p)) tx.queue_no bufs w
  ]

  -- One round of the loop over the RX ports, with the variable `nb_tx`.
  pub forward_port : CapState → ForwardPath → ℕ → ℕ × World → ℕ × World
  forward_port caps path cnt (nb_tx, w) =
      let rx = path.rx cnt in
      let (bufs, v) =
        eth_vlan_rx_burst eth caps (to_uint16 rx.ethdev_port_id) rx.queue_no max_pkt_burst w in
      if length bufs == 0
      then (nb_tx, v)
      else (let (n, u) = send caps (path.tx cnt) bufs nb_tx v in
          (n, if ltb n (length bufs) then free_all eth (drop n bufs) u else u))

  pub forward_packets : ForwardInfo × CapState × World → ForwardInfo × CapState × World
  forward_packets (info, caps, w) =
      let (info', caps') = change_forward_index (info, caps) in
      let path = info'.path info'.ref_index in
      if is_ready path
      then (info', caps', (for_from path.nof_rx 0 (forward_port caps' path) (0, w)).1)
      else (info', caps', w)
