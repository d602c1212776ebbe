-- ===== src/Mirror.antt =====
-- src/mirror/spp_mirror.c: the worker of spp_mirror, which sends each packet and a copy of it.
-- The copies are shallow (SPP_MIRROR_SHALLOWCOPY), as the Makefile sets it. The wait at the end of
-- `update_mirror` is left to the caller: `is_waiting` is its condition.
pub mod Command
pub mod Update
pub mod Refs
pub mod Proc
pub mod Counts
pub mod PortCounts
pub mod Flush
pub mod Room
pub mod Flushed
pub mod Kept
pub mod Exec
use spp_tmp.Base.{
  ℕ, zero, suc, ◌+◌, ◌%◌, ◌≡◌, Bool, true, false, ◌&&◌, Option, none, some, List, [], ◌∷◌, ◌++◌,
  ◌==◌, if◌then◌else◌, ltb, update, for_from, length, drop,
}
use spp_tmp.Ethdev.{Ethdev, free_all}
use spp_tmp.BasicForwarder.{max_pkt_burst}
use spp_tmp.WorkerTypes.{PortIdx, PortInfo, PortArray, CompInfo, WorkerType, zero_info, two_sides}
use spp_tmp.Capability.{CapState, swap_ref}
use spp_tmp.Forwarder.{to_uint16}

pub record MirrorPath : Type 0 where
  pub name : List ℕ
  pub wk_type : WorkerType
  pub nof_rx : ℕ
  pub nof_tx : ℕ
  -- `ports[i].rx` and `ports[i].tx`
  pub rx : ℕ → PortInfo
  pub tx : ℕ → PortInfo

pub record MirrorInfo : Type 0 where
  pub ref_index : ℕ
  pub upd_index : ℕ
  pub path : ℕ → MirrorPath

abbrev pub zero_path : MirrorPath
zero_path = record {
  name = [];
  wk_type = WorkerType.no_type;
  nof_rx = 0;
  nof_tx = 0;
  rx = λ _. zero_info;
  tx = λ _. zero_info;
}

-- An entry of `g_mirror_info` after `mirror_proc_init`.
pub mirror_proc_init : MirrorInfo
mirror_proc_init = record { ref_index = 0; upd_index = 1; path = λ _. zero_path }

-- What a port pointer points to.
module _ (deref : PortIdx → PortInfo) where
  pub copy_rx : PortArray → ℕ → MirrorPath → MirrorPath
  copy_rx ports cnt p = record p { rx = update p.rx cnt (deref (ports.ptr cnt)) }

  pub copy_tx : PortArray → ℕ → MirrorPath → MirrorPath
  copy_tx ports cnt p = record p { tx = update p.tx cnt (deref (ports.ptr cnt)) }

  pub make_path : CompInfo → MirrorPath
  make_path c = for_from c.tx.nof 0 (copy_tx c.tx) (
      for_from c.rx.nof 0 (copy_rx c.rx) (record zero_path {
        name = c.name;
        wk_type = c.wk_type;
        nof_rx = c.rx.nof;
        nof_tx = c.tx.nof;
      }))

  -- `none` is SPPWK_RET_NG.
  unfoldable pub update_mirror : CompInfo → MirrorInfo → Option MirrorInfo
  update_mirror c info =
      if ltb 1 c.rx.nof
      then none
      else if ltb 2 c.tx.nof
      then none
      else some (record info {
        path = update info.path info.upd_index (make_path c);
        upd_index = info.ref_index;
      })

unfoldable pub is_waiting : MirrorInfo → Bool
is_waiting info = info.ref_index == info.upd_index

unfoldable pub change_mirror_index : MirrorInfo × CapState → MirrorInfo × CapState
change_mirror_index (info, caps) =
    if info.ref_index == info.upd_index
    then (record info { ref_index = (info.upd_index + 1) % two_sides }, swap_ref caps)
    else (info, caps)

-- `rte_pktmbuf_clone` with the pool of the process: a new mbuf, or NULL. The law is its documented
-- behaviour: the program is given the new mbuf, and no other reference changes hands.
module _ (eth : Ethdev) where
  open eth use {World, acquired, released, rx_burst, tx_burst}

  abbrev pub gained : Option ℕ → List ℕ
  gained none = []
  gained (some m) = m ∷ []

  pub record Cloner : Type 0 where
    pub clone : ℕ → World → Option ℕ × World
    pub clone_acquired :
        (m : ℕ) (w : World) → acquired (clone m w).1 ≡ acquired w ++ gained (clone m w).0
    pub clone_released : (m : ℕ) (w : World) → released (clone m w).1 ≡ released w

  module _ (pool : Cloner) where
    open pool use {clone}

    -- The loop that fills `copybufs`.
    unfoldable pub clone_each : List ℕ → World → List (Option ℕ) × World
    clone_each [] w = ([], w)
    clone_each (m ∷ ms) w = let (c, v) = clone m w in let (cs, u) = clone_each ms v in (c ∷ cs, u)

    -- `none` if one of them is NULL.
    abbrev pub no_null : List (Option ℕ) → Option (List ℕ)
    no_null [] = some []
    no_null (none ∷ cs) = none
    no_null (some c ∷ cs) = elim (no_null cs) [ none ↦ none | some l ↦ some (c ∷ l) ]

    -- `if (tx->ethdev_port_id >= 0)` around the transmission; `nb_tx1` starts with 0.
    unfoldable pub send : PortInfo → List ℕ → World → ℕ × World
    send tx bufs w = elim tx.ethdev_port_id [
      | none ↦ (0, w)
      | some p ↦ tx_burst (to_uint16 (some p)) tx.queue_no bufs w
    ]

    -- From the second transmission on: `nb_tx2` of the copies were sent.
    pub send_original : MirrorPath → List ℕ → List ℕ → ℕ → World → World
    send_original path bufs copies nb_tx2 w =
        let (nb_tx1, v) = send (path.tx 0) bufs w in
        let nb_tx = if ltb nb_tx1 nb_tx2 then nb_tx2 else nb_tx1 in
        let u = if ltb nb_tx (length bufs) then free_all eth (drop nb_tx bufs) v else v in
        if ltb nb_tx2 (length bufs) then free_all eth (drop nb_tx2 copies) u else u

    -- `none` is undefined behaviour: NULL in the burst of copies, or, without an ethdev port for the
    -- copies, the free of pointers that were never set.
    pub mirror_packets : MirrorPath → List ℕ → World → Option World
    mirror_packets path bufs w = elim (path.tx 1).ethdev_port_id [
      | none ↦ none
      | some p ↦
          let (cs, v) = clone_each bufs w in
          elim (no_null cs) [
            | none ↦ none
            | some copies ↦
                let (nb_tx2, u) = send (path.tx 1) copies v in
                some (send_original path bufs copies nb_tx2 u)
          ]
    ]

    abbrev pub is_ready : MirrorPath → Bool
    is_ready path = (path.nof_tx == 2) && (path.nof_rx == 1)

    -- What the worker takes from the RX port. `none` is a burst from the port -1, which as `uint16_t` is
    -- 65535 and is no ethdev port: nothing tests `ethdev_port_id` before the burst.
    unfoldable pub receive : MirrorPath → World → Option (List ℕ × World)
    receive path w = elim (path.rx 0).ethdev_port_id [
      | none ↦ none
      | some r ↦ some (rx_burst (to_uint16 (some r)) (path.rx 0).queue_no max_pkt_burst w)
    ]

    -- `none` is undefined behaviour.
    pub mirror_proc : MirrorInfo × CapState × World → Option (MirrorInfo × CapState × World)
    mirror_proc (info, caps, w) =
        let (info', caps') = change_mirror_index (info, caps) in
        let path = info'.path info'.ref_index in
        if is_ready path
        then (elim (receive path w) [
          | none ↦ none
          | some (bufs, v) ↦
              if length bufs == 0
              then some (info', caps', v)
              else (elim (mirror_packets path bufs v) [
                | none ↦ none
                | some u ↦ some (info', caps', u)
              ])
        ])
        else some (info', caps', w)
