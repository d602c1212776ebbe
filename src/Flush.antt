-- ===== src/Flush.antt =====
-- src/vf/vf_cmd_runner.c: `update_comp_info`, which hands the changed components to the worker threads,
-- with `sppwk_update_port_dir` of src/shared/secondary/spp_worker_th/port_capability.c.
-- The update of a classifier or a forwarder, with its wait for the thread, is an argument: the
-- functions are those of Classifier and Forwarder.
pub mod Ports
pub mod Total
use spp_tmp.Base.{ℕ, zero, suc, ◌+◌, Bool, true, false, Option, none, some, ◌==◌, if◌then◌else◌}
use spp_tmp.WorkerTypes.{PortDir, PortIdx, PortInfo, PortArray, CompInfo, is_cls}
use spp_tmp.Capability.{CapState, update_port_attrs}

module _ (deref : PortIdx → PortInfo) where
  abbrev pub or_crash : Option CapState → (CapState → Option CapState) → Option CapState
  or_crash none f = none
  or_crash (some s) f = f s

  -- One loop; the next port is `i`. A port without an ethdev port has the number -1, and
  -- `g_port_mng_info[-1]` is outside the array.
  unfoldable pub update_ports : PortDir → PortArray → ℕ → ℕ → CapState → Option CapState
  update_ports d ports zero i s = some s
  update_ports d ports (suc n) i s =
      let port = deref (ports.ptr i) in
      elim port.ethdev_port_id [
        | none ↦ none
        | some p ↦ or_crash (update_port_attrs p port d s) (update_ports d ports n (i + 1))
      ]

  -- `none` is an access outside `g_port_mng_info` or behind the list of the marked ports.
  unfoldable pub sppwk_update_port_dir : CompInfo → CapState → Option CapState
  sppwk_update_port_dir comp s =
      or_crash (update_ports PortDir.rx_dir comp.rx comp.rx.nof 0 s)
        (update_ports PortDir.tx_dir comp.tx comp.tx.nof 0)

  module _ {S : Type 0} (update_classifier update_forwarder : CompInfo → S → Bool × S) where
    abbrev pub update_worker : CompInfo → S → Bool × S
    update_worker c s = if is_cls c.wk_type then update_classifier c s else update_forwarder c s

    -- `n` components are left, the next is `cnt`. `none` is undefined behaviour.
    pub update_comp_info :
        (ℕ → CompInfo) → (ℕ → Bool) → ℕ → ℕ → CapState × S → Option (Bool × CapState × S)
    update_comp_info comps changed zero cnt (caps, s) = some (true, caps, s)
    update_comp_info comps changed (suc n) cnt (caps, s) =
        let skipped = update_comp_info comps changed n (cnt + 1) (caps, s) in
        let rest = λ (r : CapState × S). update_comp_info comps changed n (cnt + 1) r in
        if changed cnt
        then (elim (sppwk_update_port_dir (comps cnt) caps) [
          | none ↦ none
          | some caps' ↦
              let (ok, t) = update_worker (comps cnt) s in
              let next = rest (caps', t) in if ok then next else some (false, caps', t)
        ])
        else skipped
