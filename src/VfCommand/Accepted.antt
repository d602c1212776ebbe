-- ===== src/VfCommand/Accepted.antt =====
-- The counts that src/vf/vf_cmd_runner.c checks against those that src/vf/forwarder.c checks.
use spp_tmp.Base.{◌≡◌, ◌≢◌, ℕ, true, arith, inl, inr, ◌⊎◌}
use spp_tmp.WorkerTypes.{CompInfo, WorkerType, PortIdx, PortInfo}
use spp_tmp.Forwarder.{Updated, ForwardInfo, update_forwarder}
use spp_tmp.Forwarder.Update.{update_forwarder-refuses}
use spp_tmp.VfCommand.Ports.{fits}

-- A component whose number of ports its type allows is one that `update_forwarder`
-- does not refuse.
pub fits-update_forwarder :
    (deref : PortIdx → PortInfo) (max_ethports : ℕ) (c : CompInfo) (info : ForwardInfo)
    → (c.wk_type ≡ WorkerType.forwarder) ⊎ (c.wk_type ≡ WorkerType.mrg)
    → fits c ≡ true
    → update_forwarder deref max_ethports c info ≢ Updated.ng
fits-update_forwarder deref max_ethports c info (inl t) f e =
    elim ((update_forwarder-refuses deref max_ethports c info).0 e) [
      | inl (_, rx) ↦ ground arith
      | inr tx ↦ ground arith
    ]
fits-update_forwarder deref max_ethports c info (inr t) f e =
    elim ((update_forwarder-refuses deref max_ethports c info).0 e) [
      | inl (w, rx) ↦ ground arith
      | inr tx ↦ ground arith
    ]
