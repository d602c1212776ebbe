-- ===== src/Tests/Sides.antt =====
-- The tests of the tables with two sides: the attributes of secondary/spp_worker_th/port_capability.c
-- and the paths of vf/forwarder.c.
use spp_tmp.Base.{◌≡◌, ◌⊎◌, refl, true, false, some, List, [], ◌∷◌, arith, replicate}
use spp_tmp.WorkerTypes.{PortDir, zero_attrs}
use spp_tmp.Capability.{
  CapState, get_port_attrs, update_port_attrs, marked, swap_upd, mark_port, swap_ref, fill_port,
  name_port,
}
use spp_tmp.Capability.Publish.{Call, Grows, Overruns, update_isolated, update_published, run_num}
use spp_tmp.Forwarder.{Updated, ForwardInfo, update_forwarder, change_forward_index, is_waiting}
use spp_tmp.Forwarder.Update.{IsFlipped, Routes, current, update_forwarder_publishes}
use spp_tmp.Tests.Data.{tagging_port, add_100, fresh_caps, port_at, fwd_comp, fwd_info}

abbrev updated_caps : CapState
updated_caps = record (name_port 1 tagging_port fresh_caps) {
  tx = marked 1 (fill_port 1 PortDir.tx_dir tagging_port.port_attrs fresh_caps.tx);
}

update_isolated_example :
    get_port_attrs 1 PortDir.tx_dir updated_caps ≡ get_port_attrs 1 PortDir.tx_dir fresh_caps
unfolding update_port_attrs swap_upd mark_port fill_port
update_isolated_example =
    update_isolated 1 tagging_port PortDir.tx_dir fresh_caps {t = updated_caps} (omega arith, refl)
      refl 1 PortDir.tx_dir

-- The tag control information of VLAN 100 and priority 3 is 0x6064.
update_published_example :
    get_port_attrs 1 PortDir.tx_dir (swap_ref updated_caps)
    ≡ some (
        record add_100 { vlantag = record { vid = 100; pcp = 3; tci = (0x60, 0x64) } }
        ∷ replicate 3 zero_attrs)
unfolding update_port_attrs swap_upd mark_port fill_port
update_published_example =
    update_published 1 tagging_port PortDir.tx_dir fresh_caps {t = updated_caps} (omega arith, refl)
      (omega arith) refl

abbrev two_updates : List Call
two_updates =
    Call.upd 0 PortDir.rx_dir
    ∷ Call.ref
    ∷ Call.upd 0 PortDir.rx_dir
    ∷ Call.upd 0 PortDir.tx_dir
    ∷ Call.ref
    ∷ []

run_num_example : Grows two_updates fresh_caps ⊎ Overruns two_updates fresh_caps
run_num_example =
    run_num two_updates fresh_caps (omega arith, (omega arith, (omega arith, tt))) refl
      (omega arith) (omega arith)

update_forwarder_publishes_example :
    (t : ForwardInfo) × (update_forwarder port_at 32 fwd_comp fwd_info ≡ Updated.updated t)
    × (current t ≡ current fwd_info)
    × (is_waiting t ≡ true)
    × (let (u, caps') = change_forward_index (t, fresh_caps) in
        (is_waiting u ≡ false)
        × (Routes port_at fwd_comp (current u))
        × (IsFlipped u)
        × (caps' ≡ swap_ref fresh_caps))
update_forwarder_publishes_example =
    update_forwarder_publishes port_at 32 fwd_comp fwd_info fresh_caps (omega arith, refl)
      (omega arith) (λ f. omega arith) (omega arith) (omega arith)
