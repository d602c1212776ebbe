-- ===== src/Tests/Packets.antt =====
-- The tests of the packet functions of secondary/spp_worker_th/port_capability.c and vf/forwarder.c.
use spp_tmp.Base.{◌≡◌, refl, some, [], ◌∷◌, ◌++◌, arith, update, replicate}
use spp_tmp.Ethdev.{Medium, sim, IsEven}
use spp_tmp.WorkerTypes.{VlanTag, zero_attrs}
use spp_tmp.Vlan.{add_vlan_tag_one, del_vlan_tag_one, get_vid, set_fcs_packet, insert_tag}
use spp_tmp.Vlan.Tagging.{del-add}
use spp_tmp.Vlan.Burst.{no_ops-NeverFails}
use spp_tmp.Forwarder.{forward_packets, change_forward_index}
use spp_tmp.Forwarder.Forward.{forward_packets-IsEven}
use spp_tmp.Tests.Data.{loaded, fresh_caps, fwd_info}

-- VLAN 100 with priority 3.
abbrev tag : VlanTag
tag = record { vid = 100; pcp = 3; tci = (0x60, 0x64) }

-- Packet 71 is a VLAN frame.
abbrev with_tagged : Medium
with_tagged = record loaded {
  frames = λ m. replicate 12 m ++ (0x81 ∷ 0x00 ∷ 0 ∷ 5 ∷ 0x08 ∷ 0x00 ∷ 1 ∷ []);
}

abbrev prepended : Medium
prepended = record loaded {
  frames = update loaded.frames 70 (0 ∷ 0 ∷ 0 ∷ 0 ∷ replicate 20 70);
  headroom = update loaded.headroom 70 124;
}

abbrev after_add : Medium
after_add =
    set_fcs_packet sim 70 (sim.set_frame 70 (insert_tag tag.tci (prepended.frames 70)) prepended)

del-add_example :
    (u : Medium) × (get_vid (after_add.frames 70) ≡ 100)
    × (del_vlan_tag_one sim 70 after_add ≡ some u)
    × (u.frames 70 ≡ loaded.frames 70)
unfolding add_vlan_tag_one
del-add_example =
    del-add sim 100 3 70 tag loaded {v = after_add} refl (omega arith) refl (omega arith) refl

forward_packets-IsEven_example :
    IsEven sim loaded (forward_packets sim (fwd_info, fresh_caps, loaded)).2
unfolding change_forward_index
forward_packets-IsEven_example =
    forward_packets-IsEven sim fwd_info fresh_caps loaded
      (λ cnt h. (1, refl, no_ops-NeverFails sim (replicate 4 zero_attrs) refl))
