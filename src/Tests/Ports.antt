-- ===== src/Tests/Ports.antt =====
-- The tests of shared/port_manager.c and shared/basic_forwarder.c.
use spp_tmp.Base.{
  ℕ, ◌≡◌, ◌≢◌, ◌⊎◌, inl, refl, some, none, arith, drop, List, [], ◌∷◌, ◌+◌, ltb, if◌then◌else◌,
}
use spp_tmp.Ethdev.{Medium, sim, free_all, Passed}
use spp_tmp.PortManager.{
  PortState, port_reset, get_port_max_queues, add_patch, is_valid_port, is_valid_port_rxq,
  is_valid_port_txq, forward_array_remove, forward_array_init_one, passes_over, set_fwd,
}
use spp_tmp.PortManager.Patch.{add_patch_links}
use spp_tmp.PortManager.Remove.{forward_array_remove_first, remove_drops_other, close_out}
use spp_tmp.BasicForwarder.{forward, forward_one, stats_at}
use spp_tmp.CString.{codes}
use spp_tmp.Nfv.{Drivers, Uid, Command}
use spp_tmp.BasicForwarder.Conserve.{forward_total}
use spp_tmp.BasicForwarder.Count.{forward_one_moves}
use spp_tmp.Tests.Data.{
  two_patches, two_patches-IsWired, two_patches-FitsQueues, no_patches, loaded,
}

forward_total_example :
    (t : PortState) × (v : Medium) × (forward sim 4 (two_patches, loaded) ≡ some (t, v))
    × (t.fwd ≡ two_patches.fwd)
    × (t.port_map ≡ two_patches.port_map)
    × Passed sim loaded v
forward_total_example =
    forward_total sim 4 1 two_patches loaded two_patches-IsWired two_patches-FitsQueues

forward_one_moves_example :
    (t : PortState) × (forward_one sim 0 0 (two_patches, loaded)
      ≡ some (
        t,
        free_all sim
            (drop 2 (sim.rx_burst 0 0 32 loaded).0)
            (sim.tx_burst 1 0 (sim.rx_burst 0 0 32 loaded).0 (sim.rx_burst 0 0 32 loaded).1).1,
      ))
    × ((stats_at t 0).rx ≡ 3)
    × ((stats_at t 1).tx ≡ 2)
    × ((stats_at t 1).tx_drop ≡ 1)
forward_one_moves_example =
    forward_one_moves sim 0 0 two_patches loaded (omega arith) (omega arith) refl refl (omega arith)
      (omega arith)

add_patch_links_example :
    let t = (add_patch 4 0 0 1 0 no_patches).1 in
    ((t.fwd 0 0).out_port_id ≡ 1)
    × ((t.fwd 0 0).out_queue_id ≡ 0)
    × ((t.fwd 0 0).in_port_id ≡ 0)
    × ((t.fwd 1 0).in_port_id ≡ 1)
    × ((t.fwd 1 0).out_port_id ≡ port_reset)
    × ((a b : ℕ) → (a ≢ 0) ⊎ (b ≢ 0) → (a ≢ 1) ⊎ (b ≢ 0) → t.fwd a b ≡ no_patches.fwd a b)
unfolding add_patch is_valid_port is_valid_port_rxq is_valid_port_txq get_port_max_queues
add_patch_links_example = add_patch_links 4 0 0 1 0 no_patches refl (inl (omega arith))

-- To remove port 3 drops the patch from port 0 to port 1.
forward_array_remove_first_example :
    forward_array_remove 4 3 0 two_patches ≡ close_out 0 0 (forward_array_init_one 3 0 two_patches)
unfolding get_port_max_queues forward_array_init_one set_fwd passes_over
forward_array_remove_first_example =
    forward_array_remove_first 4 3 0 0 0 two_patches (omega arith) (omega arith)
      (λ a b h _. absurd (omega arith)) (λ b h. absurd (omega arith)) (inl (omega arith))

remove_drops_other_example :
    let r = forward_array_remove 4 3 0 two_patches in
    ((r.fwd 0 0).out_port_id ≡ port_reset) × (r.fwd 2 0 ≡ two_patches.fwd 2 0)
unfolding get_port_max_queues
remove_drops_other_example =
    remove_drops_other 4 3 0 0 0 2 0 two_patches (omega arith) (omega arith) (omega arith)
      (λ i j h _. absurd (omega arith)) (λ j h. absurd (omega arith)) (omega arith) (omega arith)
      (omega arith) (omega arith)

-- A driver that numbers its ports, up to 3.
abbrev four_ports : Drivers
four_ports = record {
  State = ℕ;
  add_pmd = λ t i d. if ltb d 4 then (some d, d + 1) else (none, d);
  detach = λ t p d. d;
}

abbrev vhost_uid : ℕ → Uid
vhost_uid i = record { p_type = codes "vhost"; p_id = i; queue_id = 0 }

-- "add vhost:5", "patch vhost:5 vhost:6", "del vhost:5"
abbrev session : List Command
session =
    Command.add (vhost_uid 5)
    ∷ Command.patch (vhost_uid 5) (vhost_uid 6)
    ∷ Command.del (vhost_uid 5)
    ∷ []
