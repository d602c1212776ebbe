-- ===== src/Tests/Flushes.antt =====
-- The tests of the flush of commands, of their results, and of the message buffer.
use spp_tmp.Base.{
  ℕ, ◌+◌, ◌≡◌, refl, Bool, true, false, some, [], ◌∷◌, ◌==◌, arith, if◌then◌else◌, update,
}
use spp_tmp.WorkerTypes.{LcoreStatus}
use spp_tmp.Capability.{CapState}
use spp_tmp.Manager.{MngData}
use spp_tmp.Lcore.{get_core_info, sppwk_is_lcore_updated, mark_cores, copy_cores, switch_core}
use spp_tmp.Lcore.Publish.{IsFlipped, flush_published}
use spp_tmp.CmdRunner.{exec_cmds}
use spp_tmp.CmdRunner.Results.{StopsAt, exec_cmds_stops}
use spp_tmp.Flush.{sppwk_update_port_dir}
use spp_tmp.Flush.Ports.{SameAttrs, update_port_dir_isolated}
use spp_tmp.StringBuffer.{Strbuf, append, remove_front}
use spp_tmp.StringBuffer.Append.{IsTerminated, append_fits}
use spp_tmp.Tests.Data.{fresh_caps, fwd_comp, port_at}
use spp_tmp.Tests.Commands.{idle_vf}

-- A buffer of 8 bytes with "ab".
abbrev small_buffer : Strbuf
small_buffer = record { capacity = 8; str = 97 ∷ 98 ∷ [] }

append_fits_example :
    (c : Strbuf) × (append (λ n. true) small_buffer (99 ∷ 100 ∷ []) ≡ some c)
    × (c.str ≡ 97 ∷ 98 ∷ 99 ∷ 100 ∷ [])
    × IsTerminated c
    × (remove_front c 2 ≡ some (record c { str = 99 ∷ 100 ∷ [] }))
append_fits_example =
    append_fits (λ n. true) small_buffer (99 ∷ 100 ∷ []) (λ n. refl)
      (λ z. omega (arith, z), (λ z. omega (arith, z), tt)) (omega arith) (omega arith) (omega arith)

-- Lcore 2 is changed: the main thread has added component 0 to it.
abbrev changed_vf : MngData
changed_vf = record idle_vf {
  core = update idle_vf.core 2 (record {
    status = LcoreStatus.running;
    ref_index = 0;
    upd_index = 1;
    core = λ side. record { num = side; id = λ _. 0 };
  });
  change_core = update idle_vf.change_core 2 true;
}

abbrev switched_vf : MngData
switched_vf = record (mark_cores 4 changed_vf) {
  core = λ k. switch_core ((mark_cores 4 changed_vf).core k);
  change_core = changed_vf.change_core;
}

flush_published_example :
    let old = changed_vf.core 2 in
    let new = (copy_cores 4 switched_vf).core 2 in
    (get_core_info ((mark_cores 4 changed_vf).core 2) ≡ get_core_info old)
    × (sppwk_is_lcore_updated ((mark_cores 4 changed_vf).core 2) ≡ true)
    × (true ≡ true
        → (get_core_info new ≡ record { num = 1; id = λ _. 0 })
          × (new.core new.upd_index ≡ record { num = 1; id = λ _. 0 }))
    × (true ≡ false → new ≡ old)
    × IsFlipped new
flush_published_example =
    flush_published 4 changed_vf switched_vf (λ k. (ground arith, ground arith)) (λ k. refl) refl 2
      (omega arith)

-- Commands are numbers, added to the state; 0 fails.
abbrev add_number : ℕ → ℕ → Bool × ℕ
add_number c s = if c == 0 then (false, s) else (true, s + c)

exec_cmds_stops_example :
    let (results, goes_on, t) =
      exec_cmds add_number (record { commands = 3 ∷ 0 ∷ 5 ∷ []; is_requested_exit = false }) 1 in
    (goes_on ≡ true) × ((k : ℕ) × StopsAt add_number k (3 ∷ 0 ∷ 5 ∷ []) 1 (results, t))
exec_cmds_stops_example = exec_cmds_stops add_number (3 ∷ 0 ∷ 5 ∷ []) 1

update_port_dir_isolated_example :
    (t : CapState) × (sppwk_update_port_dir port_at fwd_comp fresh_caps ≡ some t)
    × SameAttrs fresh_caps t
update_port_dir_isolated_example =
    update_port_dir_isolated port_at fwd_comp fresh_caps (λ j k p hj hk a b. omega arith)
      (λ j k p hj hk a b. omega arith) (λ j h. (0, refl, omega arith))
      (λ j h. (1, refl, omega arith)) (omega arith) (omega arith)
      (λ j p lo hi e. (omega arith, refl)) (λ j p lo hi e. (omega arith, refl))
