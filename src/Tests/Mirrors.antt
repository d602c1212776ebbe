-- ===== src/Tests/Mirrors.antt =====
-- The tests of spp_mirror: src/mirror/spp_mirror.c and src/mirror/mir_cmd_runner.c.
use spp_tmp.Base.{
  subst, sym, for_from, ℕ, ◌+◌, ◌≡◌, refl, Bool, true, false, Option, none, some, [], ◌∷◌, ◌++◌,
  ◌==◌, arith, ℕ_discrete, if◌then◌else◌, update,
}
use spp_tmp.Ethdev.{Medium, sim}
use spp_tmp.PortManager.{PortType}
use spp_tmp.WorkerTypes.{PortDir, CompInfo, WorkerType, zero_info, zero_comp, zero_attrs}
use spp_tmp.Manager.{
  MngData, get_sppwk_port, sppwk_get_lcore_id, in_arrays, delete_port_info, get_idx_port_info,
  put_port, deref, shift,
}
use spp_tmp.Flush.{sppwk_update_port_dir, update_ports}
use spp_tmp.Capability.{update_port_attrs, swap_upd, mark_port, fill_port}
use spp_tmp.VfCommand.{Action, del_port}
use spp_tmp.CmdParser.{CmdAttrs, CmdType, zero_cmd}
use spp_tmp.Mirror.{
  update_mirror, MirrorPath, MirrorInfo, Cloner, zero_path, mirror_proc, clone_each, send, receive,
  change_mirror_index,
}
use spp_tmp.Mirror.Proc.{IsEvenButLost, lost, taken, mirror_proc_refs}
use spp_tmp.Mirror.Flush.{
  update_comp_info, backup_mng_info, MirrorState, flush_cmd, exec_one_cmd, copy_mng_info,
  update_port_info, update_lcore_info, add_ports,
}
use spp_tmp.Mirror.Room.{Reachable}
use spp_tmp.Lcore.{mark_cores, copy_cores}
use spp_tmp.Mirror.Command.{update_port}
use spp_tmp.Mirror.Exec.{created, IsReady, IsFlushed, flush_cmd_lem, exec_one_cmd-IsReady}
use spp_tmp.Tests.Data.{loaded, fresh_caps}
use spp_tmp.Tests.Commands.{idle_vf, ring}

-- The copy of packet m is m + 1000.
abbrev pool : Cloner sim
pool = record {
  clone = λ m w. (some (m + 1000), record w { acquired = w.acquired ++ ((m + 1000) ∷ []) });
  clone_acquired = λ m w. refl;
  clone_released = λ m w. refl;
}

-- From port 0 to ports 1 and 2.
abbrev path : MirrorPath
path = record zero_path {
  nof_rx = 1;
  nof_tx = 2;
  rx = λ i. record zero_info { ethdev_port_id = some 0 };
  tx = λ i. record zero_info { ethdev_port_id = some (i + 1) };
}

abbrev info : MirrorInfo
info = record { ref_index = 0; upd_index = 1; path = λ i. path }

mirror_proc_refs_example :
    (v : Medium) × (mirror_proc sim pool (info, fresh_caps, loaded) ≡ some (info, fresh_caps, v))
    × IsEvenButLost sim pool (lost sim pool path loaded) loaded v
unfolding change_mirror_index
mirror_proc_refs_example =
    mirror_proc_refs sim pool info fresh_caps 0 2 loaded (λ m w. (m + 1000, refl)) refl refl

-- Without an ethdev port for the originals, those whose copies were sent are lost.
abbrev half_path : MirrorPath
half_path = record path {
  tx = λ i. record zero_info { ethdev_port_id = if i == 1 then some 2 else none };
}

lost-half_path : lost sim pool half_path loaded ≡ 70 ∷ 71 ∷ []
unfolding lost taken receive clone_each send
lost-half_path = refl

-- The mirror "m" on lcore 2, from ring 0 to rings 1 and 2, waits for a flush.
abbrev mirror_comp : CompInfo
mirror_comp = record zero_comp {
  name = 109 ∷ [];
  wk_type = WorkerType.mir;
  lcore_id = 2;
  rx = record { nof = 1; ptr = ring };
  tx = record { nof = 2; ptr = λ i. ring (i + 1) };
}

abbrev waiting : MngData
waiting = record idle_vf {
  ring = λ i. record zero_info { iface_type = PortType.ring; iface_no = i; ethdev_port_id = none };
  component = update idle_vf.component 0 mirror_comp;
  change_component = update idle_vf.change_component 0 true;
}

abbrev mirrors : MirrorState ℕ
mirrors = record {
  mng = waiting;
  backup = copy_mng_info waiting;
  caps = fresh_caps;
  info = λ i. info;
  pmd = 0;
}

-- A driver that numbers the ports that it creates.
abbrev add_pmd : ℕ → ℕ → Option ℕ × ℕ
add_pmd i d = (some d, d + 1)

mirrors-IsReady : IsReady mirrors
mirrors-IsReady = (
  (λ i. (
    (ground arith, ground arith),
    (λ ne. elim (ℕ_discrete i 0) [ yes z ↦ ground arith | no nz ↦ absurd (ne (ground arith)) ]),
    (λ e. ground arith),
  )),
  (λ i. (omega arith, refl)),
)

abbrev flushed : Option (Bool × MirrorState ℕ)
flushed = flush_cmd 4 4 add_pmd add_pmd mirrors

flush_cmd_lem_example :
    (t : MirrorState ℕ) × (flushed ≡ some (true, t))
    × IsFlushed 4 4 add_pmd add_pmd waiting mirrors t
    × IsReady t
unfolding update_port_info add_ports update_lcore_info mark_cores copy_cores for_from deref
flush_cmd_lem_example =
    flush_cmd_lem 4 4 add_pmd add_pmd mirrors mirrors-IsReady refl
      (λ i lt ch. elim (ℕ_discrete i 0) [
        | yes z ↦
            subst (λ (k : ℕ). Reachable (created 4 4 add_pmd add_pmd mirrors) fresh_caps k) (sym z)
              (
                (λ j h. elim (ℕ_discrete j 0) [
                  | yes y ↦ (0, rw y refl, omega arith)
                  | no ne ↦ absurd (omega (arith, ne))
                ]),
                (λ j h. elim (ℕ_discrete j 0) [
                  | yes y ↦ (1, rw y refl, omega arith)
                  | no ne ↦ elim (ℕ_discrete j 1) [
                    | yes y ↦ (2, rw y refl, omega arith)
                    | no ne' ↦ absurd (omega (arith, ne, ne'))
                  ]
                ]),
              )
        | no nz ↦ absurd (ground arith)
      ])
      (omega arith, omega arith)

-- "port del ring:1 tx m"
abbrev del_ring : CmdAttrs
del_ring = record zero_cmd {
  ctype = CmdType.port;
  port = record {
    wk_action = Action.del;
    port = ring 1;
    dir = PortDir.tx_dir;
    name = 109 ∷ [];
    port_attrs = zero_attrs;
  };
}

abbrev after_del : Option (Bool × MirrorState ℕ)
after_del = exec_one_cmd 4 4 add_pmd add_pmd del_ring mirrors

-- What a command that ends leaves.
abbrev ends : Option (Bool × MirrorState ℕ) → Bool
ends none = false
ends (some (b, t)) = true

abbrev result_of : Option (Bool × MirrorState ℕ) → Bool × MirrorState ℕ
result_of none = (false, mirrors)
result_of (some r) = r

some_result : (o : Option (Bool × MirrorState ℕ)) → ends o ≡ true → o ≡ some (result_of o)
some_result none e = absurd (ground arith)
some_result (some r) e = refl

ends-after_del : ends after_del ≡ true
unfolding get_sppwk_port exec_one_cmd update_port sppwk_get_lcore_id in_arrays flush_cmd
    update_port_info add_ports del_port delete_port_info get_idx_port_info for_from put_port deref
    update_comp_info update_lcore_info mark_cores copy_cores sppwk_update_port_dir update_ports
    update_port_attrs swap_upd mark_port fill_port update_mirror change_mirror_index backup_mng_info
    shift
ends-after_del = refl

exec_one_cmd-IsReady_example : IsReady (result_of after_del).1
exec_one_cmd-IsReady_example =
    exec_one_cmd-IsReady 4 4 add_pmd add_pmd del_ring mirrors {b = (result_of after_del).0}
      {t = (result_of after_del).1} mirrors-IsReady (some_result after_del ends-after_del)
