-- ===== src/Mirror/Exec.antt =====
-- `flush_cmd` (src/shared/secondary/spp_worker_th/cmd_runner.c) and `exec_one_cmd`
-- (src/mirror/mir_cmd_runner.c) of spp_mirror.
use spp_tmp.Base.{
  ℕ, ◌<◌, ◌≡◌, refl, ap, ◌∙◌, Bool, true, false, Option, none, some, arith, Bool-cases,
  Option-cases, inl, inr, subst, if◌then◌else◌,
}
use spp_tmp.Manager.{MngData, deref}
use spp_tmp.CmdParser.{CmdAttrs, CmdType}
use spp_tmp.Mirror.{is_waiting}
use spp_tmp.Mirror.Update.{Copies, current}
use spp_tmp.Mirror.Counts.{AllMirrors, update_comp-AllMirrors}
use spp_tmp.Mirror.PortCounts.{update_port-AllMirrors}
use spp_tmp.Mirror.Command.{update_comp, update_port}
use spp_tmp.Mirror.Flush.{
  MirrorState, update_port_info, update_lcore_info, update_comp_info, flush_cmd, backup_mng_info,
  copy_mng_info, exec_one_cmd,
}
use spp_tmp.Mirror.Flushed.{
  AllFlipped, LeavesFlipped, update_comp_info_lem, update_comp_info-LeavesFlipped,
}
use spp_tmp.Mirror.Room.{Reachable, HasRoom}
use spp_tmp.Mirror.Kept.{
  SameComps, same-AllMirrors, update_port_info-SameComps, update_lcore_info-SameComps,
}

-- The components can be flushed, and the sides of all paths are told apart.
abbrev pub IsReady : {S : Type 0} → MirrorState S → Type 0
IsReady m = AllMirrors m.mng × AllFlipped m.info

module _ (max_lcore max_ethports : ℕ) {S : Type 0}
    (add_vhost_pmd add_ring_pmd : ℕ → S → Option ℕ × S) where
  -- After a flush of `s`: what each flagged component's thread reads, and what is left of the flags.
  abbrev pub IsFlushed : MngData → MirrorState S → MirrorState S → Type 0
  IsFlushed s m t =
      ((i : ℕ)
        → i < max_lcore
        → s.change_component i ≡ true
        → (is_waiting (t.info i) ≡ false)
          × (Copies (deref t.mng) (s.component i) (current (t.info i))))
      × ((i : ℕ) → s.change_component i ≡ false → t.info i ≡ m.info i)
      × (t.mng.component ≡ s.component)
      × ((i : ℕ) → t.mng.change_component i ≡ false)
      × (t.backup ≡ copy_mng_info t.mng)

  -- The data after the drivers have created the ports that are missing and the lcores have switched:
  -- what the update of the components reads.
  abbrev pub created : MirrorState S → MngData
  created m =
      update_lcore_info max_lcore max_ethports
        (update_port_info max_lcore max_ethports add_vhost_pmd add_ring_pmd (m.mng, m.pmd)).1

  -- If the drivers create the ports that are missing, if every port of a changed component has then an
  -- ethdev port that the table of ports has, and if the lists of the marked ports have room for all of
  -- them, a flush succeeds: the thread of each changed component reads exactly its ports, the others
  -- read what they read before, the components are the same, no change is left, and the backup is the
  -- new data.
  pub flush_cmd_lem :
      (m : MirrorState S)
      → IsReady m
      → (update_port_info max_lcore max_ethports add_vhost_pmd add_ring_pmd (m.mng, m.pmd)).0 ≡ true
      → ((i : ℕ)
          → i < max_lcore
          → (created m).change_component i ≡ true
          → Reachable (created m) m.caps i)
      → HasRoom (created m) max_lcore 0 m.caps
      → (t : MirrorState S) × (flush_cmd max_lcore max_ethports add_vhost_pmd add_ring_pmd m
          ≡ some (true, t))
        × IsFlushed m.mng m t
        × IsReady t
  unfolding flush_cmd backup_mng_info copy_mng_info deref
  flush_cmd_lem m (all, f) ok reach room =
      let r = update_port_info max_lcore max_ethports add_vhost_pmd add_ring_pmd (m.mng, m.pmd) in
      let s : MngData = update_lcore_info max_lcore max_ethports r.1 in
      let (a, b) =
        update_port_info-SameComps max_lcore max_ethports add_vhost_pmd add_ring_pmd m.mng m.pmd in
      let (c, d) = update_lcore_info-SameComps max_lcore max_ethports r.1 in
      let same : SameComps m.mng s = (c ∙ a, d ∙ b) in
      let all' : AllMirrors s = same-AllMirrors m.mng s same all in
      let (caps, info, e, h, g) =
        update_comp_info_lem max_lcore max_ethports s max_lcore max_lcore 0 m.caps m.info all' f
          (omega arith) reach room in
      let t : MirrorState S = record {
        mng = (backup_mng_info s).1;
        backup = (backup_mng_info s).0;
        caps = caps;
        info = info;
        pmd = r.2;
      } in
      (
        t,
        rw (ok, flush_cmd, e) refl,
        (
          (λ i lt ch.
              let (w, x) = (h i).0 (omega arith, omega arith, ap (λ k. k i) same.1 ∙ ch) in
              (w, subst (λ k. Copies (deref s) (k i) (current (info i))) same.0 x)),
          (λ i ch. (h i).1 (inr (ap (λ k. k i) same.1 ∙ ch))),
          same.0,
          (λ i. refl),
          refl,
        ),
        ((λ i. ((all' i).0, (all' i).1, (λ ne. absurd (ground arith)))), g),
      )

  -- What a command without undefined behaviour leaves.
  abbrev LeavesReady : Option (Bool × MirrorState S) → Type 0
  LeavesReady none = Unit {0}
  LeavesReady (some (b, t)) = IsReady t

  flush_cmd-LeavesReady :
      (m : MirrorState S)
      → IsReady m
      → LeavesReady (flush_cmd max_lcore max_ethports add_vhost_pmd add_ring_pmd m)
  unfolding flush_cmd backup_mng_info
  flush_cmd-LeavesReady m (all, f) =
      let r = update_port_info max_lcore max_ethports add_vhost_pmd add_ring_pmd (m.mng, m.pmd) in
      let s : MngData = update_lcore_info max_lcore max_ethports r.1 in
      let (a, b) =
        update_port_info-SameComps max_lcore max_ethports add_vhost_pmd add_ring_pmd m.mng m.pmd in
      let (c, d) = update_lcore_info-SameComps max_lcore max_ethports r.1 in
      let all' : AllMirrors s = same-AllMirrors m.mng s (c ∙ a, d ∙ b) all in
      let left =
        update_comp_info-LeavesFlipped max_lcore max_ethports s max_lcore 0 m.caps m.info all' f in
      elim (Bool-cases r.0) [
        | inr e ↦ rw e (same-AllMirrors m.mng r.1 (a, b) all, f)
        | inl e ↦
            elim (Option-cases
              (update_comp_info max_lcore max_ethports s max_lcore 0 (m.caps, m.info))) [
                | inl n ↦ rw (e, n) tt
                | inr ((ok, caps, info), n) ↦
                    let g : AllFlipped info = subst (LeavesFlipped max_lcore max_ethports) n left in
                    rw (e, n) ((λ i. ((all' i).0, (all' i).1, (λ ne. absurd (ground arith)))), g)
              ]
      ]

  flushed_if :
      (ok : Bool) (m : MirrorState S)
      → IsReady m
      → LeavesReady (
          if ok
          then flush_cmd max_lcore max_ethports add_vhost_pmd add_ring_pmd m
          else some (false, m))
  flushed_if true m ready = flush_cmd-LeavesReady m ready
  flushed_if false m ready = ready

  exec_one_cmd-LeavesReady :
      (cmd : CmdAttrs) (m : MirrorState S) (c : CmdType)
      → IsReady m
      → cmd.ctype ≡ c
      → LeavesReady (exec_one_cmd max_lcore max_ethports add_vhost_pmd add_ring_pmd cmd m)
  unfolding exec_one_cmd
  exec_one_cmd-LeavesReady cmd m CmdType.worker ready z =
      let (ok, s) =
        update_comp max_lcore cmd.comp.wk_action cmd.comp.name cmd.comp.core cmd.comp.wk_type
          m.mng in
      rw (exec_one_cmd, z)
        (flushed_if ok (record m { mng = s })
          (
            update_comp-AllMirrors max_lcore cmd.comp.wk_action cmd.comp.name cmd.comp.core
                cmd.comp.wk_type m.mng ready.0,
            ready.1,
          ))
  exec_one_cmd-LeavesReady cmd m CmdType.port ready z =
      let p = cmd.port in
      elim (Option-cases
        (update_port max_lcore max_ethports p.wk_action p.port p.dir p.name p.port_attrs m.mng)) [
          | inl n ↦ rw (exec_one_cmd, z, n) tt
          | inr ((ok, s), n) ↦
              rw (exec_one_cmd, z, n)
                (flushed_if ok (record m { mng = s })
                  (
                    update_port-AllMirrors max_lcore max_ethports p.wk_action p.port p.dir p.name
                        p.port_attrs m.mng ready.0 n,
                    ready.1,
                  ))
        ]
  exec_one_cmd-LeavesReady cmd m c ready z = rw (exec_one_cmd, z) ready

  -- Whatever the command and the drivers, if it ends without undefined behaviour, the components can
  -- be flushed afterwards and the sides of all paths are told apart, if that was so before.
  pub exec_one_cmd-IsReady :
      (cmd : CmdAttrs) (m : MirrorState S) {b : Bool} {t : MirrorState S}
      → IsReady m
      → exec_one_cmd max_lcore max_ethports add_vhost_pmd add_ring_pmd cmd m ≡ some (b, t)
      → IsReady t
  exec_one_cmd-IsReady cmd m ready e =
      subst LeavesReady e (exec_one_cmd-LeavesReady cmd m cmd.ctype ready refl)
