-- ===== src/Mirror/Flush.antt =====
-- src/mirror/mir_cmd_runner.c: `exec_one_cmd` and `update_comp_info`, with the flush of
-- src/shared/secondary/spp_worker_th: `flush_cmd` of cmd_runner.c, `update_port_info`,
-- `update_lcore_info` and `backup_mng_info` of cmd_utils.c, as spp_mirror runs them.
-- A wait for a thread ends when that thread has made its next round.
use spp_tmp.Base.{
  ℕ, zero, suc, ◌+◌, Bool, true, false, ◌&&◌, not, Option, none, some, ◌==◌, if◌then◌else◌, update,
}
use spp_tmp.PortManager.{PortType, type_no}
use spp_tmp.WorkerTypes.{PortInfo, CompInfo}
use spp_tmp.Capability.{CapState}
use spp_tmp.Manager.{MngData, CoreMngInfo, deref, is_some}
use spp_tmp.Lcore.{mark_cores, copy_cores, switch_core}
use spp_tmp.Flush.{sppwk_update_port_dir}
use spp_tmp.CmdParser.{CmdAttrs, CmdType}
use spp_tmp.Mirror.{MirrorInfo, update_mirror, change_mirror_index}
use spp_tmp.Mirror.Command.{update_comp, update_port}

-- `struct cancel_backup_info`
pub record Backup : Type 0 where
  pub core : ℕ → CoreMngInfo
  pub component : ℕ → CompInfo
  pub phy : ℕ → ℕ → PortInfo
  pub vhost : ℕ → PortInfo
  pub ring : ℕ → PortInfo

-- The copy of everything (COPY_MNG_FLG_ALLCOPY).
unfoldable pub copy_mng_info : MngData → Backup
copy_mng_info s = record {
  core = s.core;
  component = s.component;
  phy = s.phy;
  vhost = s.vhost;
  ring = s.ring;
}

unfoldable pub backup_mng_info : MngData → Backup × MngData
backup_mng_info s =
    (copy_mng_info s, record s { change_core = λ _. false; change_component = λ _. false })

-- A port that a command has named and that has no ethdev port.
abbrev pub is_added : PortInfo → Bool
is_added port =
    not (type_no port.iface_type == type_no PortType.undef) && not (is_some port.ethdev_port_id)

abbrev pub put_vhost : ℕ → PortInfo → MngData → MngData
put_vhost cnt port s = record s { vhost = update s.vhost cnt port }

abbrev pub put_ring : ℕ → PortInfo → MngData → MngData
put_ring cnt port s = record s { ring = update s.ring cnt port }

module _ {S : Type 0} where
  -- One loop of `update_port_info`: `n` entries are left, the next is `cnt`. `add` is
  -- `add_vhost_pmd` or `add_ring_pmd`, -1 is `none`.
  unfoldable pub add_ports :
      (ℕ → S → Option ℕ × S)
      → (MngData → ℕ → PortInfo)
      → (ℕ → PortInfo → MngData → MngData)
      → ℕ
      → ℕ
      → MngData × S
      → Bool × MngData × S
  add_ports add load store zero cnt (s, d) = (true, s, d)
  add_ports add load store (suc n) cnt (s, d) =
      let port = load s cnt in
      let rest = λ (r : MngData × S). add_ports add load store n (cnt + 1) r in
      if is_added port
      then (let (ret, e) = add port.iface_no d in
          elim ret [
            | none ↦ (false, s, e)
            | some p ↦ rest (store cnt (record port { ethdev_port_id = some p }) s, e)
          ])
      else rest (s, d)

-- What `g_mng_data`, the data of the threads and the drivers hold.
pub record MirrorState (S : Type 0) : Type 0 where
  pub mng : MngData
  pub backup : Backup
  pub caps : CapState
  pub info : ℕ → MirrorInfo
  pub pmd : S

-- RTE_MAX_LCORE and RTE_MAX_ETHPORTS
module _ (max_lcore max_ethports : ℕ) where
  module _ {S : Type 0} (add_vhost_pmd add_ring_pmd : ℕ → S → Option ℕ × S) where
    unfoldable pub update_port_info : MngData × S → Bool × MngData × S
    update_port_info sd =
        let (ok, s, d) =
          add_ports add_vhost_pmd (λ (s : MngData). s.vhost) put_vhost max_ethports 0 sd in
        if ok
        then add_ports add_ring_pmd (λ (s : MngData). s.ring) put_ring max_ethports 0 (s, d)
        else (false, s, d)

  -- The threads of all lcores make a round between the two loops.
  unfoldable pub update_lcore_info : MngData → MngData
  update_lcore_info s =
      let t = mark_cores max_lcore s in
      copy_cores max_lcore (record t { core = λ k. switch_core (t.core k) })

  -- `n` components are left, the next is `cnt`. `none` is undefined behaviour.
  unfoldable pub update_comp_info :
      MngData → ℕ → ℕ → CapState × (ℕ → MirrorInfo) → Option (Bool × CapState × (ℕ → MirrorInfo))
  update_comp_info s zero cnt (caps, info) = some (true, caps, info)
  update_comp_info s (suc n) cnt (caps, info) =
      let comp = s.component cnt in
      let rest = λ (r : CapState × (ℕ → MirrorInfo)). update_comp_info s n (cnt + 1) r in
      if s.change_component cnt
      then (elim (sppwk_update_port_dir (deref s) comp caps) [
        | none ↦ none
        | some caps' ↦ elim (update_mirror (deref s) comp (info comp.comp_id)) [
          | none ↦ some (false, caps', info)
          | some t ↦
              let (u, caps'') = change_mirror_index (t, caps') in
              rest (caps'', update info comp.comp_id u)
        ]
      ])
      else rest (caps, info)

  module _ {S : Type 0} (add_vhost_pmd add_ring_pmd : ℕ → S → Option ℕ × S) where
    unfoldable pub flush_cmd : MirrorState S → Option (Bool × MirrorState S)
    flush_cmd m =
        let (ok, s, d) = update_port_info add_vhost_pmd add_ring_pmd (m.mng, m.pmd) in
        if not ok
        then some (false, record m { mng = s; pmd = d })
        else (let t = update_lcore_info s in
            elim (update_comp_info t max_lcore 0 (m.caps, m.info)) [
              | none ↦ none
              | some (ret, caps, info) ↦
                  let (b, u) = backup_mng_info t in
                  some (ret, record { mng = u; backup = b; caps = caps; info = info; pmd = d })
            ])

    unfoldable pub exec_one_cmd : CmdAttrs → MirrorState S → Option (Bool × MirrorState S)
    exec_one_cmd cmd m = elim cmd.ctype [
      | CmdType.worker ↦
          let (ok, s) =
            update_comp max_lcore cmd.comp.wk_action cmd.comp.name cmd.comp.core cmd.comp.wk_type
              m.mng in
          if ok then flush_cmd (record m { mng = s }) else some (false, record m { mng = s })
      | CmdType.port ↦
          elim (update_port max_lcore max_ethports cmd.port.wk_action cmd.port.port cmd.port.dir
            cmd.port.name cmd.port.port_attrs m.mng) [
              | none ↦ none
              | some (ok, s) ↦
                  if ok
                  then flush_cmd (record m { mng = s })
                  else some (false, record m { mng = s })
            ]
      | _ ↦ some (true, m)
    ]
