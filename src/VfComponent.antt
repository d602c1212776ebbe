-- ===== src/VfComponent.antt =====
-- src/vf/vf_cmd_runner.c: the command that starts and stops the components of spp_vf.
-- The state of the classifiers is a parameter: `update_comp` is to call `init_classifier_info` on it.
pub mod Names
use spp_tmp.Base.{
  ℕ, zero, suc, ◌+◌, ◌-◌, Bool, true, false, ◌&&◌, ◌||◌, not, Option, none, some, List, [], ◌∷◌,
  ◌==◌, if◌then◌else◌, ltb, leb, update, set,
}
use spp_tmp.PortManager.{PortType, type_no}
use spp_tmp.WorkerTypes.{
  LcoreStatus, PortDir, dir_no, PortIdx, PortInfo, PortArray, PortOps, PortAttrs, is_no_ops,
  is_add_vlan, CompInfo, WorkerType, is_cls, zero_attrs, zero_comp, zero_tag, ClsAttrs,
  eth_vlan_id_max,
}
use spp_tmp.Manager.{
  MngData, CoreInfo, CoreMngInfo, get_sppwk_port, deref, put_port, get_idx_port_info,
  delete_port_info, del_comp_info, get_free_lcore_id, sppwk_get_lcore_id, set_component_change_port,
  is_rx,
}
use spp_tmp.VfCommand.{Action, put_component}

module _ (max_lcore : ℕ) where
  -- Write the core information of the update side.
  abbrev pub put_core : ℕ → CoreInfo → MngData → MngData
  put_core i v s = record s {
    core =
        update s.core i
          (record (s.core i) { core = update (s.core i).core (s.core i).upd_index v });
  }

  abbrev pub upd_core : ℕ → MngData → CoreInfo
  upd_core i s = (s.core i).core (s.core i).upd_index

  abbrev pub add_comp : ℕ → CoreInfo → CoreInfo
  add_comp id c = record { num = c.num + 1; id = update c.id c.num id }

  abbrev pub set_flags : ℕ → Bool → ℕ → MngData → MngData
  set_flags id b lcore s = record s {
    change_component = update s.change_component id b;
    change_core = update s.change_core lcore true;
  }

  abbrev pub is_unused : LcoreStatus → Bool
  is_unused LcoreStatus.unused = true
  is_unused _ = false

  -- SPPWK_ACT_START
  unfoldable pub start_comp : List ℕ → ℕ → WorkerType → MngData → Bool × MngData
  start_comp name lcore_id wk_type s =
      if is_unused (s.core lcore_id).status
      then (false, s)
      else elim (sppwk_get_lcore_id max_lcore name s) [
        | some i ↦ (false, s)
        | none ↦ elim (get_free_lcore_id max_lcore s) [
          | none ↦ (false, s)
          | some id ↦ (
            true,
            set_flags id true lcore_id (
                put_core lcore_id (add_comp id (upd_core lcore_id s)) (
                  put_component id
                    (record zero_comp {
                      name = name;
                      wk_type = wk_type;
                      lcore_id = lcore_id;
                      comp_id = id;
                    })
                    s)),
          )
        ]
      ]

  module _ {S : Type 0} (init_classifier_info : ℕ → S → S) where
    -- SPPWK_ACT_STOP. The entry is cleared first, and then its type is tested.
    unfoldable pub stop_comp : List ℕ → MngData × S → MngData × S
    stop_comp name (s, cls) = elim (sppwk_get_lcore_id max_lcore name s) [
      | none ↦ (s, cls)
      | some id ↦
          let lcore = (s.component id).lcore_id in
          let t = put_component id zero_comp s in
          let cls' = if is_cls (t.component id).wk_type then init_classifier_info id cls else cls in
          let c = upd_core lcore t in
          (
            set_flags id false lcore
                (put_core lcore (record { num = c.num - 1; id = del_comp_info id c.num c.id }) t),
            cls',
          )
    ]

    pub update_comp : Action → List ℕ → ℕ → WorkerType → MngData × S → Bool × MngData × S
    update_comp act name lcore_id wk_type (s, cls) = elim act [
      | Action.start ↦ let (b, t) = start_comp name lcore_id wk_type s in (b, t, cls)
      | Action.stop ↦ let (t, cls') = stop_comp name (s, cls) in (true, t, cls')
      | _ ↦ (false, record s { change_core = update s.change_core 0 true }, cls)
    ]
