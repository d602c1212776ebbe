-- ===== src/VfCommand.antt =====
-- src/vf/vf_cmd_runner.c: the command that adds ports to the components of spp_vf and deletes them.
pub mod Ports
pub mod Accepted
use spp_tmp.Base.{
  ℕ, zero, suc, ◌+◌, ◌-◌, Bool, true, false, ◌&&◌, ◌||◌, not, Option, none, some, List, [], ◌∷◌,
  ◌==◌, if◌then◌else◌, ltb, leb, update, set,
}
use spp_tmp.PortManager.{PortType, type_no}
use spp_tmp.WorkerTypes.{
  LcoreStatus, PortDir, dir_no, PortIdx, PortInfo, PortArray, PortOps, PortAttrs, is_no_ops,
  is_add_vlan, CompInfo, WorkerType, is_cls, zero_attrs, zero_comp, zero_tag, ClsAttrs,
  eth_vlan_id_max,
}
use spp_tmp.Manager.{
  MngData, CoreInfo, CoreMngInfo, get_sppwk_port, in_arrays, deref, put_port, get_idx_port_info,
  delete_port_info, del_comp_info, get_free_lcore_id, sppwk_get_lcore_id, set_component_change_port,
  is_rx,
}

pub data Action : Type 0 where
  none_act start stop add del : Action

-- `SPPWK_RET_OK` is `true`.
unfoldable pub check_vf_port_count : WorkerType → PortDir → ℕ → ℕ → Bool
check_vf_port_count wk_type dir nof_rx nof_tx =
    let rx = if is_rx dir then nof_rx + 1 else nof_rx in
    let tx = if is_rx dir then nof_tx else nof_tx + 1 in
    elim wk_type [
      | WorkerType.forwarder ↦ not (ltb 1 rx || ltb 1 tx)
      | WorkerType.mrg ↦ not (ltb 1 tx)
      | WorkerType.cls ↦ not (ltb 1 rx)
      | _ ↦ false
    ]

-- `while` over `port_attrs`: the first entry that meets `p`.
abbrev pub find_attrs : (PortAttrs → Bool) → List PortAttrs → Option ℕ
find_attrs p [] = none
find_attrs p (a ∷ l) =
    if p a then some 0 else (elim (find_attrs p l) [ none ↦ none | some k ↦ some (k + 1) ])

abbrev pub set_attrs : ℕ → PortAttrs → PortInfo → PortInfo
set_attrs k a port = record port { port_attrs = set port.port_attrs k a }

-- The loop of the deletion: the operations of the direction are cleared.
abbrev pub clear_attrs : PortDir → List PortAttrs → List PortAttrs
clear_attrs d [] = []
clear_attrs d (a ∷ l) =
    (if is_no_ops a.ops then a else if dir_no a.dir == dir_no d then zero_attrs else a)
    ∷ clear_attrs d l

-- `ports` with `nof_ports`: every direction but RX is TX.
abbrev pub side_of : PortDir → CompInfo → PortArray
side_of d c = if is_rx d then c.rx else c.tx

abbrev pub put_side : PortDir → PortArray → CompInfo → CompInfo
put_side d a c = if is_rx d then record c { rx = a } else record c { tx = a }

abbrev pub append_port : PortIdx → PortArray → PortArray
append_port p a = record { nof = a.nof + 1; ptr = update a.ptr a.nof p }

abbrev pub put_component : ℕ → CompInfo → MngData → MngData
put_component i c s = record s { component = update s.component i c }

abbrev pub change : ℕ → MngData → MngData
change i s = record s { change_component = update s.change_component i true }

module _ (max_lcore max_queues : ℕ) where
  -- The entry with room for an operation; without an operation none is needed.
  unfoldable pub store_attrs : PortAttrs → PortInfo → Option PortInfo
  store_attrs attrs info =
      if is_no_ops attrs.ops
      then some info
      else elim (find_attrs (λ a. is_no_ops a.ops) info.port_attrs) [
        | none ↦ none
        | some k ↦ some (set_attrs k attrs info)
      ]

  -- SPPWK_ACT_ADD. `t` is the type in the command. `none` is an access to a port outside the arrays: the
  -- tests before only compare pointers and counts.
  unfoldable pub add_port :
      PortType → PortIdx → PortDir → ℕ → PortAttrs → MngData → Option (Bool × MngData)
  add_port t p dir id attrs s =
      let c = s.component id in
      let ports = side_of dir c in
      if not (check_vf_port_count c.wk_type dir c.rx.nof c.tx.nof)
      then some (false, s)
      else elim (get_idx_port_info p ports) [
        | some k ↦
            if not (is_add_vlan attrs.ops)
            then some (true, s)
            else if not (in_arrays s p)
            then none
            else (elim (find_attrs (λ a. is_add_vlan a.ops) (deref s p).port_attrs) [
              | none ↦ some (false, s)
              | some j ↦ some (true, change id (put_port p (set_attrs j attrs (deref s p)) s))
            ])
        | none ↦
            if leb max_queues ports.nof
            then some (false, s)
            else if not (in_arrays s p)
            then none
            else (elim (store_attrs attrs (deref s p)) [
              | none ↦ some (false, s)
              | some info ↦ some (
                true,
                change id (
                    put_component id (put_side dir (append_port p ports) c)
                      (put_port p (record info { iface_type = t }) s)),
              )
            ])
      ]

  -- SPPWK_ACT_DEL
  unfoldable pub del_port : PortIdx → PortDir → ℕ → MngData → MngData
  del_port p dir id s =
      let c = s.component id in
      let ports = side_of dir c in
      let info = deref s p in
      let t = put_port p (record info { port_attrs = clear_attrs dir info.port_attrs }) s in
      change id (elim (delete_port_info p ports) [
        | none ↦ t
        | some ptr ↦ put_component id (put_side dir (record { nof = ports.nof - 1; ptr = ptr }) c) t
      ])

  -- `none` is an access through NULL, for a port of a type without an array, or outside the arrays.
  -- The parser of the commands excludes the first.
  unfoldable pub update_port :
      Action → PortIdx → PortDir → List ℕ → PortAttrs → MngData → Option (Bool × MngData)
  update_port act port dir name attrs s = elim (sppwk_get_lcore_id max_lcore name s) [
    | none ↦ some (false, s)
    | some id ↦ elim (get_sppwk_port port.iface_type port.iface_no port.queue_no) [
      | none ↦ none
      | some p ↦ elim act [
        | Action.add ↦ add_port port.iface_type p dir id attrs s
        | Action.del ↦ if in_arrays s p then some (true, del_port p dir id s) else none
        | _ ↦ some (false, s)
      ]
    ]
  ]
