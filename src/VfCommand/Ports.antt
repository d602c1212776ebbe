-- ===== src/VfCommand/Ports.antt =====
-- `update_port` of src/vf/vf_cmd_runner.c: the ports of the components after a command.
use spp_tmp.Base.{
  ℕ, ◌+◌, ◌-◌, ◌≡◌, sym, ap, ◌∙◌, Bool, true, false, ◌&&◌, Option, none, some, List, leb, update,
  update_self, update_ne, arith, Bool-cases, if◌then◌else◌, Option-cases, inl, inr, subst,
  ℕ_discrete,
}
use spp_tmp.PortManager.{PortType}
use spp_tmp.WorkerTypes.{
  PortDir, PortIdx, PortInfo, PortArray, PortAttrs, CompInfo, WorkerType, is_add_vlan,
}
use spp_tmp.Manager.{
  MngData, get_sppwk_port, in_arrays, deref, put_port, get_idx_port_info, delete_port_info,
  sppwk_get_lcore_id, is_rx,
}
use spp_tmp.Manager.Arrays.{
  IsDistinct, IsIndexOf, get_idx_port_info-IsIndexOf, delete_port_info_lem,
}
use spp_tmp.VfCommand.{
  Action, check_vf_port_count, find_attrs, side_of, put_side, append_port, put_component, change,
  store_attrs, add_port, del_port, update_port,
}

-- The number of ports is one that the type of the component allows.
abbrev pub fits : CompInfo → Bool
fits c = elim c.wk_type [
  | WorkerType.forwarder ↦ leb c.rx.nof 1 && leb c.tx.nof 1
  | WorkerType.mrg ↦ leb c.tx.nof 1
  | WorkerType.cls ↦ leb c.rx.nof 1
  | _ ↦ true
]

-- It does, and no port stands twice in a direction.
abbrev pub IsSound : CompInfo → Type 0
IsSound c = (fits c ≡ true) × (IsDistinct c.rx.nof c.rx.ptr) × (IsDistinct c.tx.nof c.tx.ptr)

abbrev pub AllSound : MngData → Type 0
AllSound s = (i : ℕ) → IsSound (s.component i)

put_port_component :
    (p : PortIdx) (v : PortInfo) (s : MngData) → (put_port p v s).component ≡ s.component
unfolding put_port
put_port_component p v s = ground arith

append-IsDistinct :
    (p : PortIdx) (a : PortArray)
    → get_idx_port_info p a ≡ none
    → IsDistinct a.nof a.ptr
    → IsDistinct (a.nof + 1) (update a.ptr a.nof p)
append-IsDistinct p a e distinct i j hi hj q =
    let absent = subst (IsIndexOf p a.ptr a.nof) e (get_idx_port_info-IsIndexOf p a) in
    ground (arith, absent i, absent j, distinct i j)

-- A count that passes the check is allowed after the port is added.
append-fits :
    (p : PortIdx) (d : PortDir) (c : CompInfo)
    → check_vf_port_count c.wk_type d c.rx.nof c.tx.nof ≡ true
    → fits (put_side d (append_port p (side_of d c)) c) ≡ true
unfolding check_vf_port_count
append-fits p d c h = ground arith

append-IsSound :
    (p : PortIdx) (d : PortDir) (c : CompInfo)
    → check_vf_port_count c.wk_type d c.rx.nof c.tx.nof ≡ true
    → get_idx_port_info p (side_of d c) ≡ none
    → IsSound c
    → IsSound (put_side d (append_port p (side_of d c)) c)
append-IsSound p d c h e (f, r, t) = elim (Bool-cases (is_rx d)) [
  | inl x ↦ let m = append-IsDistinct p c.rx (rw x at e) r in (append-fits p d c h, rw x m, rw x t)
  | inr x ↦ let m = append-IsDistinct p c.tx (rw x at e) t in (append-fits p d c h, rw x r, rw x m)
]

delete-IsSound :
    (p : PortIdx) (d : PortDir) (c : CompInfo) (ptr : ℕ → PortIdx)
    → delete_port_info p (side_of d c) ≡ some ptr
    → IsSound c
    → IsSound (put_side d (record { nof = (side_of d c).nof - 1; ptr = ptr }) c)
delete-IsSound p d c ptr e (f, r, t) = elim (Bool-cases (is_rx d)) [
  | inl x ↦
      let (_, _, _, _, _, _, m) = delete_port_info_lem p c.rx r (rw x at e) in
      (ground arith, rw x m, rw x t)
  | inr x ↦
      let (_, _, _, _, _, _, m) = delete_port_info_lem p c.tx t (rw x at e) in
      (ground arith, rw x r, rw x m)
]

put-AllSound :
    (s t : MngData) (id : ℕ) (c : CompInfo)
    → t.component ≡ s.component
    → AllSound s
    → IsSound c
    → AllSound (change id (put_component id c t))
put-AllSound s t id c e all sound i = elim (ℕ_discrete i id) [
  | yes z ↦
      subst (λ k. IsSound (update t.component id c k)) (sym z)
        (subst IsSound (sym (update_self t.component id c)) sound)
  | no ne ↦ subst IsSound (sym (update_ne t.component id i c ne ∙ ap (λ g. g i) e)) (all i)
]

same-AllSound : (s t : MngData) → t.component ≡ s.component → AllSound s → AllSound t
same-AllSound s t e all i = subst IsSound (sym (ap (λ g. g i) e)) (all i)

module _ (max_lcore max_queues : ℕ) where
  -- What a command without undefined behaviour leaves.
  abbrev LeavesSound : Option (Bool × MngData) → Type 0
  LeavesSound none = Unit {0}
  LeavesSound (some (b, t)) = AllSound t

  add_port-LeavesSound :
      (t : PortType) (p : PortIdx) (d : PortDir) (id : ℕ) (attrs : PortAttrs) (s : MngData)
      → AllSound s
      → LeavesSound (add_port max_lcore max_queues t p d id attrs s)
  unfolding add_port
  add_port-LeavesSound t p d id attrs s all = elim (Bool-cases ok) [
    | inr e ↦ rw e all
    | inl e ↦ elim (Bool-cases (in_arrays s p)) [
      | inr z ↦ elim (Option-cases (get_idx_port_info p (side_of d c))) [
        | inr (k, i) ↦ elim (Bool-cases (is_add_vlan attrs.ops)) [
          | inr v ↦ rw (e, i, v) all
          | inl v ↦ rw (e, i, v, z) tt
        ]
        | inl i ↦ elim (Bool-cases (leb max_queues (side_of d c).nof)) [
          | inl q ↦ rw (e, i, q) all
          | inr q ↦ rw (e, i, q, z) tt
        ]
      ]
      | inl z ↦ elim (Option-cases (get_idx_port_info p (side_of d c))) [
        | inr (k, i) ↦ elim (Bool-cases (is_add_vlan attrs.ops)) [
          | inr v ↦ rw (e, i, v) all
          | inl v ↦
              elim (Option-cases (find_attrs (λ a. is_add_vlan a.ops) (deref s p).port_attrs)) [
                | inl f ↦ rw (e, i, v, z, f) all
                | inr (j, f) ↦
                    rw (e, i, v, z, f)
                      (same-AllSound s (put_port p _ s) (put_port_component p _ s) all)
              ]
        ]
        | inl i ↦ elim (Bool-cases (leb max_queues (side_of d c).nof)) [
          | inl q ↦ rw (e, i, q) all
          | inr q ↦ elim (Option-cases (store_attrs max_lcore max_queues attrs (deref s p))) [
            | inl f ↦ rw (e, i, q, z, f) all
            | inr (info, f) ↦
                rw (e, i, q, z, f)
                  (put-AllSound s (put_port p (record info { iface_type = t }) s) id _
                    (put_port_component p (record info { iface_type = t }) s) all
                    (append-IsSound p d c e i (all id)))
          ]
        ]
      ]
    ]
  ]
    where
      c : CompInfo
      c = s.component id

      ok : Bool
      ok = check_vf_port_count c.wk_type d c.rx.nof c.tx.nof

  del_port-AllSound :
      (p : PortIdx) (d : PortDir) (id : ℕ) (s : MngData)
      → AllSound s
      → AllSound (del_port max_lcore max_queues p d id s)
  unfolding del_port
  del_port-AllSound p d id s all =
      elim (Option-cases (delete_port_info p (side_of d (s.component id)))) [
        | inl e ↦ rw e (same-AllSound s (put_port p _ s) (put_port_component p _ s) all)
        | inr (ptr, e) ↦ rw e (
            put-AllSound s (put_port p _ s) id _ (put_port_component p _ s) all
              (delete-IsSound p d (s.component id) ptr e (all id)))
      ]

  -- Whatever the command, after `update_port` each component has only as many ports as its type
  -- allows, and no port twice in a direction, if that was so before.
  pub update_port-AllSound :
      (act : Action) (port : PortIdx) (d : PortDir) (name : List ℕ) (attrs : PortAttrs)
      (s : MngData) {b : Bool} {t : MngData}
      → AllSound s
      → update_port max_lcore max_queues act port d name attrs s ≡ some (b, t)
      → AllSound t
  unfolding update_port
  update_port-AllSound act port d name attrs s {b} {t} all e =
      elim (Option-cases (sppwk_get_lcore_id max_lcore name s)) [
        | inl n ↦ let es : s ≡ t = ground arith in subst AllSound es all
        | inr (id, n) ↦
            elim (Option-cases (get_sppwk_port port.iface_type port.iface_no port.queue_no)) [
              | inl g ↦ absurd (ground arith)
              | inr (p, g) ↦ by_action act id p (rw (n, update_port, g) at e)
            ]
      ]
    where
      by_action :
          (act : Action) (id : ℕ) (p : PortIdx)
          → (elim act as (λ _. Option (Bool × MngData)) [
            | Action.add ↦ add_port max_lcore max_queues port.iface_type p d id attrs s
            | Action.del ↦
                if in_arrays s p then some (true, del_port max_lcore max_queues p d id s) else none
            | _ ↦ some (false, s)
          ])
            ≡ some (b, t)
          → AllSound t
      by_action Action.add id p e =
          subst LeavesSound e (add_port-LeavesSound port.iface_type p d id attrs s all)
      by_action Action.del id p e =
          let es : del_port max_lcore max_queues p d id s ≡ t = ground arith in
          subst AllSound es (del_port-AllSound p d id s all)
      by_action act id p e = let es : s ≡ t = ground arith in subst AllSound es all
