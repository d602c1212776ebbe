-- ===== src/Mirror/PortCounts.antt =====
-- src/mirror/mir_cmd_runner.c: the components of spp_mirror after a port command.
use spp_tmp.Base.{
  ℕ, ◌-◌, ◌≡◌, ◌∙◌, Bool, true, false, Option, none, some, if◌then◌else◌, List, leb, arith,
  Bool-cases, Option-cases, inl, inr, subst,
}
use spp_tmp.PortManager.{PortType}
use spp_tmp.WorkerTypes.{PortDir, PortIdx, PortInfo, PortAttrs, CompInfo, is_add_vlan}
use spp_tmp.Manager.{
  MngData, get_sppwk_port, in_arrays, deref, get_idx_port_info, delete_port_info,
  sppwk_get_lcore_id,
}
use spp_tmp.VfCommand.{
  Action, find_attrs, set_attrs, clear_attrs, side_of, put_side, append_port, store_attrs, del_port,
}
use spp_tmp.Mirror.Command.{check_mir_port_count, update_tag, append_new, add_port, update_port}
use spp_tmp.Mirror.Update.{Fits}
use spp_tmp.Mirror.Counts.{AllMirrors, put_port_same, put-Mirrors, change-Mirrors, found}

append-Fits :
    (p : PortIdx) (d : PortDir) (c : CompInfo)
    → check_mir_port_count d c.rx.nof c.tx.nof ≡ true
    → let c' = put_side d (append_port p (side_of d c)) c in Fits c' × (c'.comp_id ≡ c.comp_id)
unfolding check_mir_port_count
append-Fits p d c h = (ground arith, ground arith)

delete-Fits :
    (d : PortDir) (c : CompInfo) (ptr : ℕ → PortIdx)
    → Fits c
    → let c' = put_side d (record { nof = (side_of d c).nof - 1; ptr = ptr }) c in
      Fits c' × (c'.comp_id ≡ c.comp_id)
delete-Fits d c ptr h = (ground arith, ground arith)

module _ (max_lcore max_ethports : ℕ) where
  -- What a command without undefined behaviour leaves.
  abbrev LeavesMirrors : Option (Bool × MngData) → Type 0
  LeavesMirrors none = Unit {0}
  LeavesMirrors (some (b, t)) = AllMirrors t

  update_tag-LeavesMirrors :
      (p : PortIdx) (id : ℕ) (attrs : PortAttrs) (s : MngData)
      → (s.component id).comp_id ≡ id
      → AllMirrors s
      → LeavesMirrors (update_tag max_lcore max_ethports p id attrs s)
  unfolding update_tag
  update_tag-LeavesMirrors p id attrs s n all = elim (Bool-cases (is_add_vlan attrs.ops)) [
    | inr v ↦ rw v all
    | inl v ↦ elim (Bool-cases (in_arrays s p)) [
      | inr z ↦ rw (v, z) tt
      | inl z ↦ elim (Option-cases (find_attrs (λ a. is_add_vlan a.ops) (deref s p).port_attrs)) [
        | inl f ↦ rw (v, z, f) all
        | inr (j, f) ↦
            let (e, d) = put_port_same p (set_attrs j attrs (deref s p)) s in
            rw (v, z, f, e, d) (change-Mirrors s.component s.change_component id n all)
      ]
    ]
  ]

  append_new-LeavesMirrors :
      (t : PortType) (p : PortIdx) (d : PortDir) (id : ℕ) (attrs : PortAttrs) (s : MngData)
      → check_mir_port_count d (s.component id).rx.nof (s.component id).tx.nof ≡ true
      → (s.component id).comp_id ≡ id
      → AllMirrors s
      → LeavesMirrors (append_new max_lcore max_ethports t p d id attrs s)
  unfolding append_new
  append_new-LeavesMirrors t p d id attrs s h n all =
      let c = s.component id in
      elim (Bool-cases (leb max_ethports (side_of d c).nof)) [
        | inl q ↦ rw q all
        | inr q ↦ elim (Bool-cases (in_arrays s p)) [
          | inr z ↦ rw (q, z) tt
          | inl z ↦ elim (Option-cases (store_attrs max_lcore max_ethports attrs (deref s p))) [
            | inl f ↦ rw (q, z, f) all
            | inr (info, f) ↦
                let (e, g) = put_port_same p (record info { iface_type = t }) s in
                let (fit, m) = append-Fits p d c h in
                rw (q, z, f, e, g)
                  (put-Mirrors s.component s.change_component id
                    (put_side d (append_port p (side_of d c)) c) true
                    (fit, (λ _. m ∙ n), (λ _. m ∙ n)) all)
          ]
        ]
      ]

  add_port-LeavesMirrors :
      (t : PortType) (p : PortIdx) (d : PortDir) (id : ℕ) (attrs : PortAttrs) (s : MngData)
      → (s.component id).comp_id ≡ id
      → AllMirrors s
      → LeavesMirrors (add_port max_lcore max_ethports t p d id attrs s)
  unfolding add_port
  add_port-LeavesMirrors t p d id attrs s n all =
      let c = s.component id in
      elim (Bool-cases (check_mir_port_count d c.rx.nof c.tx.nof)) [
        | inr e ↦ rw e all
        | inl e ↦ elim (Option-cases (get_idx_port_info p (side_of d c))) [
          | inr (k, i) ↦ rw (e, i) (update_tag-LeavesMirrors p id attrs s n all)
          | inl i ↦ rw (e, i) (append_new-LeavesMirrors t p d id attrs s e n all)
        ]
      ]

  del_port-AllMirrors :
      (p : PortIdx) (d : PortDir) (id : ℕ) (s : MngData)
      → (s.component id).comp_id ≡ id
      → AllMirrors s
      → AllMirrors (del_port max_lcore max_ethports p d id s)
  unfolding del_port
  del_port-AllMirrors p d id s n all =
      let c = s.component id in
      let (e, g) = put_port_same p (cleared p d s) s in
      elim (Option-cases (delete_port_info p (side_of d c))) [
        | inl f ↦ rw (f, e, g) (change-Mirrors s.component s.change_component id n all)
        | inr (ptr, f) ↦
            let (fit, m) = delete-Fits d c ptr (all id).0 in
            rw (f, e, g)
              (put-Mirrors s.component s.change_component id
                (put_side d (record { nof = (side_of d c).nof - 1; ptr = ptr }) c) true
                (fit, (λ _. m ∙ n), (λ _. m ∙ n)) all)
      ]
    where
      cleared : PortIdx → PortDir → MngData → PortInfo
      cleared p d s = record (deref s p) { port_attrs = clear_attrs d (deref s p).port_attrs }

  pub update_port-AllMirrors :
      (act : Action) (port : PortIdx) (d : PortDir) (name : List ℕ) (attrs : PortAttrs)
      (s : MngData) {b : Bool} {t : MngData}
      → AllMirrors s
      → update_port max_lcore max_ethports act port d name attrs s ≡ some (b, t)
      → AllMirrors t
  unfolding update_port
  update_port-AllMirrors act port d name attrs s {b} {t} all e =
      elim (Option-cases (sppwk_get_lcore_id max_lcore name s)) [
        | inl n ↦ let es : s ≡ t = ground arith in subst AllMirrors es all
        | inr (id, n) ↦
            elim (Option-cases (get_sppwk_port port.iface_type port.iface_no port.queue_no)) [
              | inl g ↦ absurd (ground arith)
              | inr (p, g) ↦
                  by_action act id p (found max_lcore name s id n all) (rw (update_port, n, g) at e)
            ]
      ]
    where
      by_action :
          (act : Action) (id : ℕ) (p : PortIdx)
          → (s.component id).comp_id ≡ id
          → (elim act as (λ _. Option (Bool × MngData)) [
            | Action.add ↦ add_port max_lcore max_ethports port.iface_type p d id attrs s
            | Action.del ↦
                if in_arrays s p
                then some (true, del_port max_lcore max_ethports p d id s)
                else none
            | _ ↦ some (false, s)
          ])
            ≡ some (b, t)
          → AllMirrors t
      by_action Action.add id p n e =
          subst LeavesMirrors e (add_port-LeavesMirrors port.iface_type p d id attrs s n all)
      by_action Action.del id p n e =
          let es : del_port max_lcore max_ethports p d id s ≡ t = ground arith in
          subst AllMirrors es (del_port-AllMirrors p d id s n all)
      by_action act id p n e = let es : s ≡ t = ground arith in subst AllMirrors es all
