-- ===== src/Mirror/Counts.antt =====
-- src/mirror/mir_cmd_runner.c: the components of spp_mirror after its commands.
use spp_tmp.Base.{
  ℕ, ◌≡◌, ◌≢◌, refl, Bool, true, false, some, List, [], ◌∷◌, update, update_self, update_ne, arith,
  Bool-cases, Option-cases, inl, inr, subst, ℕ_discrete, list_eq,
}
use spp_tmp.WorkerTypes.{PortIdx, PortInfo, CompInfo, WorkerType, zero_comp}
use spp_tmp.Manager.{MngData, put_port, sppwk_get_lcore_id, get_free_lcore_id}
use spp_tmp.VfCommand.{Action}
use spp_tmp.VfComponent.{start_comp, stop_comp, is_unused}
use spp_tmp.VfComponent.Names.{IsFirst, first_index-IsFirst}
use spp_tmp.Mirror.Command.{unchanged, update_comp}
use spp_tmp.ManagerInit.{init_mng_data, init_component_infos, init_core_info, init_iface_info}
use spp_tmp.ManagerInit.Sound.{init_component_infos-IsBlank}
use spp_tmp.Mirror.Update.{Fits}

-- A component that `update_mirror` accepts, at its own index unless it has no name; so has a
-- component that waits for a flush.
abbrev pub IsMirror : ℕ → CompInfo → Bool → Type 0
IsMirror i c changed = Fits c × (c.name ≢ [] → c.comp_id ≡ i) × (changed ≡ true → c.comp_id ≡ i)

abbrev pub Mirrors : (ℕ → CompInfo) → (ℕ → Bool) → Type 0
Mirrors comp changed = (i : ℕ) → IsMirror i (comp i) (changed i)

abbrev pub AllMirrors : MngData → Type 0
AllMirrors s = Mirrors s.component s.change_component

pub put_port_same :
    (p : PortIdx) (v : PortInfo) (s : MngData)
    → ((put_port p v s).component ≡ s.component)
      × ((put_port p v s).change_component ≡ s.change_component)
unfolding put_port
put_port_same p v s = ground arith

-- One component and its flag are written.
pub put-Mirrors :
    (comp : ℕ → CompInfo) (changed : ℕ → Bool) (id : ℕ) (c : CompInfo) (b : Bool)
    → IsMirror id c b
    → Mirrors comp changed
    → Mirrors (update comp id c) (update changed id b)
put-Mirrors comp changed id c b one all i = elim (ℕ_discrete i id) [
  | yes z ↦ rw (z, update_self comp id c, update_self changed id b) one
  | no ne ↦ rw (update_ne comp id i c ne, update_ne changed id i b ne) (all i)
]

-- A component that was found is flagged.
pub change-Mirrors :
    (comp : ℕ → CompInfo) (changed : ℕ → Bool) (id : ℕ)
    → (comp id).comp_id ≡ id
    → Mirrors comp changed
    → Mirrors comp (update changed id true)
change-Mirrors comp changed id n all i = elim (ℕ_discrete i id) [
  | yes z ↦ rw (z, update_self changed id true) ((all id).0, (λ _. n), (λ _. n))
  | no ne ↦ rw (update_ne changed id i true ne) (all i)
]

matched : (xs ys : List ℕ) → xs ≢ [] → list_eq xs ys ≡ true → ys ≢ []
matched [] ys ne e = absurd (ne refl)
matched (x ∷ xs) [] ne e = absurd (ground arith)
matched (x ∷ xs) (y ∷ ys) ne e = λ z. ground arith

module _ (max_lcore : ℕ) where
  -- A component that is found by its name stands at its own index.
  pub found :
      (name : List ℕ) (s : MngData) (id : ℕ)
      → sppwk_get_lcore_id max_lcore name s ≡ some id
      → AllMirrors s
      → (s.component id).comp_id ≡ id
  unfolding sppwk_get_lcore_id
  found [] s id e all = absurd (ground arith)
  found (c ∷ cs) s id e all =
      let (_, _, m) =
        subst (IsFirst (λ cnt. list_eq (c ∷ cs) (s.component cnt).name) max_lcore 0) e
          (first_index-IsFirst (λ cnt. list_eq (c ∷ cs) (s.component cnt).name) max_lcore 0) in
      (all id).1 (matched (c ∷ cs) (s.component id).name (λ z. ground arith) m)

  start-AllMirrors :
      (name : List ℕ) (lcore : ℕ) (worker : WorkerType) (s : MngData)
      → AllMirrors s
      → AllMirrors (start_comp max_lcore name lcore worker s).1
  unfolding start_comp
  start-AllMirrors name lcore worker s all =
      elim (Bool-cases (is_unused max_lcore (s.core lcore).status)) [
        | inl u ↦ rw u all
        | inr u ↦ elim (Option-cases (sppwk_get_lcore_id max_lcore name s)) [
          | inr (i, f) ↦ rw (u, f) all
          | inl f ↦ elim (Option-cases (get_free_lcore_id max_lcore s)) [
            | inl g ↦ rw (u, f, g) all
            | inr (id, g) ↦
                rw (u, f, g)
                  (put-Mirrors s.component s.change_component id _ true
                    ((omega arith, omega arith), (λ _. refl), (λ _. refl)) all)
          ]
        ]
      ]

  stop-AllMirrors :
      {S : Type 0} (init : ℕ → S → S) (name : List ℕ) (s : MngData) (cls : S)
      → AllMirrors s
      → AllMirrors (stop_comp max_lcore init name (s, cls)).0
  unfolding stop_comp
  stop-AllMirrors init name s cls all = elim (Option-cases (sppwk_get_lcore_id max_lcore name s)) [
    | inl f ↦ rw (stop_comp, f) all
    | inr (id, f) ↦
        rw (stop_comp, f)
          (put-Mirrors s.component s.change_component id zero_comp false
            ((omega arith, omega arith), (λ ne. absurd (ne refl)), (λ e. absurd (ground arith)))
            all)
  ]

  pub update_comp-AllMirrors :
      (act : Action) (name : List ℕ) (lcore : ℕ) (worker : WorkerType) (s : MngData)
      → AllMirrors s
      → AllMirrors (update_comp max_lcore act name lcore worker s).1
  unfolding update_comp
  update_comp-AllMirrors Action.start name lcore worker s all =
      start-AllMirrors name lcore worker s all
  update_comp-AllMirrors Action.stop name lcore worker s all =
      stop-AllMirrors unchanged name s tt all
  update_comp-AllMirrors act name lcore worker s all = all

-- So it is after the initialisation.
pub init-AllMirrors :
    (max_ethports max_queues max_lcore : ℕ) (slaves : List ℕ) (s : MngData)
    → AllMirrors (init_mng_data max_ethports max_queues max_lcore slaves s)
unfolding init_mng_data init_component_infos
init-AllMirrors max_ethports max_queues max_lcore slaves s i =
    let (name, _, rx, tx) =
      (init_component_infos-IsBlank max_lcore
          (init_core_info max_lcore slaves (init_iface_info max_ethports max_queues s))).0
        i in
    ((ground arith, ground arith), (λ ne. absurd (ne name)), (λ e. absurd (ground arith)))
