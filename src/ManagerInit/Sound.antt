-- ===== src/ManagerInit/Sound.antt =====
-- The invariants of the main thread's data hold at the start of spp_vf (cmd_utils.c).
use spp_tmp.Base.{ℕ, ◌<◌, ◌≡◌, refl, ap, List, [], arith, for_from_inv, subst, sym}
use spp_tmp.WorkerTypes.{CompInfo, zero_comp}
use spp_tmp.Manager.{MngData}
use spp_tmp.ManagerInit.{
  init_iface_info, init_component_infos, init_core_info, init_mng_data, number_component, side_core,
}
use spp_tmp.Lcore.Publish.{IsFlipped}
use spp_tmp.VfCommand.Ports.{IsSound, AllSound}
use spp_tmp.VfComponent.Names.{IsNamed}

-- A component without a name, ports or type.
abbrev pub IsBlank : CompInfo → Type 0
IsBlank c =
    (c.name ≡ []) × (c.wk_type ≡ zero_comp.wk_type) × (c.rx ≡ zero_comp.rx) × (c.tx ≡ zero_comp.tx)

pub init_component_infos-IsBlank :
    (n : ℕ) (s : MngData)
    → ((i : ℕ) → IsBlank ((init_component_infos n s).component i))
      × ((init_component_infos n s).core ≡ s.core)
unfolding init_component_infos
init_component_infos-IsBlank n s =
    for_from_inv (λ _ (t : MngData). ((i : ℕ) → IsBlank (t.component i)) × (t.core ≡ s.core))
      number_component n 0 (record s { component = λ i. zero_comp })
      (λ j t _ _ (b, e). ((λ i. ground (arith, b i, b j)), e))
      ((λ i. (refl, refl, refl, refl)), refl)

init_core_info-IsFlipped :
    (n : ℕ) (slaves : List ℕ) (s : MngData) (k : ℕ)
    → k < n
    → IsFlipped ((init_core_info n slaves s).core k)
unfolding init_core_info
init_core_info-IsFlipped n slaves s k lt =
    for_from_inv (λ m (t : MngData). (j : ℕ) → j < m → IsFlipped (t.core j)) side_core n 0 _
      (λ j t _ _ h i hi. ground (arith, h i)) (λ j h. absurd (omega arith)) k (omega arith)

blank-IsSound : (c : CompInfo) → IsBlank c → IsSound c
blank-IsSound c (a, b, r, t) =
    (ground arith, rw r (λ i j hi. absurd (omega arith)), rw t (λ i j hi. absurd (omega arith)))

-- After the first part of `init_mng_data`, each component has no more ports than its type allows and
-- none twice, names are unique, and the sides of each of the `max_lcore` lcores are told apart.
pub init_mng_data_sound :
    (max_ethports max_queues max_lcore : ℕ) (slaves : List ℕ) (s : MngData)
    → let t = init_mng_data max_ethports max_queues max_lcore slaves s in
      AllSound t × IsNamed max_lcore t × ((k : ℕ) → k < max_lcore → IsFlipped (t.core k))
unfolding init_mng_data
init_mng_data_sound max_ethports max_queues max_lcore slaves s =
    let u = init_core_info max_lcore slaves (init_iface_info max_ethports max_queues s) in
    let (blank, cores) = init_component_infos-IsBlank max_lcore u in
    (
      (λ i. blank-IsSound ((init_component_infos max_lcore u).component i) (blank i)),
      (λ i j hi hj ne q. absurd (ne (blank i).0)),
      (λ k lt. subst IsFlipped (sym (ap (λ g. g k) cores)) (
          init_core_info-IsFlipped max_lcore slaves (init_iface_info max_ethports max_queues s) k
            lt)),
    )
