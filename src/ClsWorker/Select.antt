-- ===== src/ClsWorker/Select.antt =====
-- `select_classified_index` of src/vf/classifier.c against a search of the TX ports.
use spp_tmp.Base.{
  ℕ, ◌≡◌, sym, ap, ◌∙◌, true, Option, none, some, List, ◌==◌, if◌then◌else◌, take, arith, subst,
  Option-cases, inl, inr,
}
use spp_tmp.WorkerTypes.{PortInfo, PortIdx, CompInfo}
use spp_tmp.Vlan.{get_vid}
use spp_tmp.Classifier.{MacHash, ClsComp, vlan_untagged_vid, init_component_info}
use spp_tmp.Classifier.Search.{last_index, any_index, is_member, is_default, has_mac}
use spp_tmp.Classifier.Build.{Agrees, default_idx_of}
use spp_tmp.Classifier.Loop.{IsBuilt, tx_port, init_component_info-IsBuilt}
use spp_tmp.ClsWorker.{
  Selected, to_port, no_entry, l2_multicast, selected_of, select_classified_index,
  get_general_default_classified_index,
}

module _ (h : MacHash) (ports : ℕ → PortInfo) (n : ℕ) where
  abbrev pub general_default : Option ℕ
  general_default = last_index (λ i. is_default vlan_untagged_vid (ports i)) n

  -- The destination of a packet: if some port has its VLAN ID, the last of these with its destination
  -- address; without one, the members if the address is a multicast address, else the default of the
  -- VLAN, else the general default. If no port has its VLAN ID, the general default.
  abbrev pub search_port : List ℕ → Selected
  search_port f =
      if any_index (λ i. is_member (get_vid f) (ports i)) n
      then (elim (last_index (λ i. has_mac (get_vid f) (ports i) (take 6 f)) n) [
        | some i ↦ to_port i
        | none ↦
            if h.is_multicast (take 6 f)
            then l2_multicast
            else (elim (last_index (λ i. is_default (get_vid f) (ports i)) n) [
              | some i ↦ to_port i
              | none ↦
                  if get_vid f == vlan_untagged_vid then no_entry else selected_of general_default
            ])
      ])
      else selected_of general_default

  module _ (c : ClsComp h) (built : IsBuilt h ports n c) where
    general_default_lem : get_general_default_classified_index h c ≡ general_default
    unfolding get_general_default_classified_index
    general_default_lem = elim (Option-cases (c.mac_clfs vlan_untagged_vid)) [
      | inl e ↦
          rw (e, get_general_default_classified_index)
            (ap (default_idx_of h) (sym e) ∙ (built vlan_untagged_vid).3)
      | inr (m, e) ↦
          rw (e, get_general_default_classified_index)
            (ap (default_idx_of h) (sym e) ∙ (built vlan_untagged_vid).3)
    ]

    pub select-eq-search : (f : List ℕ) → select_classified_index h f c ≡ search_port f
    unfolding select_classified_index
    select-eq-search f = elim (Option-cases (c.mac_clfs (get_vid f))) [
      | inl e ↦
          let b = subst (λ o. Agrees h ports n (get_vid f) o) e (built (get_vid f)) in
          rw (e, select_classified_index, sym b.1) (ap selected_of general_default_lem)
      | inr (m, e) ↦
          let b = subst (λ o. Agrees h ports n (get_vid f) o) e (built (get_vid f)) in
          rw (e, select_classified_index, sym b.1, b.2 (take 6 f))
            (ground (arith, b.3, general_default_lem))
    ]

-- The tables that `init_component_info` builds on a clean side send every packet where the search of
-- the component's TX ports sends it.
pub init_component_info-refines :
    (h : MacHash) (deref : PortIdx → PortInfo) (wk : CompInfo) (c d : ClsComp h) (count count' : ℕ)
    → ((vid : ℕ) → c.mac_clfs vid ≡ none)
    → init_component_info h deref wk (c, count) ≡ (true, d, count')
    → (f : List ℕ) → select_classified_index h f d ≡ search_port h (tx_port h deref wk) wk.tx.nof f
init_component_info-refines h deref wk c d count count' clean e f =
    select-eq-search h (tx_port h deref wk) wk.tx.nof d
      (init_component_info-IsBuilt h deref wk c d count count' clean e) f
