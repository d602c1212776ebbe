-- ===== src/Tests/Classify.antt =====
-- The tests of vf/classifier.c.
use spp_tmp.Base.{ℕ, ◌+◌, ◌≡◌, refl, true, false, List, ◌∷◌, arith, weigh, replicate}
use spp_tmp.Ethdev.{sim}
use spp_tmp.WorkerTypes.{zero_attrs}
use spp_tmp.Vlan.{get_vid}
use spp_tmp.Vlan.Burst.{no_ops-NeverFails}
use spp_tmp.Classifier.{
  ClsComp, ClsMng, zero_cls_comp, clean_classifier, init_component_info, init_tx_ports,
  init_tx_port, register, get_or_create, create_mac_classification, update_classifier, clean_old,
  is_waiting,
}
use spp_tmp.Classifier.Loop.{IsBuilt, tx_port, init_component_info-IsBuilt}
use spp_tmp.ClsWorker.{
  to_port, select_classified_index, classify_side, classify_packets, change_classifier_index,
}
use spp_tmp.ClsWorker.Select.{init_component_info-refines}
use spp_tmp.ClsWorker.Bounds.{SidesRoom, classify_packets-SidesRoom}
use spp_tmp.ClsWorker.Routes.{IsBuilt-IsRouted}
use spp_tmp.ClsWorker.Balance.{held}
use spp_tmp.ClsWorker.Conserve.{classify_side-Moved}
use spp_tmp.ClsWorker.Protocol.{
  current, built, IsFlipped, update_classifier_publishes, update_classifier_lost,
}
use spp_tmp.Tests.Data.{loaded, fresh_caps}
use spp_tmp.Tests.Table.{list_table, cls_port, cls_comp}

abbrev built_comp : ClsComp list_table
built_comp = (init_component_info list_table cls_port cls_comp (zero_cls_comp list_table, 0)).1

is_made :
    init_component_info list_table cls_port cls_comp (zero_cls_comp list_table, 0)
    ≡ (true, built_comp, 1)
unfolding init_component_info init_tx_ports init_tx_port register get_or_create
    create_mac_classification
is_made = refl

built_comp-IsBuilt : IsBuilt list_table (tx_port list_table cls_port cls_comp) 2 built_comp
built_comp-IsBuilt =
    init_component_info-IsBuilt list_table cls_port cls_comp (zero_cls_comp list_table) built_comp 0
      1 (λ vid. refl) is_made

-- A packet to the address of TX port 0.
abbrev to_first : List ℕ
to_first = 2 ∷ 2 ∷ 3 ∷ 4 ∷ 5 ∷ 6 ∷ replicate 8 0

init_component_info-refines_example :
    select_classified_index list_table to_first built_comp ≡ to_port 0
unfolding get_vid
init_component_info-refines_example =
    init_component_info-refines list_table cls_port cls_comp (zero_cls_comp list_table) built_comp 0
      1 (λ vid. refl) is_made to_first

abbrev two_sides_mng : ClsMng list_table
two_sides_mng = record {
  comp_list = λ _. zero_cls_comp list_table;
  ref_index = 0;
  upd_index = 1;
  is_used = true;
}

classify_packets-SidesRoom_example :
    SidesRoom list_table
      (classify_packets list_table sim 1000 10 (two_sides_mng, fresh_caps, loaded)).0
classify_packets-SidesRoom_example =
    classify_packets-SidesRoom list_table sim 1000 10 two_sides_mng fresh_caps loaded
      (λ side i. omega arith)

classify_side-Moved_example :
    let (d, v) = classify_side list_table sim fresh_caps 1000 10 (built_comp, loaded) in
    (d.mac_clfs ≡ built_comp.mac_clfs)
    × (d.nof_tx_ports ≡ built_comp.nof_tx_ports)
    × (weigh (λ m. m) v.acquired + 0 + held (λ m. m) built_comp.tx_ports 2
        ≡ 0 + weigh (λ m. m) v.released + held (λ m. m) d.tx_ports 2)
unfolding init_component_info init_tx_ports init_tx_port register get_or_create
    create_mac_classification
classify_side-Moved_example =
    classify_side-Moved list_table sim fresh_caps
      (λ p. no_ops-NeverFails sim (replicate 4 zero_attrs) refl) (λ m. m) 2 1000 10 built_comp
      loaded
      (IsBuilt-IsRouted list_table (tx_port list_table cls_port cls_comp) 2 built_comp
        built_comp-IsBuilt)
      refl

abbrev updated_mng : ClsMng list_table
updated_mng = (update_classifier list_table cls_port cls_comp (two_sides_mng, 0)).1

update_classifier_publishes_example :
    let (u, _, _) = change_classifier_index list_table sim (updated_mng, fresh_caps, loaded) in
    let v = clean_old list_table u in
    (current list_table cls_port sim updated_mng ≡ zero_cls_comp list_table)
    × (is_waiting list_table updated_mng ≡ true)
    × (is_waiting list_table u ≡ false)
    × (current list_table cls_port sim v ≡ built list_table cls_port sim cls_comp two_sides_mng 0)
    × (v.comp_list v.upd_index ≡ zero_cls_comp list_table)
    × IsFlipped list_table cls_port sim v
unfolding update_classifier init_component_info init_tx_ports init_tx_port register get_or_create
    create_mac_classification
update_classifier_publishes_example =
    update_classifier_publishes list_table cls_port sim cls_comp two_sides_mng 0 fresh_caps loaded
      {t = updated_mng} {count' = 1} (omega arith, refl) refl

abbrev lost_mng : ClsMng list_table
lost_mng = (update_classifier list_table cls_port cls_comp (clean_classifier list_table, 0)).1

update_classifier_lost_example :
    let (u, _, _) = change_classifier_index list_table sim (lost_mng, fresh_caps, loaded) in
    (is_waiting list_table u ≡ false)
    × ((side : ℕ) → (clean_old list_table u).comp_list side ≡ zero_cls_comp list_table)
unfolding clean_classifier update_classifier init_component_info init_tx_ports init_tx_port register
    get_or_create create_mac_classification
update_classifier_lost_example =
    update_classifier_lost list_table cls_port sim cls_comp 0 fresh_caps loaded {t = lost_mng}
      {count' = 1} refl
