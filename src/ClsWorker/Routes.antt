-- ===== src/ClsWorker/Routes.antt =====
-- The indices of TX ports in the tables of vf/classifier.c are below the number of ports.
use spp_tmp.Base.{
  ℕ, zero, suc, ◌<◌, ◌≡◌, sym, Bool, Option, none, some, List, [], ◌∷◌, ◌++◌, ◌==◌, arith,
  Bool-cases, Option-cases, inl, inr, subst, take,
}
use spp_tmp.WorkerTypes.{PortInfo}
use spp_tmp.Vlan.{get_vid}
use spp_tmp.Classifier.{MacHash, MacClassifier, ClsComp, vlan_untagged_vid}
use spp_tmp.Classifier.Search.{last_index, indices}
use spp_tmp.Classifier.Build.{members_of, lookup_of, default_idx_of}
use spp_tmp.Classifier.Loop.{IsBuilt}
use spp_tmp.ClsWorker.{
  to_port, selected_of, select_classified_index, default_of, get_general_default_classified_index,
}

abbrev pub Below : ℕ → Option ℕ → Type 0
Below n none = Unit
Below n (some i) = i < n

abbrev pub AllBelow : ℕ → List ℕ → Type 0
AllBelow n [] = Unit
AllBelow n (i ∷ is) = (i < n) × AllBelow n is

Below-suc : (n : ℕ) (o : Option ℕ) → Below n o → Below (suc n) o
Below-suc n none b = tt
Below-suc n (some i) b = omega arith

last_index-Below : (p : ℕ → Bool) (n : ℕ) → Below n (last_index p n)
last_index-Below p zero = tt
last_index-Below p (suc n) = elim (Bool-cases (p n)) [
  | inl e ↦ rw e (omega arith)
  | inr e ↦ rw e (Below-suc n (last_index p n) (last_index-Below p n))
]

AllBelow-snoc : (n : ℕ) (is : List ℕ) → AllBelow n is → AllBelow (suc n) (is ++ n ∷ [])
AllBelow-snoc n [] all = (omega arith, tt)
AllBelow-snoc n (i ∷ is) (b, all) = (omega arith, AllBelow-snoc n is all)

AllBelow-suc : (n : ℕ) (is : List ℕ) → AllBelow n is → AllBelow (suc n) is
AllBelow-suc n [] all = tt
AllBelow-suc n (i ∷ is) (b, all) = (omega arith, AllBelow-suc n is all)

indices-AllBelow : (p : ℕ → Bool) (n : ℕ) → AllBelow n (indices p n)
indices-AllBelow p zero = tt
indices-AllBelow p (suc n) = elim (Bool-cases (p n)) [
  | inl e ↦ rw e (AllBelow-snoc n (indices p n) (indices-AllBelow p n))
  | inr e ↦ rw e (AllBelow-suc n (indices p n) (indices-AllBelow p n))
]

module _ (h : MacHash) where
  -- Every index in a table is below `n`.
  abbrev pub IsRouted : ℕ → (ℕ → Option (MacClassifier h)) → Type 0
  IsRouted n clfs =
      (vid : ℕ)
      → (AllBelow n (members_of h (clfs vid)))
        × ((k : List ℕ) → Below n (lookup_of h k (clfs vid)))
        × (Below n (default_idx_of h (clfs vid)))

  pub IsBuilt-IsRouted :
      (ports : ℕ → PortInfo) (n : ℕ) (c : ClsComp h) → IsBuilt h ports n c → IsRouted n c.mac_clfs
  IsBuilt-IsRouted ports n c built vid =
      let (a, _, l, d) = built vid in
      (
        subst (AllBelow n) (sym a) (indices-AllBelow _ n),
        (λ k. subst (Below n) (sym (l k)) (last_index-Below _ n)),
        subst (Below n) (sym d) (last_index-Below _ n),
      )

module _ (h : MacHash) (n : ℕ) where
  pub general_default-Below :
      (c : ClsComp h) → IsRouted h n c.mac_clfs → Below n (get_general_default_classified_index h c)
  unfolding get_general_default_classified_index
  general_default-Below c routed = elim (Option-cases (c.mac_clfs vlan_untagged_vid)) [
    | inl e ↦ rw (e, get_general_default_classified_index) tt
    | inr (m, e) ↦
        rw (e, get_general_default_classified_index)
          (subst (λ o. Below n (default_idx_of h o)) e (routed vlan_untagged_vid).2)
  ]

  selected_of-Below : (o : Option ℕ) (i : ℕ) → Below n o → selected_of o ≡ to_port i → i < n
  selected_of-Below none i b e = absurd (ground arith)
  selected_of-Below (some j) i b e = ground arith

  default_of-Below :
      (vid : ℕ) (m : MacClassifier h) (c : ClsComp h)
      → Below n m.default_cls_idx
      → Below n (get_general_default_classified_index h c)
      → Below n (default_of h vid m c)
  default_of-Below vid m c b g = elim (Option-cases m.default_cls_idx) [
    | inr (i, e) ↦ rw e (rw e at b)
    | inl e ↦ elim (Bool-cases (vid == vlan_untagged_vid)) [
      | inl u ↦ rw (e, u) tt
      | inr u ↦ rw (e, u) g
    ]
  ]

  pub select-Below :
      (g : List ℕ) (c : ClsComp h) (i : ℕ)
      → IsRouted h n c.mac_clfs
      → select_classified_index h g c ≡ to_port i
      → i < n
  unfolding select_classified_index
  select-Below g c i routed eq = elim (Option-cases (c.mac_clfs (get_vid g))) [
    | inl e ↦
        selected_of-Below (get_general_default_classified_index h c) i
          (general_default-Below c routed) (rw (e, select_classified_index) at eq)
    | inr (m, e) ↦
        let found =
          subst (λ o. Below n (lookup_of h (take 6 g) o)) e ((routed (get_vid g)).1 (take 6 g)) in
        let default = subst (λ o. Below n (default_idx_of h o)) e (routed (get_vid g)).2 in
        elim (Option-cases (h.lookup_data (take 6 g) m.cls_tbl)) [
          | inr (j, l) ↦
              let b : j < n = rw l at found in
              selected_of-Below (some j) i b (rw (e, select_classified_index, l) at eq)
          | inl l ↦ elim (Bool-cases (h.is_multicast (take 6 g))) [
            | inl b ↦ absurd (ground arith)
            | inr b ↦
                selected_of-Below (default_of h (get_vid g) m c) i
                  (default_of-Below (get_vid g) m c default (general_default-Below c routed))
                  (rw (e, select_classified_index, l, b) at eq)
          ]
        ]
  ]
