-- ===== src/Classifier/Build.antt =====
-- `init_component_info` of src/vf/classifier.c: the tables that it builds answer as a search of the
-- TX ports would.
use spp_tmp.Base.{
  ℕ, suc, ◌≡◌, refl, sym, ap, ◌∙◌, Bool, true, false, Option, none, some, List, [], ◌∷◌, ◌++◌, ◌==◌,
  update, arith, Bool-cases, Option-cases, inl, inr, ◌⊎◌, ==_iff, ==_refl, ==_ne, update_self,
  update_ne, ℕ_discrete, subst,
}
use spp_tmp.WorkerTypes.{PortInfo}
use spp_tmp.Classifier.{
  MacHash, MacClassifier, ClsComp, mac_key, cls_dummy_addr, create_mac_classification,
  get_or_create, register, put_clf, cls_port_of, init_tx_port,
}
use spp_tmp.Classifier.Search.{last_index, indices, any_index, is_member, is_default, has_mac}

module _ (h : MacHash) where
  -- What an instance, or none, answers.
  abbrev pub members_of : Option (MacClassifier h) → List ℕ
  members_of none = []
  members_of (some m) = m.cls_ports

  abbrev pub is_known : Option (MacClassifier h) → Bool
  is_known none = false
  is_known (some m) = true

  abbrev pub lookup_of : List ℕ → Option (MacClassifier h) → Option ℕ
  lookup_of k none = none
  lookup_of k (some m) = h.lookup_data k m.cls_tbl

  abbrev pub default_idx_of : Option (MacClassifier h) → Option ℕ
  default_idx_of none = none
  default_idx_of (some m) = m.default_cls_idx

  -- The instance of `vid` answers as the search of the first `n` ports.
  abbrev pub Agrees : (ℕ → PortInfo) → ℕ → ℕ → Option (MacClassifier h) → Type 0
  Agrees ports n vid o =
      (members_of o ≡ indices (λ i. is_member vid (ports i)) n)
      × (is_known o ≡ any_index (λ i. is_member vid (ports i)) n)
      × ((k : List ℕ) → lookup_of k o ≡ last_index (λ i. has_mac vid (ports i) k) n)
      × (default_idx_of o ≡ last_index (λ i. is_default vid (ports i)) n)

  -- An instance that is there, or new, answers the same.
  get_or_create_lem :
      (count : ℕ) (o : Option (MacClassifier h)) {m : MacClassifier h}
      → get_or_create h count o ≡ some m
      → (m.cls_ports ≡ members_of o)
        × ((k : List ℕ) → lookup_of k (some m) ≡ lookup_of k o)
        × (m.default_cls_idx ≡ default_idx_of o)
  unfolding get_or_create create_mac_classification
  get_or_create_lem count (some x) e = ground arith
  get_or_create_lem count none {m} e = elim (Option-cases (h.create count)) [
    | inl n ↦ absurd (ground arith)
    | inr (t, s) ↦
        let em : m ≡ record { cls_tbl = t; cls_ports = []; default_cls_idx = none } =
          ground arith in
        rw em (refl, (λ k. h.lookup-create count k s), refl)
  ]

  module _ (ports : ℕ → PortInfo) (i : ℕ) where
    abbrev mac : ℕ
    mac = (ports i).cls_attrs.mac_addr

    abbrev own_vid : ℕ
    own_vid = (ports i).cls_attrs.vlantag.vid

    -- A port of another VLAN, or without an address, changes no answer.
    Agrees-skip :
        (vid : ℕ) (o : Option (MacClassifier h))
        → is_member vid (ports i) ≡ false
        → Agrees ports i vid o
        → Agrees ports (suc i) vid o
    Agrees-skip vid o e (a, b, c, d) = rw e (a, b, c, d)

    -- The instance of the port's VLAN after the round.
    Agrees-default :
        (o : Option (MacClassifier h)) (m : MacClassifier h)
        → mac ≡ cls_dummy_addr
        → (m.cls_ports ≡ members_of o)
        → ((k : List ℕ) → lookup_of k (some m) ≡ lookup_of k o)
        → Agrees ports i own_vid o
        → Agrees ports
            (suc i)
            own_vid
            (some (record m { cls_ports = m.cls_ports ++ i ∷ []; default_cls_idx = some i }))
    Agrees-default o m e em el (a, b, c, d) =
        rw (e, ==_refl own_vid) (ap (λ l. l ++ i ∷ []) (em ∙ a), refl, (λ k. el k ∙ c k), refl)

    Agrees-entry :
        (o : Option (MacClassifier h)) (m : MacClassifier h) (t : h.Table)
        → (mac == 0) ≡ false
        → (mac == cls_dummy_addr) ≡ false
        → h.add_key_data (mac_key mac) i m.cls_tbl ≡ some t
        → (m.cls_ports ≡ members_of o)
        → ((k : List ℕ) → lookup_of k (some m) ≡ lookup_of k o)
        → m.default_cls_idx ≡ default_idx_of o
        → Agrees ports i own_vid o
        → Agrees ports
            (suc i)
            own_vid
            (some (record m { cls_ports = m.cls_ports ++ i ∷ []; cls_tbl = t }))
    Agrees-entry o m t e0 ed et em el edf (a, b, c, d) =
        rw (e0, ed, ==_refl own_vid)
          (
            ap (λ l. l ++ i ∷ []) (em ∙ a),
            refl,
            (λ k. h.lookup-add (mac_key mac) k i m.cls_tbl et ∙ rw (el k ∙ c k)),
            edf ∙ d,
          )

    -- A round that does not fail.
    abbrev pub AllAgree : ℕ → ClsComp h → Type 0
    AllAgree n c = (vid : ℕ) → Agrees ports n vid (c.mac_clfs vid)

    -- One instance is replaced, by one that agrees.
    put_AllAgree :
        (c : ClsComp h) (m : MacClassifier h)
        → AllAgree i c
        → Agrees ports (suc i) own_vid (some m)
        → (vid : ℕ) → Agrees ports (suc i) vid (update c.mac_clfs own_vid (some m) vid)
    put_AllAgree c m all own vid = elim (ℕ_discrete vid own_vid) [
      | yes e ↦
          subst (λ v. Agrees ports (suc i) v (update c.mac_clfs own_vid (some m) v)) (sym e)
            (subst (λ o. Agrees ports (suc i) own_vid o)
              (sym (update_self c.mac_clfs own_vid (some m))) own)
      | no ne ↦
          subst (λ o. Agrees ports (suc i) vid o)
            (sym (update_ne c.mac_clfs own_vid vid (some m) ne))
            (Agrees-skip vid (c.mac_clfs vid) (rw (==_ne vid own_vid ne)) (all vid))
    ]

    -- The register of a port, unless it fails.
    register_cases :
        (c d : ClsComp h) (m : MacClassifier h)
        → register h i own_vid mac m c ≡ (true, d)
        → ((mac == cls_dummy_addr) ≡ true)
            × (d
                ≡ put_clf h own_vid
                    (record m { cls_ports = m.cls_ports ++ i ∷ []; default_cls_idx = some i })
                    c)
          ⊎ (t : h.Table) × ((mac == cls_dummy_addr) ≡ false)
            × (h.add_key_data (mac_key mac) i m.cls_tbl ≡ some t)
            × (d
                ≡ put_clf h own_vid (record m { cls_ports = m.cls_ports ++ i ∷ []; cls_tbl = t }) c)
    unfolding register
    register_cases c d m eq = elim (Bool-cases (mac == cls_dummy_addr)) [
      | inl e ↦ inl (e, ground arith)
      | inr e ↦ elim (Option-cases (h.add_key_data (mac_key mac) i m.cls_tbl)) [
        | inl n ↦ absurd (ground arith)
        | inr (t, s) ↦ inr (t, e, s, ground arith)
      ]
    ]

    register-AllAgree :
        (c d : ClsComp h) (m : MacClassifier h)
        → (mac == 0) ≡ false
        → AllAgree i c
        → (m.cls_ports ≡ members_of (c.mac_clfs own_vid))
        → ((k : List ℕ) → lookup_of k (some m) ≡ lookup_of k (c.mac_clfs own_vid))
        → m.default_cls_idx ≡ default_idx_of (c.mac_clfs own_vid)
        → register h i own_vid mac m c ≡ (true, d)
        → AllAgree (suc i) d
    register-AllAgree c d m e0 all em el ed eq = elim (register_cases c d m eq) [
      | inl (e, dd) ↦ rw dd (
          put_AllAgree c _ all
            (Agrees-default (c.mac_clfs own_vid) m ((==_iff _ _).0 e) em el (all own_vid)))
      | inr (t, e, s, dd) ↦ rw dd (
          put_AllAgree c _ all
            (Agrees-entry (c.mac_clfs own_vid) m t e0 e s em el ed (all own_vid)))
    ]

    -- A round that does not fail.
    pub init_tx_port-AllAgree :
        (c d : ClsComp h) (count count' : ℕ)
        → AllAgree i c
        → init_tx_port h (ports i) i (c, count) ≡ (true, d, count')
        → AllAgree (suc i) d
    unfolding init_tx_port
    init_tx_port-AllAgree c d count count' all eq = elim (Bool-cases (mac == 0)) [
      | inl e ↦
          let dm : d.mac_clfs ≡ c.mac_clfs = ground arith in
          rw dm (λ vid. Agrees-skip vid (c.mac_clfs vid) (ground arith) (all vid))
      | inr e ↦ elim (Option-cases (get_or_create h count (c.mac_clfs own_vid))) [
        | inl n ↦ absurd (ground arith)
        | inr (m, s) ↦
            let (em, el, ed) = get_or_create_lem count (c.mac_clfs own_vid) s in
            register-AllAgree
              (record c { tx_ports = update c.tx_ports i (cls_port_of h i (ports i)) }) d m e all em
              el ed (ground arith)
      ]
    ]
