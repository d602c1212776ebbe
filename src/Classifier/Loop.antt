-- ===== src/Classifier/Loop.antt =====
-- `init_component_info` of src/vf/classifier.c, its loop over the TX ports.
use spp_tmp.Base.{
  ℕ, zero, suc, ◌+◌, ◌≡◌, refl, ap, Bool, true, none, arith, Bool-cases, inl, inr, subst,
}
use spp_tmp.WorkerTypes.{PortInfo, PortIdx, CompInfo}
use spp_tmp.Classifier.{MacHash, ClsComp, init_tx_port, init_tx_ports, init_component_info}
use spp_tmp.Classifier.Build.{Agrees, init_tx_port-AllAgree}

module _ (h : MacHash) where
  -- Every instance of `c` answers as the search of the first `n` ports.
  abbrev pub IsBuilt : (ℕ → PortInfo) → ℕ → ClsComp h → Type 0
  IsBuilt ports n c = (vid : ℕ) → Agrees h ports n vid (c.mac_clfs vid)

  module _ (deref : PortIdx → PortInfo) (wk : CompInfo) where
    -- The TX port `i` of the component.
    abbrev pub tx_port : ℕ → PortInfo
    tx_port i = deref (wk.tx.ptr i)

    init_tx_ports-IsBuilt :
        (n i : ℕ) (c d : ClsComp h) (count count' : ℕ)
        → IsBuilt tx_port i c
        → init_tx_ports h deref wk.tx n i (c, count) ≡ (true, d, count')
        → IsBuilt tx_port (i + n) d
    unfolding init_tx_ports
    init_tx_ports-IsBuilt zero i c d count count' built e =
        let dc : c ≡ d = ap (λ (r : Bool × ClsComp h × ℕ). r.1) e in
        subst (λ k. IsBuilt tx_port k d) (omega arith) (subst (λ x. IsBuilt tx_port i x) dc built)
    init_tx_ports-IsBuilt (suc n) i c d count count' built e = elim (Bool-cases r.0) [
      | inr f ↦ absurd (ground arith)
      | inl t ↦
          subst (λ k. IsBuilt tx_port k d) (omega arith)
            (init_tx_ports-IsBuilt n (i + 1) r.1 d r.2 count'
              (subst (λ k. IsBuilt tx_port k r.1) {x = suc i} (omega arith)
                (init_tx_port-AllAgree h tx_port i c r.1 count r.2 built
                  (ap (λ b. (b, r.1, r.2)) t)))
              (rw t at e))
    ]
      where
        r : Bool × ClsComp h × ℕ
        r = init_tx_port h (tx_port i) i (c, count)

    -- If `init_component_info` succeeds on a clean side, every instance of the component that it makes
    -- has as members the TX ports with its VLAN ID, as entries the last of them with each address,
    -- and as default the last of them with the default address.
    pub init_component_info-IsBuilt :
        (c d : ClsComp h) (count count' : ℕ)
        → ((vid : ℕ) → c.mac_clfs vid ≡ none)
        → init_component_info h deref wk (c, count) ≡ (true, d, count')
        → IsBuilt tx_port wk.tx.nof d
    unfolding init_component_info
    init_component_info-IsBuilt c d count count' clean e =
        subst (λ k. IsBuilt tx_port k d) (omega arith)
          (init_tx_ports-IsBuilt wk.tx.nof 0 _ d count count'
            (λ vid. rw (clean vid) (refl, refl, (λ k. refl), refl)) e)
