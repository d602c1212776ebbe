-- ===== src/Flush/Ports.antt =====
-- `sppwk_update_port_dir` of port_capability.c: what the threads read while it runs.
use spp_tmp.Base.{ℕ, zero, suc, ◌+◌, ◌<◌, ◌≤◌, ◌≡◌, refl, sym, ap, ◌∙◌, some, arith, subst}
use spp_tmp.WorkerTypes.{PortDir, PortIdx, PortInfo, PortArray, CompInfo}
use spp_tmp.Capability.{CapState, Column, get_port_attrs}
use spp_tmp.Capability.Sides.{IsFlipped}
use spp_tmp.Capability.Publish.{update_isolated}
use spp_tmp.Flush.{update_ports, sppwk_update_port_dir}
use spp_tmp.Flush.Total.{Placed, update_ports_step, update_rx, update_tx}

-- What the threads read, of every port in either direction, is the same.
abbrev pub SameAttrs : CapState → CapState → Type 0
SameAttrs s t = (k : ℕ) (e : PortDir) → get_port_attrs k e t ≡ get_port_attrs k e s

module _ (deref : PortIdx → PortInfo) where
  -- The first `n` ports have different ethdev ports.
  abbrev pub DifferentPorts : ℕ → PortArray → Type 0
  DifferentPorts n ports =
      (j k p : ℕ)
      → j < n
      → k < n
      → (deref (ports.ptr j)).ethdev_port_id ≡ some p
      → (deref (ports.ptr k)).ethdev_port_id ≡ some p
      → j ≡ k

  -- The sides of the ports from `i` to `n` are told apart.
  abbrev pub Flipped : ℕ → ℕ → PortArray → Column → Type 0
  Flipped i n ports col =
      (j p : ℕ)
      → i ≤ j
      → j < n
      → (deref (ports.ptr j)).ethdev_port_id ≡ some p
      → IsFlipped (col.mng p)

  update_rx_ports :
      (ports : PortArray) (m n i : ℕ) (s : CapState)
      → DifferentPorts m ports
      → Placed deref s.rx.size m ports
      → i + n ≤ m
      → s.rx.num + n ≤ s.rx.size
      → Flipped i (i + n) ports s.rx
      → (t : CapState) × (update_ports deref PortDir.rx_dir ports n i s ≡ some t)
        × SameAttrs s t
        × (t.tx ≡ s.tx)
  unfolding update_ports
  update_rx_ports ports m zero i s diff placed le room f = (s, refl, (λ k e. refl), refl)
  update_rx_ports ports m (suc n) i s diff placed le room f =
      let (p, q, lt) = placed i (omega arith) in
      let (t, e, a, b, x, o) = update_rx p (deref (ports.ptr i)) s lt (omega arith) in
      let (u, g, same, y) =
        update_rx_ports ports m n (i + 1) t diff
          (subst (λ size. Placed deref size m ports) (sym b) placed) (omega arith)
          (omega (arith, a, b))
          (λ j r lo hi w.
            subst IsFlipped
              (sym (
                o r (λ z.
                  absurd (
                    omega
                      (arith, diff j i r (omega arith) (omega arith) w (q ∙ ap some (sym z)))))))
              (f j r (omega arith) (omega arith) w)) in
      (
        u,
        update_ports_step deref PortDir.rx_dir ports n i p s q e ∙ g,
        (λ k d.
            same k d
            ∙ update_isolated p (deref (ports.ptr i)) PortDir.rx_dir s {t = t}
                (f i p (omega arith) (omega arith) q) e k d),
        y ∙ x,
      )

  update_tx_ports :
      (ports : PortArray) (m n i : ℕ) (s : CapState)
      → DifferentPorts m ports
      → Placed deref s.tx.size m ports
      → i + n ≤ m
      → s.tx.num + n ≤ s.tx.size
      → Flipped i (i + n) ports s.tx
      → (t : CapState) × (update_ports deref PortDir.tx_dir ports n i s ≡ some t) × SameAttrs s t
  unfolding update_ports
  update_tx_ports ports m zero i s diff placed le room f = (s, refl, (λ k e. refl))
  update_tx_ports ports m (suc n) i s diff placed le room f =
      let (p, q, lt) = placed i (omega arith) in
      let (t, e, a, b, x, o) = update_tx p (deref (ports.ptr i)) s lt (omega arith) in
      let (u, g, same) =
        update_tx_ports ports m n (i + 1) t diff
          (subst (λ size. Placed deref size m ports) (sym b) placed) (omega arith)
          (omega (arith, a, b))
          (λ j r lo hi w.
            subst IsFlipped
              (sym (
                o r (λ z.
                  absurd (
                    omega
                      (arith, diff j i r (omega arith) (omega arith) w (q ∙ ap some (sym z)))))))
              (f j r (omega arith) (omega arith) w)) in
      (
        u,
        update_ports_step deref PortDir.tx_dir ports n i p s q e ∙ g,
        λ k d.
            same k d
            ∙ update_isolated p (deref (ports.ptr i)) PortDir.tx_dir s {t = t}
                (f i p (omega arith) (omega arith) q) e k d,
      )

  -- If the ports of a component have ethdev ports in the table, its RX ports different ones, and so its
  -- TX ports, if the sides of all of them are told apart, and if the two lists of marked ports have
  -- room for them, `sppwk_update_port_dir` succeeds, and until the switch every thread reads, of every
  -- port, the attributes of before.
  pub update_port_dir_isolated :
      (c : CompInfo) (s : CapState)
      → DifferentPorts c.rx.nof c.rx
      → DifferentPorts c.tx.nof c.tx
      → Placed deref s.rx.size c.rx.nof c.rx
      → Placed deref s.tx.size c.tx.nof c.tx
      → s.rx.num + c.rx.nof ≤ s.rx.size
      → s.tx.num + c.tx.nof ≤ s.tx.size
      → Flipped 0 c.rx.nof c.rx s.rx
      → Flipped 0 c.tx.nof c.tx s.tx
      → (t : CapState) × (sppwk_update_port_dir deref c s ≡ some t) × SameAttrs s t
  unfolding sppwk_update_port_dir
  update_port_dir_isolated c s drx dtx prx ptx rrx rtx frx ftx =
      let (t, e, a, x) =
        update_rx_ports c.rx c.rx.nof c.rx.nof 0 s drx prx (omega arith) rrx
          (λ j p lo hi w. frx j p lo (omega arith) w) in
      let num : t.tx.num ≡ s.tx.num = ap (λ col. col.num) x in
      let size : t.tx.size ≡ s.tx.size = ap (λ col. col.size) x in
      let (u, g, b) =
        update_tx_ports c.tx c.tx.nof c.tx.nof 0 t dtx
          (subst (λ n. Placed deref n c.tx.nof c.tx) (sym size) ptx) (omega arith)
          (omega (arith, num, size))
          (λ j p lo hi w.
            subst IsFlipped (sym (ap (λ col. col.mng p) x)) (ftx j p lo (omega arith) w)) in
      (u, rw e g, (λ k d. b k d ∙ a k d))
