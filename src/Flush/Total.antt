-- ===== src/Flush/Total.antt =====
-- `sppwk_update_port_dir` of port_capability.c stays within its arrays, and how it fills them.
use spp_tmp.Base.{ℕ, zero, suc, ◌+◌, ◌<◌, ◌≤◌, ◌≡◌, ◌≢◌, refl, sym, ap, ◌∙◌, some, arith, subst}
use spp_tmp.WorkerTypes.{PortDir, PortIdx, PortInfo, PortArray, CompInfo}
use spp_tmp.Capability.{
  CapState, update_port_attrs, swap_upd, fill_port, mark_port, name_port, marked,
}
use spp_tmp.Flush.{update_ports, sppwk_update_port_dir}

-- One update of an RX port, and of a TX port, in a table with room for it.
pub update_rx :
    (i : ℕ) (port : PortInfo) (s : CapState)
    → i < s.rx.size
    → s.rx.num < s.rx.size
    → (t : CapState) × (update_port_attrs i port PortDir.rx_dir s ≡ some t)
      × (t.rx.num ≡ s.rx.num + 1)
      × (t.rx.size ≡ s.rx.size)
      × (t.tx ≡ s.tx)
      × ((k : ℕ) → k ≢ i → t.rx.mng k ≡ s.rx.mng k)
unfolding update_port_attrs swap_upd fill_port mark_port
update_rx i port s lt room = (
  record (name_port i port s) { rx = marked i (fill_port i PortDir.rx_dir port.port_attrs s.rx) },
  ground arith,
  refl,
  refl,
  refl,
  λ k ne. ground arith,
)

pub update_tx :
    (i : ℕ) (port : PortInfo) (s : CapState)
    → i < s.tx.size
    → s.tx.num < s.tx.size
    → (t : CapState) × (update_port_attrs i port PortDir.tx_dir s ≡ some t)
      × (t.tx.num ≡ s.tx.num + 1)
      × (t.tx.size ≡ s.tx.size)
      × (t.rx ≡ s.rx)
      × ((k : ℕ) → k ≢ i → t.tx.mng k ≡ s.tx.mng k)
unfolding update_port_attrs swap_upd fill_port mark_port
update_tx i port s lt room = (
  record (name_port i port s) { tx = marked i (fill_port i PortDir.tx_dir port.port_attrs s.tx) },
  ground arith,
  refl,
  refl,
  refl,
  λ k ne. ground arith,
)

-- After `a` updates of RX ports and `b` of TX ports.
abbrev pub Used : ℕ → ℕ → CapState → CapState → Type 0
Used a b s t =
    (t.rx.num ≡ s.rx.num + a)
    × (t.rx.size ≡ s.rx.size)
    × (t.tx.num ≡ s.tx.num + b)
    × (t.tx.size ≡ s.tx.size)

module _ (at : PortIdx → PortInfo) where
  -- The first `n` ports have ethdev ports, of numbers below `size`.
  abbrev pub Placed : ℕ → ℕ → PortArray → Type 0
  Placed size n ports =
      (j : ℕ) → j < n → (p : ℕ) × ((at (ports.ptr j)).ethdev_port_id ≡ some p) × (p < size)

  pub update_ports_step :
      (d : PortDir) (ports : PortArray) (n i p : ℕ) (s : CapState) {t : CapState}
      → (at (ports.ptr i)).ethdev_port_id ≡ some p
      → update_port_attrs p (at (ports.ptr i)) d s ≡ some t
      → update_ports at d ports (suc n) i s ≡ update_ports at d ports n (i + 1) t
  unfolding update_ports
  update_ports_step d ports n i p s e u = simp (update_ports, e, u) refl

  update_rx_ports :
      (ports : PortArray) (m n i : ℕ) (s : CapState)
      → Placed s.rx.size m ports
      → i + n ≤ m
      → s.rx.num + n ≤ s.rx.size
      → (t : CapState) × (update_ports at PortDir.rx_dir ports n i s ≡ some t) × (Used n 0 s t)
  unfolding update_ports
  update_rx_ports ports m zero i s placed le room =
      (s, refl, (omega arith, refl, omega arith, refl))
  update_rx_ports ports m (suc n) i s placed le room =
      let (p, e, lt) = placed i (omega arith) in
      let (t, u, a, b, x, _) = update_rx p (at (ports.ptr i)) s lt (omega arith) in
      let (v, w, (c, d, y, z)) =
        update_rx_ports ports m n (i + 1) t (subst (λ size. Placed size m ports) (sym b) placed)
          (omega arith) (omega (arith, a, b)) in
      (
        v,
        update_ports_step PortDir.rx_dir ports n i p s e u ∙ w,
        (
          omega (arith, a, c),
          d ∙ b,
          omega (arith, y, ap (λ col. col.num) x),
          z ∙ ap (λ col. col.size) x,
        ),
      )

  update_tx_ports :
      (ports : PortArray) (m n i : ℕ) (s : CapState)
      → Placed s.tx.size m ports
      → i + n ≤ m
      → s.tx.num + n ≤ s.tx.size
      → (t : CapState) × (update_ports at PortDir.tx_dir ports n i s ≡ some t) × (Used 0 n s t)
  unfolding update_ports
  update_tx_ports ports m zero i s placed le room =
      (s, refl, (omega arith, refl, omega arith, refl))
  update_tx_ports ports m (suc n) i s placed le room =
      let (p, e, lt) = placed i (omega arith) in
      let (t, u, a, b, x, _) = update_tx p (at (ports.ptr i)) s lt (omega arith) in
      let (v, w, (y, z, c, d)) =
        update_tx_ports ports m n (i + 1) t (subst (λ size. Placed size m ports) (sym b) placed)
          (omega arith) (omega (arith, a, b)) in
      (
        v,
        update_ports_step PortDir.tx_dir ports n i p s e u ∙ w,
        (
          omega (arith, y, ap (λ col. col.num) x),
          z ∙ ap (λ col. col.size) x,
          omega (arith, a, c),
          d ∙ b,
        ),
      )

  -- For ports with ethdev ports in the table, and lists with room for all of them.
  pub update_port_dir_total :
      (c : CompInfo) (s : CapState)
      → Placed s.rx.size c.rx.nof c.rx
      → Placed s.tx.size c.tx.nof c.tx
      → s.rx.num + c.rx.nof ≤ s.rx.size
      → s.tx.num + c.tx.nof ≤ s.tx.size
      → (t : CapState) × (sppwk_update_port_dir at c s ≡ some t) × (Used c.rx.nof c.tx.nof s t)
  unfolding sppwk_update_port_dir
  update_port_dir_total c s prx ptx rrx rtx =
      let (t, e, (a, b, x, y)) = update_rx_ports c.rx c.rx.nof c.rx.nof 0 s prx (omega arith) rrx in
      let (u, f, (g, h, k, l)) =
        update_tx_ports c.tx c.tx.nof c.tx.nof 0 t
          (subst (λ size. Placed size c.tx.nof c.tx) (sym y) ptx) (omega arith)
          (omega (arith, x, y)) in
      (u, rw e f, (omega (arith, a, g), h ∙ b, omega (arith, x, k), l ∙ y))
