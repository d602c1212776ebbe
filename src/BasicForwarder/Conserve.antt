-- ===== src/BasicForwarder/Conserve.antt =====
-- `forward` of src/shared/basic_forwarder.c on a wired array: it never calls an unset function
-- pointer, and it gives back every mbuf that it receives, exactly once.
use spp_tmp.Base.{
  ℕ, ◌<◌, ◌≡◌, refl, sym, ◌∙◌, ap, Option, none, some, List, [], ◌++◌, append-nil, length, drop,
  ltb, ◌==◌, arith, Bool-cases, nil_of_length, inl, inr, for_from_inv, ==_iff,
}
use spp_tmp.Ethdev.{
  Ethdev, Passed, Passed-refl, Passed-trans, free_all, free_rest, sent-acquired, sent-released,
}
use spp_tmp.PortManager.{PortState, Port, port_reset, get_port_max_queues}
use spp_tmp.PortManager.Wired.{IsWired, IsServed, FitsQueues}
use spp_tmp.BasicForwarder.{
  max_pkt_burst, count_rx, send_burst, forward_one, and_then, forward_queues, forward,
}

IsServed-eq :
    (i j : ℕ) (s t : PortState) → t.fwd ≡ s.fwd → IsServed s (s.fwd i j) → IsServed t (t.fwd i j)
IsServed-eq i j s t e h = rw e h

IsWired-eq : (n m : ℕ) (s t : PortState) → t.fwd ≡ s.fwd → IsWired n m s → IsWired n m t
IsWired-eq n m s t e h i j hi hj = IsServed-eq i j s t e (h i j hi hj)

module _ (eth : Ethdev) where
  open eth use {
    World, acquired, released, rx_burst, tx_burst, rx_acquired, rx_released, tx_len, tx_acquired,
    tx_released,
  }

  -- `count_drop` apart, the branch of `send_burst` only chooses whether to free.
  send_burst_world :
      (op oq : ℕ) (bufs : List ℕ) (s : PortState) (w : World)
      → (send_burst eth op oq bufs s w).1
        ≡ free_all eth (drop (tx_burst op oq bufs w).0 bufs) (tx_burst op oq bufs w).1
  unfolding send_burst
  send_burst_world op oq bufs s w =
      elim (Bool-cases (ltb (tx_burst op oq bufs w).0 (length bufs))) [
        | inl e ↦ rw e
        | inr e ↦
            rw e (rw e at (free_rest eth (tx_burst op oq bufs w).0 bufs (tx_burst op oq bufs w).1))
      ]

  received-Passed :
      (i j op oq : ℕ) (s : PortState) (w : World)
      → Passed eth w
          (send_burst eth op oq
            (rx_burst i j max_pkt_burst w).0
            s
            (rx_burst i j max_pkt_burst w).1).1
  received-Passed i j op oq s w =
      let r = rx_burst i j max_pkt_burst w in
      (
        r.0,
        rw (send_burst_world op oq r.0 s r.1)
            (sent-acquired eth op oq r.0 r.1 ∙ rx_acquired i j max_pkt_burst w),
        rw (send_burst_world op oq r.0 s r.1)
            (sent-released eth op oq r.0 r.1 ∙ rw (rx_released i j max_pkt_burst w)),
      )

  -- What holds of each state on the way: the tables are those of the start, and every mbuf received
  -- since then was given back.
  abbrev Balanced : PortState → World → Option (PortState × World) → Type 0
  Balanced s w none = ⊥
  Balanced s w (some (t, v)) = (t.fwd ≡ s.fwd) × (t.port_map ≡ s.port_map) × Passed eth w v

  send_burst_tables :
      (op oq : ℕ) (bufs : List ℕ) (s : PortState) (w : World)
      → ((send_burst eth op oq bufs s w).0.fwd ≡ s.fwd)
        × ((send_burst eth op oq bufs s w).0.port_map ≡ s.port_map)
  unfolding send_burst
  send_burst_tables op oq bufs s w =
      elim (Bool-cases (ltb (tx_burst op oq bufs w).0 (length bufs))) [
        | inl e ↦ rw e (refl, refl)
        | inr e ↦ rw e (refl, refl)
      ]

  empty-Passed :
      (i j : ℕ) (w : World)
      → length (rx_burst i j max_pkt_burst w).0 ≡ 0
      → Passed eth w (rx_burst i j max_pkt_burst w).1
  empty-Passed i j w e = (
    [],
    rx_acquired i j max_pkt_burst w ∙ ap (λ l. acquired w ++ l) (nil_of_length _ e),
    rx_released i j max_pkt_burst w ∙ sym (append-nil _),
  )

  forward_one-Balanced :
      (i j : ℕ) (s : PortState) (w : World)
      → IsServed s (s.fwd i j)
      → Balanced s w (forward_one eth i j (s, w))
  unfolding forward_one
  forward_one-Balanced i j s w served = elim (Bool-cases (e.in_port_id == port_reset)) [
    | inl a ↦ rw a (refl, refl, Passed-refl eth w)
    | inr a ↦ elim (Bool-cases (e.out_port_id == port_reset)) [
      | inl b ↦ rw (a, b) (refl, refl, Passed-refl eth w)
      | inr b ↦ elim (Bool-cases (length (rx_burst i j max_pkt_burst w).0 == 0)) [
        | inl c ↦
            rw (a, b, served.0 (ground arith), c)
              (refl, refl, empty-Passed i j w ((==_iff _ 0).0 c))
        | inr c ↦
            rw (a, b, served.0 (ground arith), c, served.1 (ground arith))
              (sent.0, sent.1, received-Passed i j e.out_port_id e.out_queue_id counted w)
      ]
    ]
  ]
    where
      e : Port
      e = s.fwd i j

      r : List ℕ × World
      r = rx_burst i j max_pkt_burst w

      counted : PortState
      counted = count_rx i (length r.0) s

      sent :
          ((send_burst eth e.out_port_id e.out_queue_id r.0 counted r.1).0.fwd ≡ s.fwd)
          × ((send_burst eth e.out_port_id e.out_queue_id r.0 counted r.1).0.port_map ≡ s.port_map)
      sent = send_burst_tables e.out_port_id e.out_queue_id r.0 counted r.1

  step-Balanced :
      (s : PortState) (w : World) (f : PortState × World → Option (PortState × World))
      → ((t : PortState) (v : World)
          → t.fwd ≡ s.fwd
          → t.port_map ≡ s.port_map
          → Balanced t v (f (t, v)))
      → (o : Option (PortState × World)) → Balanced s w o
      → Balanced s w (and_then eth f o)
  step-Balanced s w f keep none b = b
  step-Balanced s w f keep (some (t, v)) b = widen (f (t, v)) (keep t v b.0 b.1)
    where
      widen : (o : Option (PortState × World)) → Balanced t v o → Balanced s w o
      widen none c = c
      widen (some (u, x)) c = (c.0 ∙ b.0, c.1 ∙ b.1, Passed-trans eth w v x b.2 c.2)

  queues_eq :
      (s t : PortState)
      → t.port_map ≡ s.port_map
      → (i : ℕ) → get_port_max_queues t i ≡ get_port_max_queues s i
  unfolding get_port_max_queues
  queues_eq s t e i = rw e

  module _ (n m : ℕ) where
    forward_queues-Balanced :
        (i : ℕ) (s : PortState) (w : World)
        → i < n
        → IsWired n m s
        → FitsQueues m s
        → Balanced s w (forward_queues eth i (s, w))
    unfolding forward_queues
    forward_queues-Balanced i s w hi wired fits =
        for_from_inv (λ _ o. Balanced s w o) (λ j. and_then eth (forward_one eth i j))
          (get_port_max_queues s i) 0 (some (s, w))
          (λ j o _ hj b.
            step-Balanced s w (forward_one eth i j)
              (λ t v ef em.
                forward_one-Balanced i j t v
                  (IsServed-eq i j s t ef (wired i j hi (omega (arith, fits i)))))
              o b)
          (refl, refl, Passed-refl eth w)

    forward-Balanced :
        (s : PortState) (w : World)
        → IsWired n m s
        → FitsQueues m s
        → Balanced s w (forward eth n (s, w))
    unfolding forward
    forward-Balanced s w wired fits =
        for_from_inv (λ _ o. Balanced s w o) (λ i. and_then eth (forward_queues eth i)) n 0
          (some (s, w))
          (λ i o _ hi b.
            step-Balanced s w (forward_queues eth i)
              (λ t v ef em.
                forward_queues-Balanced i t v (omega arith) (IsWired-eq n m s t ef wired)
                  (λ k. omega (arith, queues_eq s t em k, fits k)))
              o b)
          (refl, refl, Passed-refl eth w)

  -- On a wired array whose ports have at most `m` queues, a pass of `forward` over `n` ports ends
  -- without a call through an unset function pointer, leaves the array and the ports as they are, and
  -- gives every mbuf that it receives back exactly once, in the order of reception: to a device or to
  -- the pool.
  pub forward_total :
      (n m : ℕ) (s : PortState) (w : World)
      → IsWired n m s
      → FitsQueues m s
      → (t : PortState) × (v : World) × (forward eth n (s, w) ≡ some (t, v))
        × (t.fwd ≡ s.fwd)
        × (t.port_map ≡ s.port_map)
        × Passed eth w v
  forward_total n m s w wired fits =
      out (forward eth n (s, w)) refl (forward-Balanced n m s w wired fits)
    where
      out :
          (o : Option (PortState × World))
          → forward eth n (s, w) ≡ o
          → Balanced s w o
          → (t : PortState) × (v : World) × (forward eth n (s, w) ≡ some (t, v))
            × (t.fwd ≡ s.fwd)
            × (t.port_map ≡ s.port_map)
            × Passed eth w v
      out none e b = absurd b
      out (some (t, v)) e b = (t, v, e, b.0, b.1, b.2)
