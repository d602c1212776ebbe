-- ===== src/BasicForwarder/Count.antt =====
-- One entry of `forward` of src/shared/basic_forwarder.c: where its packets go, and what it counts.
use spp_tmp.Base.{
  ℕ, ◌-◌, ◌<◌, ◌^◌, ◌≡◌, ◌≢◌, refl, true, some, List, length, drop, ltb, arith, Bool-cases, inl,
  inr, ==_ne, ap, ◌∙◌,
}
use spp_tmp.Ethdev.{Ethdev, free_all, free_rest}
use spp_tmp.PortManager.{PortState, Port, port_reset}
use spp_tmp.BasicForwarder.{max_pkt_burst, add64, count_rx, send_burst, forward_one, stats_at}

module _ (eth : Ethdev) where
  open eth use {World, rx_burst, tx_burst, tx_len}

  send_burst_counts :
      (op oq : ℕ) (bufs : List ℕ) (s : PortState) (w : World)
      → (stats_at s op).tx_drop < 2 ^ 64
      → let r = send_burst eth op oq bufs s w in
        let k = (tx_burst op oq bufs w).0 in
        ((stats_at r.0 op).tx ≡ add64 (stats_at s op).tx k)
        × ((stats_at r.0 op).tx_drop ≡ add64 (stats_at s op).tx_drop (length bufs - k))
        × ((i : ℕ) → (stats_at r.0 i).rx ≡ (stats_at s i).rx)
        × (r.1 ≡ free_all eth (drop k bufs) (tx_burst op oq bufs w).1)
  unfolding send_burst
  send_burst_counts op oq bufs s w h =
      let k = (tx_burst op oq bufs w).0 in
      elim (Bool-cases (ltb (tx_burst op oq bufs w).0 (length bufs))) [
        | inl e ↦ rw e (ground arith, ground arith, λ i. ground arith, refl)
        | inr e ↦ rw e (
          ground arith,
          ground (arith, tx_len op oq bufs w),
          λ i. ground arith,
          rw e at (free_rest eth (tx_burst op oq bufs w).0 bufs (tx_burst op oq bufs w).1),
        )
      ]

  -- An entry in use that forwards to a queue with functions sends what it receives there, frees what
  -- the device does not take, and counts the received, the sent and the dropped mbufs.
  pub forward_one_moves :
      (i j : ℕ) (s : PortState) (w : World)
      → let e = s.fwd i j in
        let r = rx_burst i j max_pkt_burst w in
        let sent = tx_burst e.out_port_id e.out_queue_id r.0 r.1 in
        e.in_port_id ≢ port_reset
        → e.out_port_id ≢ port_reset
        → e.has_funcs ≡ true
        → (s.fwd e.out_port_id e.out_queue_id).has_funcs ≡ true
        → length r.0 ≢ 0
        → (stats_at s e.out_port_id).tx_drop < 2 ^ 64
        → (t : PortState) × (forward_one eth i j (s, w)
            ≡ some (t, free_all eth (drop sent.0 r.0) sent.1))
          × ((stats_at t i).rx ≡ add64 (stats_at s i).rx (length r.0))
          × ((stats_at t e.out_port_id).tx ≡ add64 (stats_at s e.out_port_id).tx sent.0)
          × ((stats_at t e.out_port_id).tx_drop
              ≡ add64 (stats_at s e.out_port_id).tx_drop (length r.0 - sent.0))
  unfolding forward_one
  forward_one_moves i j s w hin hout has has' ne h = (
    t.0,
    rw (==_ne _ _ hin, ==_ne _ _ hout, has, ==_ne _ _ ne, has') (ap (λ v. some (t.0, v)) c.3),
    c.2 i ∙ ground arith,
    c.0 ∙ ground arith,
    c.1 ∙ ground arith,
  )
    where
      e : Port
      e = s.fwd i j

      r : List ℕ × World
      r = rx_burst i j max_pkt_burst w

      s' : PortState
      s' = count_rx i (length r.0) s

      t : PortState × World
      t = send_burst eth e.out_port_id e.out_queue_id r.0 s' r.1

      c :
          ((stats_at t.0 e.out_port_id).tx
            ≡ add64
                (stats_at s' e.out_port_id).tx
                (tx_burst e.out_port_id e.out_queue_id r.0 r.1).0)
          × ((stats_at t.0 e.out_port_id).tx_drop
              ≡ add64
                  (stats_at s' e.out_port_id).tx_drop
                  (length r.0 - (tx_burst e.out_port_id e.out_queue_id r.0 r.1).0))
          × ((k : ℕ) → (stats_at t.0 k).rx ≡ (stats_at s' k).rx)
          × (t.1
              ≡ free_all eth
                  (drop (tx_burst e.out_port_id e.out_queue_id r.0 r.1).0 r.0)
                  (tx_burst e.out_port_id e.out_queue_id r.0 r.1).1)
      c = send_burst_counts e.out_port_id e.out_queue_id r.0 s' r.1 (ground arith)
