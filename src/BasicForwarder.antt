-- ===== src/BasicForwarder.antt =====
-- src/shared/basic_forwarder.c: one pass over all entries of
-- `ports_fwd_array`.
pub mod Conserve
pub mod Count
use spp_tmp.Base.{
  ℕ, zero, suc, ◌+◌, ◌-◌, ◌%◌, ◌^◌, Bool, true, false, Option, none, some, List, [], ◌∷◌, ltb, ◌==◌,
  if◌then◌else◌, update, for_from, length, drop,
}
use spp_tmp.Ethdev.{Ethdev, free_all}
use spp_tmp.PortManager.{PortState, Port, PortMap, Stats, port_reset, get_port_max_queues}

abbrev pub max_pkt_burst : ℕ
max_pkt_burst = 32

-- `uint64_t` addition
abbrev pub add64 : ℕ → ℕ → ℕ
add64 a b = (a + b) % 2 ^ 64

-- The counters that the entry `i` of `port_map` points to.
abbrev pub stats_at : PortState → ℕ → Stats
stats_at s i = s.stats_mem (s.port_map i).stats

abbrev pub set_stats : ℕ → Stats → PortState → PortState
set_stats i v s = record s { stats_mem = update s.stats_mem (s.port_map i).stats v }

abbrev pub count_rx : ℕ → ℕ → PortState → PortState
count_rx i n s = set_stats i (record (stats_at s i) { rx = add64 (stats_at s i).rx n }) s

abbrev pub count_tx : ℕ → ℕ → PortState → PortState
count_tx i n s = set_stats i (record (stats_at s i) { tx = add64 (stats_at s i).tx n }) s

abbrev pub count_drop : ℕ → ℕ → PortState → PortState
count_drop i n s =
    set_stats i (record (stats_at s i) { tx_drop = add64 (stats_at s i).tx_drop n }) s

module _ (eth : Ethdev) where
  open eth use {World, rx_burst, tx_burst}

  -- The part after the reception: transmit, count, free what is left.
  pub send_burst : ℕ → ℕ → List ℕ → PortState → World → PortState × World
  send_burst op oq bufs s w =
      let (nb_tx, w') = tx_burst op oq bufs w in
      let s' = count_tx op nb_tx s in
      if ltb nb_tx (length bufs)
      then (count_drop op (length bufs - nb_tx) s', free_all eth (drop nb_tx bufs) w')
      else (s', w')

  -- One entry. `none` is a call through a function pointer that was never set.
  pub forward_one : ℕ → ℕ → PortState × World → Option (PortState × World)
  forward_one i j (s, w) =
      let e = s.fwd i j in
      if e.in_port_id == port_reset
      then some (s, w)
      else if e.out_port_id == port_reset
      then some (s, w)
      else if e.has_funcs
      then (let (bufs, w') = rx_burst i j max_pkt_burst w in
          if length bufs == 0
          then some (s, w')
          else if (s.fwd e.out_port_id e.out_queue_id).has_funcs
          then some (send_burst e.out_port_id e.out_queue_id bufs (count_rx i (length bufs) s) w')
          else none)
      else none

  abbrev pub and_then :
      (PortState × World → Option (PortState × World))
      → Option (PortState × World)
      → Option (PortState × World)
  and_then f none = none
  and_then f (some sw) = f sw

  pub forward_queues : ℕ → PortState × World → Option (PortState × World)
  forward_queues i (s, w) =
      for_from (get_port_max_queues s i) 0 (λ j. and_then (forward_one i j)) (some (s, w))

  pub forward : ℕ → PortState × World → Option (PortState × World)
  forward max_ethports sw = for_from max_ethports 0 (λ i. and_then (forward_queues i)) (some sw)
