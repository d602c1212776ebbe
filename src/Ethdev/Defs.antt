-- ===== src/Ethdev/Defs.antt =====
-- The interface: `rte_eth_rx_burst`, `rte_eth_tx_burst`, `rte_pktmbuf_*`, `rte_net_crc_calc`.
use spp_tmp.Base.{
  ℕ, ◌≤◌, ◌≡◌, ◌≢◌, Option, some, List, [], ◌∷◌, ◌++◌, length, take, drop, replicate,
}

-- The laws are the documented behaviour of the functions.
pub record Ethdev : Type 1 where
  pub World : Type 0
  pub acquired : World → List ℕ
  pub released : World → List ℕ
  -- the bytes of an mbuf, from its data offset on
  pub frame : ℕ → World → List ℕ
  -- port, queue and the room in the buffer
  pub rx_burst : ℕ → ℕ → ℕ → World → List ℕ × World
  -- the result is the number of mbufs that the device took over, from the front
  pub tx_burst : ℕ → ℕ → List ℕ → World → ℕ × World
  pub pktmbuf_free : ℕ → World → World
  -- a positive change of the count
  pub refcnt_update : ℕ → ℕ → World → World
  -- stores through a pointer into the data, and behind it
  pub set_frame : ℕ → List ℕ → World → World
  pub set_tail : ℕ → ℕ → World → World
  -- `none` is NULL: no headroom, or too few bytes
  pub prepend : ℕ → ℕ → World → Option World
  pub adj : ℕ → ℕ → World → Option World
  pub net_crc : List ℕ → ℕ
  pub rx_len : (p q n : ℕ) (w : World) → length (rx_burst p q n w).0 ≤ n
  pub rx_acquired :
      (p q n : ℕ) (w : World) → acquired (rx_burst p q n w).1 ≡ acquired w ++ (rx_burst p q n w).0
  pub rx_released : (p q n : ℕ) (w : World) → released (rx_burst p q n w).1 ≡ released w
  pub tx_len : (p q : ℕ) (b : List ℕ) (w : World) → (tx_burst p q b w).0 ≤ length b
  pub tx_acquired : (p q : ℕ) (b : List ℕ) (w : World) → acquired (tx_burst p q b w).1 ≡ acquired w
  pub tx_released :
      (p q : ℕ) (b : List ℕ) (w : World)
      → released (tx_burst p q b w).1 ≡ released w ++ take (tx_burst p q b w).0 b
  pub free_acquired : (m : ℕ) (w : World) → acquired (pktmbuf_free m w) ≡ acquired w
  pub free_released : (m : ℕ) (w : World) → released (pktmbuf_free m w) ≡ released w ++ (m ∷ [])
  pub refcnt_acquired :
      (m k : ℕ) (w : World) → acquired (refcnt_update m k w) ≡ acquired w ++ replicate k m
  pub refcnt_released : (m k : ℕ) (w : World) → released (refcnt_update m k w) ≡ released w
  pub frame-set_frame : (m : ℕ) (b : List ℕ) (w : World) → frame m (set_frame m b w) ≡ b
  pub frame-set_frame_ne :
      (m n : ℕ) (b : List ℕ) (w : World) → n ≢ m → frame n (set_frame m b w) ≡ frame n w
  pub frame-set_tail : (m n c : ℕ) (w : World) → frame n (set_tail m c w) ≡ frame n w
  -- the new bytes in front are whatever the headroom held
  pub prepend_frame :
      (m n : ℕ) (w : World) {v : World}
      → prepend m n w ≡ some v
      → (pad : List ℕ) × (length pad ≡ n) × (frame m v ≡ pad ++ frame m w)
  pub adj_frame :
      (m n : ℕ) (w : World) {v : World} → adj m n w ≡ some v → frame m v ≡ drop n (frame m w)
  pub adj_some : (m n : ℕ) (w : World) → n ≤ length (frame m w) → (v : World) × (adj m n w ≡ some v)
  pub set_frame_acquired :
      (m : ℕ) (b : List ℕ) (w : World) → acquired (set_frame m b w) ≡ acquired w
  pub set_frame_released :
      (m : ℕ) (b : List ℕ) (w : World) → released (set_frame m b w) ≡ released w
  pub set_tail_acquired : (m c : ℕ) (w : World) → acquired (set_tail m c w) ≡ acquired w
  pub set_tail_released : (m c : ℕ) (w : World) → released (set_tail m c w) ≡ released w
  pub prepend_acquired :
      (m n : ℕ) (w : World) {v : World} → prepend m n w ≡ some v → acquired v ≡ acquired w
  pub prepend_released :
      (m n : ℕ) (w : World) {v : World} → prepend m n w ≡ some v → released v ≡ released w
  pub adj_acquired :
      (m n : ℕ) (w : World) {v : World} → adj m n w ≡ some v → acquired v ≡ acquired w
  pub adj_released :
      (m n : ℕ) (w : World) {v : World} → adj m n w ≡ some v → released v ≡ released w
