-- ===== src/Ethdev/Sim.antt =====
-- A device in memory, which meets the laws of the interface: it hands out what is pending, and takes
-- at most `limit` mbufs of a burst.
use spp_tmp.Base.{
  ℕ, ◌-◌, ◌≤◌, ◌≡◌, refl, Option, none, some, List, [], ◌∷◌, ◌++◌, length, take, drop, replicate,
  length-take, arith, if◌then◌else◌, leb, update, update_self, update_ne,
}
use Prim.Native.Nat.{min}
use spp_tmp.Ethdev.Defs.{Ethdev}

pub record Medium : Type 0 where
  pub acquired : List ℕ
  pub released : List ℕ
  pub pending : ℕ → List ℕ
  pub limit : ℕ
  pub frames : ℕ → List ℕ
  pub headroom : ℕ → ℕ

abbrev pub rx_burst : ℕ → ℕ → ℕ → Medium → List ℕ × Medium
rx_burst p q n w = (
  take n (w.pending p),
  record w {
    acquired = w.acquired ++ take n (w.pending p);
    pending = update w.pending p (drop n (w.pending p));
  },
)

abbrev pub tx_burst : ℕ → ℕ → List ℕ → Medium → ℕ × Medium
tx_burst p q b w =
    (min w.limit (length b), record w { released = w.released ++ take (min w.limit (length b)) b })

abbrev pub prepend : ℕ → ℕ → Medium → Option Medium
prepend m n w =
    if leb n (w.headroom m)
    then some (record w {
      frames = update w.frames m (replicate n 0 ++ w.frames m);
      headroom = update w.headroom m (w.headroom m - n);
    })
    else none

abbrev pub adj : ℕ → ℕ → Medium → Option Medium
adj m n w =
    if leb n (length (w.frames m))
    then some (record w { frames = update w.frames m (drop n (w.frames m)) })
    else none

length-replicate {ℓ} : {A : Type ℓ} (n : ℕ) (a : A) → length (replicate n a) ≡ n
length-replicate ℕ.zero a = refl
length-replicate (ℕ.suc n) a = omega (arith, length-replicate n a)

pub prepend_frame :
    (m n : ℕ) (w : Medium) {v : Medium}
    → prepend m n w ≡ some v
    → (pad : List ℕ) × (length pad ≡ n) × (v.frames m ≡ pad ++ w.frames m)
prepend_frame m n w {v} e = (replicate n 0, length-replicate n 0, ground arith)

pub adj_frame :
    (m n : ℕ) (w : Medium) {v : Medium} → adj m n w ≡ some v → v.frames m ≡ drop n (w.frames m)
adj_frame m n w e = ground arith

pub adj_some :
    (m n : ℕ) (w : Medium) → n ≤ length (w.frames m) → (v : Medium) × (adj m n w ≡ some v)
adj_some m n w h = (record w { frames = update w.frames m (drop n (w.frames m)) }, ground arith)

pub prepend_acquired :
    (m n : ℕ) (w : Medium) {v : Medium} → prepend m n w ≡ some v → v.acquired ≡ w.acquired
prepend_acquired m n w e = ground arith

pub prepend_released :
    (m n : ℕ) (w : Medium) {v : Medium} → prepend m n w ≡ some v → v.released ≡ w.released
prepend_released m n w e = ground arith

pub adj_acquired :
    (m n : ℕ) (w : Medium) {v : Medium} → adj m n w ≡ some v → v.acquired ≡ w.acquired
adj_acquired m n w e = ground arith

pub adj_released :
    (m n : ℕ) (w : Medium) {v : Medium} → adj m n w ≡ some v → v.released ≡ w.released
adj_released m n w e = ground arith

pub rx_len : (p q n : ℕ) (w : Medium) → length (rx_burst p q n w).0 ≤ n
rx_len p q n w = omega (arith, length-take n (w.pending p))

pub tx_len : (p q : ℕ) (b : List ℕ) (w : Medium) → (tx_burst p q b w).0 ≤ length b
tx_len p q b w = omega arith

abbrev pub sim : Ethdev
sim = record {
  World = Medium;
  acquired = λ w. w.acquired;
  released = λ w. w.released;
  frame = λ m w. w.frames m;
  rx_burst = rx_burst;
  tx_burst = tx_burst;
  pktmbuf_free = λ m w. record w { released = w.released ++ m ∷ [] };
  refcnt_update = λ m k w. record w { acquired = w.acquired ++ replicate k m };
  set_frame = λ m b w. record w { frames = update w.frames m b };
  set_tail = λ m c w. w;
  prepend = prepend;
  adj = adj;
  net_crc = λ b. length b;
  rx_len = rx_len;
  rx_acquired = λ p q n w. refl;
  rx_released = λ p q n w. refl;
  tx_len = tx_len;
  tx_acquired = λ p q b w. refl;
  tx_released = λ p q b w. refl;
  free_acquired = λ m w. refl;
  free_released = λ m w. refl;
  refcnt_acquired = λ m k w. refl;
  refcnt_released = λ m k w. refl;
  frame-set_frame = λ m b w. update_self w.frames m b;
  frame-set_frame_ne = λ m n b w h. update_ne w.frames m n b h;
  frame-set_tail = λ m n c w. refl;
  prepend_frame = prepend_frame;
  adj_frame = adj_frame;
  adj_some = adj_some;
  set_frame_acquired = λ m b w. refl;
  set_frame_released = λ m b w. refl;
  set_tail_acquired = λ m c w. refl;
  set_tail_released = λ m c w. refl;
  prepend_acquired = prepend_acquired;
  prepend_released = prepend_released;
  adj_acquired = adj_acquired;
  adj_released = adj_released;
}

-- Nothing pending, empty frames.
abbrev pub start : Medium
start = record {
  acquired = [];
  released = [];
  pending = λ p. [];
  limit = 32;
  frames = λ m. [];
  headroom = λ m. 128;
}
