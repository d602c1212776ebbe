-- ===== src/PortManager/Remove.antt =====
-- `forward_array_remove` of src/shared/port_manager.c: which entries it closes. Its loop stops at the
-- first entry that is in use or that forwards to the removed queue.
use spp_tmp.Base.{
  ℕ, zero, suc, ◌+◌, ◌≤◌, ◌<◌, ◌≡◌, ◌≢◌, refl, true, false, ◌⊎◌, ◌&&◌, ◌==◌, if◌then◌else◌, arith,
  ℕ_discrete,
}
use spp_tmp.PortManager.{
  PortState, Port, port_reset, set_fwd, passes_over, remove_queue, remove_port,
  forward_array_remove, forward_array_init_one, get_port_max_queues, reset_port,
}
use spp_tmp.PortManager.Wired.{fwd-set_fwd, IsClear}

abbrev pub close_out : ℕ → ℕ → PortState → PortState
close_out i j s = set_fwd i j (record (s.fwd i j) { out_port_id = port_reset }) s

module _ (p q : ℕ) where
  abbrev Passes : PortState → ℕ → ℕ → Type 0
  Passes s i j = passes_over p q (s.fwd i j) ≡ true

  remove_queue_none :
      (i r j : ℕ) (s : PortState)
      → ((b : ℕ) → j ≤ b → b < j + r → Passes s i b)
      → remove_queue p q i r j s ≡ (s, false)
  unfolding remove_queue
  remove_queue_none i zero j s all = refl
  remove_queue_none i (suc r) j s all =
      rw (all j (omega arith) (omega arith))
        (remove_queue_none i r (j + 1) s (λ b lo hi. all b (omega arith) (omega arith)))

  -- `t` is the first entry of the row that is not passed over.
  remove_queue_found :
      (i r j t : ℕ) (s : PortState)
      → j ≤ t
      → t < j + r
      → ((b : ℕ) → j ≤ b → b < t → Passes s i b)
      → passes_over p q (s.fwd i t) ≡ false
      → remove_queue p q i r j s ≡ (close_out i t s, true)
  unfolding remove_queue
  remove_queue_found i zero j t s lo hi before stop = absurd (omega arith)
  remove_queue_found i (suc r) j t s lo hi before stop = elim (ℕ_discrete j t) [
    | yes e ↦ rw (e, stop)
    | no e ↦ rw (before j (omega arith) (omega arith)) (
        remove_queue_found i r (j + 1) t s (omega arith) (omega arith)
          (λ b blo bhi. before b (omega arith) bhi) stop)
  ]

  remove_port_none :
      (r i : ℕ) (s : PortState)
      → ((a b : ℕ) → i ≤ a → a < i + r → b < get_port_max_queues s a → Passes s a b)
      → remove_port p q r i s ≡ s
  unfolding remove_port
  remove_port_none zero i s all = refl
  remove_port_none (suc r) i s all =
      rw
        (remove_queue_none i (get_port_max_queues s i) 0 s
          (λ b _ hb. all i b (omega arith) (omega arith) (omega arith)))
        (remove_port_none r (i + 1) s (λ a b lo hi hb. all a b (omega arith) (omega arith) hb))

  -- The entry of port `c` and queue `t` is the first that is not passed over.
  remove_port_found :
      (r i c t : ℕ) (s : PortState)
      → i ≤ c
      → c < i + r
      → t < get_port_max_queues s c
      → ((a b : ℕ) → i ≤ a → a < c → b < get_port_max_queues s a → Passes s a b)
      → ((b : ℕ) → b < t → Passes s c b)
      → passes_over p q (s.fwd c t) ≡ false
      → remove_port p q r i s ≡ close_out c t s
  unfolding remove_port
  remove_port_found zero i c t s lo hi ht rows row stop = absurd (omega arith)
  remove_port_found (suc r) i c t s lo hi ht rows row stop = elim (ℕ_discrete i c) [
    | yes e ↦ rw (
      e,
      remove_queue_found c (get_port_max_queues s c) 0 t s (omega arith) (omega arith)
          (λ b _ hb. row b hb) stop,
    )
    | no e ↦
        rw
          (remove_queue_none i (get_port_max_queues s i) 0 s
            (λ b _ hb. rows i b (omega arith) (omega arith) (omega arith)))
          (remove_port_found r (i + 1) c t s (omega arith) (omega arith) ht
            (λ a b alo ahi hb. rows a b (omega arith) ahi hb) row stop)
  ]

-- An entry that is not in use and does not forward to the queue `q` of port `p`.
abbrev pub IsIdle : ℕ → ℕ → Port → Type 0
IsIdle p q e = (e.in_port_id ≡ port_reset) × (e.out_port_id ≡ p → e.out_queue_id ≢ q)

-- An entry that is in use, or that forwards there.
abbrev pub IsHit : ℕ → ℕ → Port → Type 0
IsHit p q e = (e.in_port_id ≢ port_reset) ⊎ ((e.out_port_id ≡ p) × (e.out_queue_id ≡ q))

idle-passes_over : (p q : ℕ) (e : Port) → IsIdle p q e → passes_over p q e ≡ true
unfolding passes_over
idle-passes_over p q e (a, b) = elim (ℕ_discrete e.out_port_id p) [
  | yes z ↦ let ne = b z in ground arith
  | no ne ↦ ground arith
]

hit-passes_over : (p q : ℕ) (e : Port) → IsHit p q e → passes_over p q e ≡ false
unfolding passes_over
hit-passes_over p q e h = ground arith

remove_first_stop :
    (n p q c t : ℕ) (s : PortState)
    → let u = forward_array_init_one p q s in
      c < n
      → t < get_port_max_queues u c
      → ((a b : ℕ) → a < c → b < get_port_max_queues u a → passes_over p q (u.fwd a b) ≡ true)
      → ((b : ℕ) → b < t → passes_over p q (u.fwd c b) ≡ true)
      → passes_over p q (u.fwd c t) ≡ false
      → forward_array_remove n p q s ≡ close_out c t u
unfolding forward_array_remove
remove_first_stop n p q c t s hc ht rows row stop =
    remove_port_found p q n 0 c t (forward_array_init_one p q s) (omega arith) (omega arith) ht
      (λ a b _ ha hb. rows a b ha hb) row stop

-- What `forward_array_remove` does, in full: it clears the entry of the removed queue, and closes the
-- output of the first other entry, in the order of the array, that is in use or that forwards to the
-- removed queue. It closes that one alone.
pub forward_array_remove_first :
    (n p q c t : ℕ) (s : PortState)
    → let u = forward_array_init_one p q s in
      c < n
      → t < get_port_max_queues u c
      → ((a b : ℕ) → a < c → b < get_port_max_queues u a → IsIdle p q (u.fwd a b))
      → ((b : ℕ) → b < t → IsIdle p q (u.fwd c b))
      → IsHit p q (u.fwd c t)
      → forward_array_remove n p q s ≡ close_out c t u
forward_array_remove_first n p q c t s hc ht rows row stop =
    let u = forward_array_init_one p q s in
    remove_first_stop n p q c t s hc ht
      (λ a b ha hb. idle-passes_over p q (u.fwd a b) (rows a b ha hb))
      (λ b hb. idle-passes_over p q (u.fwd c b) (row b hb)) (hit-passes_over p q (u.fwd c t) stop)

pub forward_array_remove_none :
    (n p q : ℕ) (s : PortState)
    → let u = forward_array_init_one p q s in
      ((a b : ℕ) → a < n → b < get_port_max_queues u a → passes_over p q (u.fwd a b) ≡ true)
      → forward_array_remove n p q s ≡ u
unfolding forward_array_remove
forward_array_remove_none n p q s all =
    remove_port_none p q n 0 (forward_array_init_one p q s)
      (λ a b _ ha hb. all a b (omega arith) hb)

init_one_fwd :
    (p q a b : ℕ) (s : PortState)
    → (forward_array_init_one p q s).fwd a b
      ≡ (if (a == p) && (b == q) then reset_port (s.fwd p q) else s.fwd a b)
unfolding forward_array_init_one
init_one_fwd p q a b s = fwd-set_fwd p q (reset_port (s.fwd p q)) s a b

init_one_queues :
    (p q i : ℕ) (s : PortState)
    → get_port_max_queues (forward_array_init_one p q s) i ≡ get_port_max_queues s i
unfolding forward_array_init_one get_port_max_queues set_fwd
init_one_queues p q i s = refl

clear-passes_over :
    (p q a b : ℕ) (s : PortState)
    → p ≢ port_reset
    → IsClear (s.fwd a b)
    → passes_over p q ((forward_array_init_one p q s).fwd a b) ≡ true
unfolding passes_over
clear-passes_over p q a b s hp c = ground (arith, init_one_fwd p q a b s)

-- The removal of a port drops a patch between two other ports: the patch of the first entry in use is
-- closed, wherever it leads, and a later entry `(a, b)`, even one that forwards to the removed queue,
-- stays as it was.
pub remove_drops_other :
    (n p q c t a b : ℕ) (s : PortState)
    → p ≢ port_reset
    → c < n
    → t < get_port_max_queues s c
    → ((i j : ℕ) → i < c → j < get_port_max_queues s i → IsClear (s.fwd i j))
    → ((j : ℕ) → j < t → IsClear (s.fwd c j))
    → (s.fwd c t).in_port_id ≢ port_reset
    → c ≢ p
    → a ≢ p
    → a ≢ c
    → let r = forward_array_remove n p q s in
      ((r.fwd c t).out_port_id ≡ port_reset) × (r.fwd a b ≡ s.fwd a b)
unfolding passes_over
remove_drops_other n p q c t a b s hp hc ht rows row in_use hcp hap hac =
    let e =
      remove_first_stop n p q c t s hc (omega (arith, init_one_queues p q c s))
        (λ i j hi hj.
          clear-passes_over p q i j s hp (rows i j hi (omega (arith, init_one_queues p q i s))))
        (λ j hj. clear-passes_over p q c j s hp (row j hj))
        (ground (arith, init_one_fwd p q c t s)) in
    let u = forward_array_init_one p q s in
    rw e (
      ground (arith, fwd-set_fwd c t (record (u.fwd c t) { out_port_id = port_reset }) u c t),
      ground (
        arith,
        fwd-set_fwd c t (record (u.fwd c t) { out_port_id = port_reset }) u a b,
        init_one_fwd p q a b s,
      ),
    )
