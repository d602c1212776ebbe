-- ===== src/PortManager/Wired.antt =====
-- The invariant of `ports_fwd_array` on which `forward` rests, and the functions that keep it.
use spp_tmp.Base.{
  ℕ, zero, suc, ◌+◌, ◌≤◌, ◌<◌, ◌≡◌, ◌≢◌, true, ◌&&◌, inl, inr, ◌==◌, if◌then◌else◌, arith,
  Bool-cases, for_from, for_from_inv, ℕ_discrete,
}
use spp_tmp.PortManager.{
  PortState, Port, port_reset, set_fwd, reset_port, forward_array_init_one, forward_array_init,
  forward_array_reset, reset_out, forward_array_remove, remove_port, remove_queue,
  get_port_max_queues, passes_over,
}

-- If the entry `p` forwards, it is served through functions that are set, and so is the entry that it
-- forwards to.
abbrev pub IsServed : PortState → Port → Type 0
IsServed s p =
    (p.out_port_id ≢ port_reset → p.has_funcs ≡ true)
    × (p.out_port_id ≢ port_reset → (s.fwd p.out_port_id p.out_queue_id).has_funcs ≡ true)

-- Every entry of the array of `n` ports with `m` queues is served.
abbrev pub IsWired : ℕ → ℕ → PortState → Type 0
IsWired n m s = (i j : ℕ) → i < n → j < m → IsServed s (s.fwd i j)

pub fwd-set_fwd :
    (i j : ℕ) (p : Port) (s : PortState) (a b : ℕ)
    → (set_fwd i j p s).fwd a b ≡ (if (a == i) && (b == j) then p else s.fwd a b)
unfolding set_fwd
fwd-set_fwd i j p s a b = ground arith

pub has_funcs-set_fwd :
    (i j : ℕ) (p : Port) (s : PortState)
    → ((s.fwd i j).has_funcs ≡ true → p.has_funcs ≡ true)
    → (a b : ℕ) → (s.fwd a b).has_funcs ≡ true
    → ((set_fwd i j p s).fwd a b).has_funcs ≡ true
has_funcs-set_fwd i j p s up a b h = ground (arith, fwd-set_fwd i j p s a b)

pub set_fwd-IsWired :
    (n m i j : ℕ) (p : Port) (s : PortState)
    → IsWired n m s
    → ((s.fwd i j).has_funcs ≡ true → p.has_funcs ≡ true)
    → (i < n → j < m → IsServed (set_fwd i j p s) p)
    → IsWired n m (set_fwd i j p s)
set_fwd-IsWired n m i j p s wired up served a b ha hb = elim (Bool-cases ((a == i) && (b == j))) [
  | inl e ↦ rw (fwd-set_fwd i j p s a b, e) (served (ground arith) (ground arith))
  | inr e ↦
      rw (fwd-set_fwd i j p s a b, e)
        ((wired a b ha hb).0, λ h. has_funcs-set_fwd i j p s up _ _ ((wired a b ha hb).1 h))
]

-- No port has more queues than the array has.
abbrev pub FitsQueues : ℕ → PortState → Type 0
FitsQueues m s = (i : ℕ) → get_port_max_queues s i ≤ m

pub set_fwd-FitsQueues :
    (m i j : ℕ) (p : Port) (s : PortState) → FitsQueues m s → FitsQueues m (set_fwd i j p s)
unfolding get_port_max_queues set_fwd
set_fwd-FitsQueues m i j p s fits = fits

forward_array_init_one-FitsQueues :
    (m i j : ℕ) (s : PortState) → FitsQueues m s → FitsQueues m (forward_array_init_one i j s)
unfolding forward_array_init_one
forward_array_init_one-FitsQueues m i j s = set_fwd-FitsQueues m i j (reset_port (s.fwd i j)) s

pub forward_array_init_one-IsWired :
    (n m i j : ℕ) (s : PortState) → IsWired n m s → IsWired n m (forward_array_init_one i j s)
unfolding forward_array_init_one
forward_array_init_one-IsWired n m i j s wired =
    set_fwd-IsWired n m i j (reset_port (s.fwd i j)) s wired (λ h. h) (λ _ _. ground arith)

-- Closing the output of an entry in range.
close_out-IsWired :
    (n m i j : ℕ) (s : PortState)
    → i < n
    → j < m
    → IsWired n m s
    → IsWired n m (set_fwd i j (record (s.fwd i j) { out_port_id = port_reset }) s)
close_out-IsWired n m i j s hi hj wired =
    set_fwd-IsWired n m i j (record (s.fwd i j) { out_port_id = port_reset }) s wired (λ h. h)
      (λ _ _. (ground arith, ground arith))

abbrev pub Kept : ℕ → ℕ → PortState → Type 0
Kept n m s = IsWired n m s × FitsQueues m s

reset_out-Kept :
    (n m i j : ℕ) (s : PortState) → i < n → j < m → Kept n m s → Kept n m (reset_out i j s)
unfolding reset_out
reset_out-Kept n m i j s hi hj k = elim (Bool-cases ((s.fwd i j).in_port_id == port_reset)) [
  | inl e ↦ rw e k
  | inr e ↦ rw e (
    close_out-IsWired n m i j s hi hj k.0,
    set_fwd-FitsQueues m i j (record (s.fwd i j) { out_port_id = port_reset }) s k.1,
  )
]

pub forward_array_reset-Kept :
    (n m : ℕ) (s : PortState) → Kept n m s → Kept n m (forward_array_reset n s)
unfolding forward_array_reset
forward_array_reset-Kept n m s kept =
    for_from_inv (λ _ t. Kept n m t) (λ i t. for_from (get_port_max_queues t i) 0 (reset_out i) t) n
      0 s
      (λ i t _ hi k.
        for_from_inv (λ _ u. Kept n m u) (reset_out i) (get_port_max_queues t i) 0 t
          (λ j u _ hj ku. reset_out-Kept n m i j u (omega arith) (omega (arith, k.1 i)) ku) k)
      kept

-- If the ports have at most `m` queues, `forward_array_reset` keeps a wired array of `m` queues wired.
pub forward_array_reset-IsWired :
    (n m : ℕ) (s : PortState)
    → IsWired n m s
    → FitsQueues m s
    → IsWired n m (forward_array_reset n s)
forward_array_reset-IsWired n m s wired fits = (forward_array_reset-Kept n m s (wired, fits)).0

-- An entry as `forward_array_init_one` leaves it.
abbrev pub IsClear : Port → Type 0
IsClear p = (p.in_port_id ≡ port_reset) × (p.out_port_id ≡ port_reset)

abbrev ClearTo : ℕ → ℕ → PortState → Type 0
ClearTo n m s = (a b : ℕ) → a < n → b < m → IsClear (s.fwd a b)

init_one-ClearTo :
    (m i j : ℕ) (t : PortState)
    → ClearTo i m t
    → ((b : ℕ) → b < j → IsClear (t.fwd i b))
    → ClearTo i m (forward_array_init_one i j t)
      × ((b : ℕ) → b < j + 1 → IsClear ((forward_array_init_one i j t).fwd i b))
unfolding forward_array_init_one
init_one-ClearTo m i j t rows row = (
  λ a b ha hb. ground (arith, fwd-set_fwd i j (reset_port (t.fwd i j)) t a b, rows a b ha hb),
  λ b hb. ground (arith, fwd-set_fwd i j (reset_port (t.fwd i j)) t i b, row b),
)

init_row-ClearTo :
    (m i : ℕ) (t : PortState)
    → ClearTo i m t
    → ClearTo (i + 1) m (for_from m 0 (λ j. forward_array_init_one i j) t)
init_row-ClearTo m i t rows =
    let done =
      for_from_inv (λ j u. ClearTo i m u × ((b : ℕ) → b < j → IsClear (u.fwd i b)))
        (λ j. forward_array_init_one i j) m 0 t (λ j u _ _ k. init_one-ClearTo m i j u k.0 k.1)
        (rows, λ b h. absurd (omega arith)) in
    λ a b ha hb. elim (ℕ_discrete a i) [
      | yes e ↦ rw e (done.1 b (omega arith))
      | no e ↦ done.0 a b (omega arith) hb
    ]

-- After `forward_array_init` no entry is in use.
pub forward_array_init-IsClear :
    (n m : ℕ) (s : PortState) (a b : ℕ)
    → a < n
    → b < m
    → IsClear ((forward_array_init n m s).fwd a b)
unfolding forward_array_init
forward_array_init-IsClear n m s a b ha hb =
    for_from_inv (λ i t. ClearTo i m t) (λ i. for_from m 0 (λ j. forward_array_init_one i j)) n 0 s
      (λ i t _ _ rows. init_row-ClearTo m i t rows) (λ a b h _. absurd (omega arith)) a b
      (omega arith) hb

-- The array starts out wired.
pub forward_array_init-IsWired : (n m : ℕ) (s : PortState) → IsWired n m (forward_array_init n m s)
forward_array_init-IsWired n m s a b ha hb =
    let c = forward_array_init-IsClear n m s a b ha hb in (λ h. absurd (h c.1), λ h. absurd (h c.1))

pub set_fwd-Kept :
    (n m p q i j : ℕ) (s : PortState)
    → i < n
    → j < get_port_max_queues s i
    → Kept n m s
    → Kept n m (set_fwd i j (record (s.fwd i j) { out_port_id = port_reset }) s)
set_fwd-Kept n m p q i j s hi hj k = (
  close_out-IsWired n m i j s hi (omega (arith, k.1 i)) k.0,
  set_fwd-FitsQueues m i j (record (s.fwd i j) { out_port_id = port_reset }) s k.1,
)

remove_queue-Kept :
    (n m p q i r j : ℕ) (s : PortState)
    → i < n
    → j + r ≤ get_port_max_queues s i
    → Kept n m s
    → Kept n m (remove_queue p q i r j s).0
unfolding remove_queue
remove_queue-Kept n m p q i zero j s hi hr k = k
remove_queue-Kept n m p q i (suc r) j s hi hr k = elim (Bool-cases (passes_over p q (s.fwd i j))) [
  | inl e ↦ rw e (remove_queue-Kept n m p q i r (j + 1) s hi (omega arith) k)
  | inr e ↦ rw e (set_fwd-Kept n m p q i j s hi (omega arith) k)
]

remove_port-Kept :
    (n m p q r i : ℕ) (s : PortState) → i + r ≤ n → Kept n m s → Kept n m (remove_port p q r i s)
unfolding remove_port
remove_port-Kept n m p q zero i s hr k = k
remove_port-Kept n m p q (suc r) i s hr k =
    let kq =
      remove_queue-Kept n m p q i (get_port_max_queues s i) 0 s (omega arith) (omega arith) k in
    elim (Bool-cases (remove_queue p q i (get_port_max_queues s i) 0 s).1) [
      | inl e ↦ rw e kq
      | inr e ↦ rw e (remove_port-Kept n m p q r (i + 1) _ (omega arith) kq)
    ]

pub forward_array_remove-Kept :
    (n m p q : ℕ) (s : PortState) → Kept n m s → Kept n m (forward_array_remove n p q s)
unfolding forward_array_remove
forward_array_remove-Kept n m p q s (wired, fits) =
    remove_port-Kept n m p q n 0 (forward_array_init_one p q s) (omega arith) (
      forward_array_init_one-IsWired n m p q s wired,
      forward_array_init_one-FitsQueues m p q s fits,
    )

-- If the ports have at most `m` queues, `forward_array_remove` keeps a wired array of `m` queues wired.
pub forward_array_remove-IsWired :
    (n m p q : ℕ) (s : PortState)
    → IsWired n m s
    → FitsQueues m s
    → IsWired n m (forward_array_remove n p q s)
forward_array_remove-IsWired n m p q s wired fits =
    (forward_array_remove-Kept n m p q s (wired, fits)).0
