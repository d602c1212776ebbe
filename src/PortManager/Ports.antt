-- ===== src/PortManager/Ports.antt =====
-- Writes of src/nfv/commands.h to the tables of src/shared/port_manager.c that keep them wired.
use spp_tmp.Base.{none, ap, ◌∙◌, update, update_self, update_ne, ℕ, ◌≤◌, ◌≡◌, ℕ_discrete}
use spp_tmp.PortManager.{PortState, PortMap, set_fwd, get_port_max_queues}
use spp_tmp.PortManager.Wired.{Kept, set_fwd-IsWired, has_funcs-set_fwd, set_fwd-FitsQueues}

-- The entry of a port is written without queue information.
pub port_map-Kept :
    (n m i : ℕ) (p : PortMap) (s : PortState)
    → 1 ≤ m
    → p.queue_info ≡ none
    → Kept n m s
    → Kept n m (record s { port_map = update s.port_map i p })
unfolding get_port_max_queues
port_map-Kept n m i p s one e (wired, fits) = (
  wired,
  λ k. elim (ℕ_discrete k i) [
    | yes z ↦
        let q = ap (update s.port_map i p) z ∙ update_self s.port_map i p in
        rw (get_port_max_queues, q, e) one
    | no ne ↦ rw (get_port_max_queues, update_ne s.port_map i k p ne) (fits k)
  ],
)

-- An entry in the array is taken into use.
pub use-Kept :
    (n m i j k l : ℕ) (s : PortState)
    → Kept n m s
    → Kept n m (set_fwd i j (record (s.fwd i j) { in_port_id = k; in_queue_id = l }) s)
use-Kept n m i j k l s (wired, fits) =
    let p = record (s.fwd i j) { in_port_id = k; in_queue_id = l } in
    (
      set_fwd-IsWired n m i j p s wired (λ h. h)
          (λ hi hj. (
            (wired i j hi hj).0,
            λ h. has_funcs-set_fwd i j p s (λ g. g) _ _ ((wired i j hi hj).1 h),
          )),
      set_fwd-FitsQueues m i j p s fits,
    )
