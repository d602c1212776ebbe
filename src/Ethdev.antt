-- ===== src/Ethdev.antt =====
-- What the SPP sources use of DPDK and do not implement: bursts on an ethdev queue, the reference
-- counts of mbufs, and the bytes of an mbuf. An mbuf is the number of its handle.
-- `acquired` and `released` are the history of the references that the program was given and gave
-- back: a received mbuf is acquired, one that the device takes over or that is freed is released.
mod Defs
mod Sim
mod Balance
pub use Defs.{Ethdev}
pub use Sim.{Medium, sim, start}
pub use Balance.{
  Passed, Passed-refl, Passed-trans, free_all-acquired, free_all-released, sent-acquired,
  sent-released, free_rest, IsEven, IsEven-refl, IsEven-trans, IsEven-of,
}
unfoldable pub use Balance.{free_all}
