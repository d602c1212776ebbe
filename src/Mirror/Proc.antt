-- ===== src/Mirror/Proc.antt =====
-- `mirror_proc` of src/mirror/spp_mirror.c: which mbufs it gives back.
use spp_tmp.Base.{
  none, ℕ, ◌+◌, ◌≡◌, refl, ap, ◌∙◌, some, List, [], arith, Bool-cases, inl, inr, if◌then◌else◌,
  length, take, weigh, weigh-append, weigh-split, nil_of_length, ==_ne, ℕ_discrete,
}
use spp_tmp.Ethdev.{Ethdev}
use spp_tmp.BasicForwarder.{max_pkt_burst}
use spp_tmp.Capability.{CapState}
use spp_tmp.Forwarder.{to_uint16}
use spp_tmp.Mirror.{
  MirrorPath, MirrorInfo, Cloner, clone_each, no_null, send, send_original, mirror_packets, receive,
  mirror_proc, is_ready, change_mirror_index,
}
use spp_tmp.Mirror.Refs.{NeverNull, cloned, sent, between, weigh-between, list_of, original_refs}

module _ (eth : Ethdev) (pool : Cloner eth) where
  open eth use {
    World, acquired, released, rx_acquired, rx_released, tx_len, tx_acquired, tx_released,
  }
  open pool use {clone, clone_acquired, clone_released}

  -- How many of the packets the device takes, and how many of their copies.
  unfoldable pub taken : MirrorPath → List ℕ → World → ℕ × ℕ
  taken path bufs w =
      let (cs, v) = clone_each eth pool bufs w in
      let copies = list_of eth pool (no_null eth pool cs) in
      let (n2, u) = send eth pool (path.tx 1) copies v in ((send eth pool (path.tx 0) bufs u).0, n2)

  -- What a call of `mirror_proc` loses on a path: it stays with the program and is never freed.
  unfoldable pub lost : MirrorPath → World → List ℕ
  lost path w = elim (receive eth pool path w) [
    | none ↦ []
    | some (bufs, v) ↦
        let (n1, n2) = taken path bufs v in
        if is_ready eth pool path then between eth pool n1 n2 bufs else []
  ]

  -- Each reference acquired is given back once, but for those of `xs`.
  abbrev pub IsEvenButLost : List ℕ → World → World → Type 0
  IsEvenButLost xs w v =
      (f : ℕ → ℕ)
      → weigh f (acquired v) + weigh f (released w)
        ≡ weigh f (acquired w) + weigh f (released v) + weigh f xs

  mirror_packets_refs :
      (path : MirrorPath) (p : ℕ) (bufs : List ℕ) (w : World)
      → NeverNull eth pool
      → (path.tx 1).ethdev_port_id ≡ some p
      → (v : World) × (mirror_packets eth pool path bufs w ≡ some v)
        × ((f : ℕ → ℕ)
            → let (n1, n2) = taken path bufs w in
              weigh f (acquired v) + weigh f (released w) + weigh f bufs
              ≡ weigh f (acquired w) + weigh f (released v) + weigh f (between eth pool n1 n2 bufs))
  unfolding mirror_packets taken
  mirror_packets_refs path p bufs w sure e =
      let (copies, n, l, a, r) = cloned eth pool sure bufs w in
      let cv : World = (clone_each eth pool bufs w).1 in
      let n2 : ℕ = (send eth pool (path.tx 1) copies cv).0 in
      let u : World = (send eth pool (path.tx 1) copies cv).1 in
      let (_, a2, r2) = sent eth pool (path.tx 1) copies cv in
      (
        send_original eth pool path bufs copies n2 u,
        simp (mirror_packets, e, n) refl,
        λ f. rw n (
            let (x, y) = original_refs eth pool path bufs copies n2 u f l in
            omega (
              arith,
              x,
              y,
              ap (weigh f) a2,
              ap (weigh f) r2,
              ap (weigh f) a,
              ap (weigh f) r,
              weigh-append f (acquired w) copies,
              weigh-append f (released cv) (take n2 copies),
              weigh-split f n2 copies,
            )),
      )

  received_refs :
      (path : MirrorPath) (r : ℕ) (w : World)
      → (path.rx 0).ethdev_port_id ≡ some r
      → (bufs : List ℕ) × (v : World) × (receive eth pool path w ≡ some (bufs, v))
        × ((f : ℕ → ℕ)
            → (weigh f (acquired v) ≡ weigh f (acquired w) + weigh f bufs)
              × (weigh f (released v) ≡ weigh f (released w)))
  unfolding receive
  received_refs path r w e =
      let q : ℕ = (path.rx 0).queue_no in
      (
        _,
        _,
        rw (receive, e) refl,
        λ f. (
          ap (weigh f) (rx_acquired (to_uint16 (some r)) q max_pkt_burst w)
              ∙ weigh-append f (acquired w) _,
          ap (weigh f) (rx_released (to_uint16 (some r)) q max_pkt_burst w),
        ),
      )

  -- The path that the next call of `mirror_proc` reads.
  abbrev pub next_path : MirrorInfo → CapState → MirrorPath
  next_path info caps = let i = (change_mirror_index (info, caps)).0 in i.path i.ref_index

  -- If the RX port and the port for the copies have ethdev ports and the pool is never empty, a call
  -- of `mirror_proc` ends without undefined behaviour, and each reference that it acquires, of a packet
  -- or of a copy, is given back once, but those of the packets behind the ones that the device took as
  -- originals and before the number of copies that it took: these are lost.
  pub mirror_proc_refs :
      (info : MirrorInfo) (caps : CapState) (r p : ℕ) (w : World)
      → NeverNull eth pool
      → ((next_path info caps).rx 0).ethdev_port_id ≡ some r
      → ((next_path info caps).tx 1).ethdev_port_id ≡ some p
      → (v : World) × (mirror_proc eth pool (info, caps, w)
          ≡ some ((change_mirror_index (info, caps)).0, (change_mirror_index (info, caps)).1, v))
        × IsEvenButLost (lost (next_path info caps) w) w v
  unfolding mirror_proc lost
  mirror_proc_refs info caps r p w sure er e = elim (Bool-cases (is_ready eth pool path)) [
    | inr z ↦
        let (bufs, v, m, h) = received_refs path r w er in
        (w, rw z refl, λ f. rw (lost, m, z) (omega arith))
    | inl z ↦
        let (bufs, v, m, h) = received_refs path r w er in
        elim (ℕ_discrete (length bufs) 0) [
          | yes n ↦ (
            v,
            rw (z, m, n) refl,
            λ f.
                let (n1, n2) = taken path bufs v in
                rw (lost, m, z)
                  (omega (
                    arith,
                    h f,
                    weigh-between eth pool f n1 n2 bufs,
                    ap (weigh f) (nil_of_length bufs n),
                  )),
          )
          | no ne ↦
              let (u, k, g) = mirror_packets_refs path p bufs v sure e in
              (u, rw (z, m, ==_ne _ _ ne, k) refl, λ f. rw (lost, m, z) (omega (arith, g f, h f)))
        ]
  ]
    where
      path : MirrorPath
      path = next_path info caps
