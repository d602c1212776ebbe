-- ===== src/Mirror/Refs.antt =====
-- The parts of `mirror_proc` of src/mirror/spp_mirror.c: which mbufs they acquire and give back.
use spp_tmp.Base.{
  drop-drop, ◌-◌, true, false, ℕ, ◌+◌, ◌≤◌, ◌≡◌, refl, sym, ap, ◌∙◌, Option, none, some, List, [],
  ◌∷◌, ◌++◌, arith, Bool-cases, Option-cases, inl, inr, if◌then◌else◌, ltb, length, take, drop,
  append_assoc, append-nil, weigh, weigh-append, weigh-split,
}
use spp_tmp.Ethdev.{Ethdev, free_all, free_rest, free_all-acquired, free_all-released}
use spp_tmp.WorkerTypes.{PortInfo}
use spp_tmp.Mirror.{MirrorPath, Cloner, clone_each, no_null, send, send_original}

module _ (eth : Ethdev) (pool : Cloner eth) where
  open eth use {
    World, acquired, released, rx_acquired, rx_released, tx_len, tx_acquired, tx_released,
  }
  open pool use {clone, clone_acquired, clone_released}

  -- The pool is never empty.
  abbrev pub NeverNull : Type 0
  NeverNull = (m : ℕ) (w : World) → (c : ℕ) × ((clone m w).0 ≡ some c)

  -- As many copies as packets, each acquired.
  pub cloned :
      NeverNull
      → (bufs : List ℕ) (w : World)
      → let (cs, v) = clone_each eth pool bufs w in
        (copies : List ℕ) × (no_null eth pool cs ≡ some copies)
        × (length copies ≡ length bufs)
        × (acquired v ≡ acquired w ++ copies)
        × (released v ≡ released w)
  unfolding clone_each
  cloned sure [] w = ([], refl, refl, sym (append-nil _), refl)
  cloned sure (m ∷ ms) w =
      let (c, e) = sure m w in
      let (copies, n, l, a, r) = cloned sure ms (clone m w).1 in
      (
        c ∷ copies,
        rw (e, n) refl,
        omega (arith, l),
        a ∙ rw (clone_acquired m w, e) (append_assoc (acquired w) (c ∷ []) copies),
        r ∙ clone_released m w,
      )

  -- A transmission gives back the front of the burst.
  pub sent :
      (tx : PortInfo) (bufs : List ℕ) (w : World)
      → let (n, v) = send eth pool tx bufs w in
        (n ≤ length bufs) × (acquired v ≡ acquired w) × (released v ≡ released w ++ take n bufs)
  unfolding send
  sent tx bufs w = elim (Option-cases tx.ethdev_port_id) [
    | inl e ↦ rw e (omega arith, refl, sym (append-nil _))
    | inr (p, e) ↦
        rw e (tx_len _ tx.queue_no bufs w, tx_acquired _ tx.queue_no bufs w, tx_released _ _ bufs w)
  ]

  -- The packets behind the `n1` that the device took as originals and before the `n2` that it took as
  -- copies.
  abbrev pub between : ℕ → ℕ → List ℕ → List ℕ
  between n1 n2 bufs = take (n2 - n1) (drop n1 bufs)

  pub weigh-between :
      (f : ℕ → ℕ) (n1 n2 : ℕ) (bufs : List ℕ)
      → weigh f (take n1 bufs)
          + weigh f (drop (if ltb n1 n2 then n2 else n1) bufs)
          + weigh f (between n1 n2 bufs)
        ≡ weigh f bufs
  weigh-between f n1 n2 bufs = elim (Bool-cases (ltb n1 n2)) [
    | inl e ↦ rw e (
        omega (
          arith,
          weigh-split f n1 bufs,
          weigh-split f (n2 - n1) (drop n1 bufs),
          ap (weigh f) (drop-drop (n2 - n1) n1 bufs),
          ap (λ (k : ℕ). weigh f (drop k bufs)) (back e),
        ))
    | inr e ↦ rw e (
        omega (
          arith,
          weigh-split f n1 bufs,
          ap (λ (k : ℕ). weigh f (take k (drop n1 bufs))) (none_left e),
          nothing,
        ))
  ]
    where
      back : ltb n1 n2 ≡ true → n1 + (n2 - n1) ≡ n2
      back e = ground arith

      none_left : ltb n1 n2 ≡ false → n2 - n1 ≡ 0
      none_left e = ground arith

      nothing : weigh f (take 0 (drop n1 bufs)) ≡ 0
      nothing = refl

  abbrev pub list_of : Option (List ℕ) → List ℕ
  list_of none = []
  list_of (some l) = l

  -- `send_original` without the tests around its loops.
  original_world :
      (path : MirrorPath) (bufs copies : List ℕ) (n2 : ℕ) (w : World)
      → length copies ≡ length bufs
      → let (n1, v) = send eth pool (path.tx 0) bufs w in
        send_original eth pool path bufs copies n2 w
        ≡ free_all eth (drop n2 copies) (free_all eth (drop (if ltb n1 n2 then n2 else n1) bufs) v)
  unfolding send_original
  original_world path bufs copies n2 w l =
      rw (free_rest eth (if ltb n1 n2 then n2 else n1) bufs v, sym l)
        (free_rest eth n2 copies (free_all eth (drop (if ltb n1 n2 then n2 else n1) bufs) v))
    where
      n1 : ℕ
      n1 = (send eth pool (path.tx 0) bufs w).0

      v : World
      v = (send eth pool (path.tx 0) bufs w).1

  -- What `send_original` gives back of the packets and of the copies that were not sent.
  pub original_refs :
      (path : MirrorPath) (bufs copies : List ℕ) (n2 : ℕ) (w : World) (f : ℕ → ℕ)
      → length copies ≡ length bufs
      → let v = send_original eth pool path bufs copies n2 w in
        (weigh f (acquired v) ≡ weigh f (acquired w))
        × (weigh f (released v) + weigh f (between (send eth pool (path.tx 0) bufs w).0 n2 bufs)
            ≡ weigh f (released w) + weigh f bufs + weigh f (drop n2 copies))
  original_refs path bufs copies n2 w f l =
      let (_, a, r) = sent (path.tx 0) bufs w in
      rw (original_world path bufs copies n2 w l) (
        ap (weigh f)
            (free_all-acquired eth (drop n2 copies) t ∙ free_all-acquired eth (drop n bufs) v ∙ a),
        omega (
          arith,
          ap (weigh f) (free_all-released eth (drop n2 copies) t),
          weigh-append f (released t) (drop n2 copies),
          ap (weigh f) (free_all-released eth (drop n bufs) v),
          weigh-append f (released v) (drop n bufs),
          ap (weigh f) r,
          weigh-append f (released w) (take n1 bufs),
          weigh-between f n1 n2 bufs,
        ),
      )
    where
      n1 : ℕ
      n1 = (send eth pool (path.tx 0) bufs w).0

      n : ℕ
      n = if ltb n1 n2 then n2 else n1

      v : World
      v = (send eth pool (path.tx 0) bufs w).1

      t : World
      t = free_all eth (drop n bufs) v
