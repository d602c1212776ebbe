-- ===== src/Ethdev/Balance.antt =====
-- `Passed eth w v`: from `w` to `v` the program gave back exactly what it acquired, in that order.
use spp_tmp.Base.{
  ℕ, ◌+◌, weigh, weigh-append, ◌≡◌, refl, take, drop, take-append-drop, drop_all, length, ltb,
  if◌then◌else◌, Bool-cases, inl, inr, arith, sym, ◌∙◌, ap, List, [], ◌∷◌, ◌++◌, append_assoc,
  append-nil,
}
use spp_tmp.Ethdev.Defs.{Ethdev}

module _ (eth : Ethdev) where
  open eth use {
    World, acquired, released, pktmbuf_free, free_acquired, free_released, tx_burst, tx_acquired,
    tx_released,
  }

  abbrev pub Passed : World → World → Type 0
  Passed w v = (m : List ℕ) × (acquired v ≡ acquired w ++ m) × (released v ≡ released w ++ m)

  pub Passed-refl : (w : World) → Passed w w
  Passed-refl w = ([], sym (append-nil _), sym (append-nil _))

  pub Passed-trans : (u v w : World) → Passed u v → Passed v w → Passed u w
  Passed-trans u v w (m, a, r) (n, b, s) =
      (m ++ n, b ∙ rw a (append_assoc _ m n), s ∙ rw r (append_assoc _ m n))

  -- `for (buf = nb_tx; buf < nb_rx; buf++) rte_pktmbuf_free(bufs[buf]);`
  unfoldable pub free_all : List ℕ → World → World
  free_all [] w = w
  free_all (m ∷ ms) w = free_all ms (pktmbuf_free m w)

  pub free_all-acquired : (ms : List ℕ) (w : World) → acquired (free_all ms w) ≡ acquired w
  unfolding free_all
  free_all-acquired [] w = refl
  free_all-acquired (m ∷ ms) w = free_all-acquired ms (pktmbuf_free m w) ∙ free_acquired m w

  pub free_all-released : (ms : List ℕ) (w : World) → released (free_all ms w) ≡ released w ++ ms
  unfolding free_all
  free_all-released [] w = sym (append-nil _)
  free_all-released (m ∷ ms) w =
      free_all-released ms (pktmbuf_free m w) ∙ rw (free_released m w) (append_assoc _ (m ∷ []) ms)

  -- A burst whose unsent mbufs are freed is given back whole: the sent ones, then the freed ones.
  pub sent-acquired :
      (p q : ℕ) (b : List ℕ) (w : World)
      → acquired (free_all (drop (tx_burst p q b w).0 b) (tx_burst p q b w).1) ≡ acquired w
  sent-acquired p q b w = free_all-acquired _ _ ∙ tx_acquired p q b w

  pub sent-released :
      (p q : ℕ) (b : List ℕ) (w : World)
      → released (free_all (drop (tx_burst p q b w).0 b) (tx_burst p q b w).1) ≡ released w ++ b
  sent-released p q b w =
      free_all-released _ _
      ∙ rw (tx_released p q b w) (
          append_assoc _ (take (tx_burst p q b w).0 b) _
          ∙ ap (λ l. released w ++ l) (take-append-drop (tx_burst p q b w).0 b))

  -- `if (nb_tx < nb_rx)` around that loop makes no difference.
  pub free_rest :
      (n : ℕ) (b : List ℕ) (w : World)
      → (if ltb n (length b) then free_all (drop n b) w else w) ≡ free_all (drop n b) w
  unfolding free_all
  free_rest n b w = elim (Bool-cases (ltb n (length b))) [
    | inl e ↦ rw e
    | inr e ↦ rw (e, drop_all n b (ground arith))
  ]

  -- From `w` to `v` the program acquired and gave back the same references, in whatever order.
  abbrev pub IsEven : World → World → Type 0
  IsEven w v =
      (f : ℕ → ℕ)
      → weigh f (acquired v) + weigh f (released w) ≡ weigh f (acquired w) + weigh f (released v)

  pub IsEven-refl : (w : World) → IsEven w w
  IsEven-refl w f = omega arith

  pub IsEven-trans : (u v w : World) → IsEven u v → IsEven v w → IsEven u w
  IsEven-trans u v w h k f = omega (arith, h f, k f)

  -- Two lists of references that weigh the same are one acquired and one given back.
  pub IsEven-of :
      (w v : World) (xs ys : List ℕ)
      → acquired v ≡ acquired w ++ xs
      → released v ≡ released w ++ ys
      → ((f : ℕ → ℕ) → weigh f xs ≡ weigh f ys)
      → IsEven w v
  IsEven-of w v xs ys a r h f =
      rw (a, r) (omega (arith, weigh-append f (acquired w) xs, weigh-append f (released w) ys, h f))
