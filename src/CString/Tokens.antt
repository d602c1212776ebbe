-- ===== src/CString/Tokens.antt =====
-- What strtok_r makes of words that a delimiter separates, and the lemmas on prefixes.
use spp_tmp.Base.{
  ℕ, Bool, true, false, not, ◌&&◌, none, some, List, [], ◌∷◌, ◌++◌, ◌==◌, ◌≡◌, refl, ◌∙◌, ◌+◌, ◌*◌,
  ◌≤◌, ◌<◌, suc, length, length-append, arith, ==_refl, ap,
}
use spp_tmp.CString.{skip, span, strtok_r, strip, is_prefix, strstr}

abbrev pub Lacks : ℕ → List ℕ → Type 0
Lacks d [] = Unit {0}
Lacks d (c ∷ cs) = ((c == d) ≡ false) × Lacks d cs

-- not empty, and without the delimiter
abbrev pub IsWord : ℕ → List ℕ → Type 0
IsWord d [] = ⊥
IsWord d (c ∷ cs) = Lacks d (c ∷ cs)

-- A literal is a word by evaluation.
lacks : ℕ → List ℕ → Bool
lacks d [] = true
lacks d (c ∷ cs) = not (c == d) && lacks d cs

unfoldable pub is_word : ℕ → List ℕ → Bool
unfolding lacks
is_word d [] = false
is_word d (c ∷ cs) = lacks d (c ∷ cs)

lacks-Lacks : (d : ℕ) (w : List ℕ) → lacks d w ≡ true → Lacks d w
unfolding lacks
lacks-Lacks d [] h = tt
lacks-Lacks d (c ∷ cs) h = (ground arith, lacks-Lacks d cs (ground arith))

pub is_word-IsWord : (d : ℕ) (w : List ℕ) → is_word d w ≡ true → IsWord d w
unfolding is_word
is_word-IsWord d [] h = absurd (lost h)
  where
    lost : false ≡ true → ⊥
    lost h = cc
is_word-IsWord d (c ∷ cs) h = lacks-Lacks d (c ∷ cs) h

abbrev pub join : ℕ → List (List ℕ) → List ℕ
join d [] = []
join d (w ∷ []) = w
join d (w ∷ v ∷ ws) = w ++ (d ∷ join d (v ∷ ws))

pub Lacks-append : (d : ℕ) (xs ys : List ℕ) → Lacks d xs → Lacks d ys → Lacks d (xs ++ ys)
Lacks-append d [] ys hx hy = hy
Lacks-append d (c ∷ cs) ys hx hy = (hx.0, Lacks-append d cs ys hx.1 hy)

span_last : (d : ℕ) (w : List ℕ) → Lacks d w → span d w ≡ (w, [])
unfolding span
span_last d [] h = refl
span_last d (c ∷ cs) h =
    rw (h.0) (ap (λ (p : List ℕ × List ℕ). (c ∷ p.0, p.1)) (span_last d cs h.1))

span_word : (d : ℕ) (w r : List ℕ) → Lacks d w → span d (w ++ (d ∷ r)) ≡ (w, r)
unfolding span
span_word d [] r h = rw (==_refl d) refl
span_word d (c ∷ cs) r h =
    rw (h.0) (ap (λ (p : List ℕ × List ℕ). (c ∷ p.0, p.1)) (span_word d cs r h.1))

skip_word : (d c : ℕ) (cs : List ℕ) → (c == d) ≡ false → skip d (c ∷ cs) ≡ c ∷ cs
unfolding skip
skip_word d c cs h = rw h refl

pub strtok_r-nil : (d : ℕ) → strtok_r d [] ≡ none
unfolding strtok_r
strtok_r-nil d = refl

pub strtok_r-last : (d : ℕ) (w : List ℕ) → IsWord d w → strtok_r d w ≡ some (w, [])
unfolding strtok_r
strtok_r-last d [] h = absurd h
strtok_r-last d (c ∷ cs) h = rw (skip_word d c cs h.0, strtok_r) (ap some (span_last d (c ∷ cs) h))

pub strtok_r-word : (d : ℕ) (w r : List ℕ) → IsWord d w → strtok_r d (w ++ (d ∷ r)) ≡ some (w, r)
unfolding strtok_r
strtok_r-word d [] r h = absurd h
strtok_r-word d (c ∷ cs) r h =
    rw (skip_word d c (cs ++ (d ∷ r)) h.0, strtok_r) (ap some (span_word d (c ∷ cs) r h))

pub strip-append : (p s : List ℕ) → strip p (p ++ s) ≡ some s
unfolding strip
strip-append [] s = refl
strip-append (c ∷ cs) s = rw (==_refl c) (strip-append cs s)

pub strip_ne : (c x : ℕ) (p xs : List ℕ) → (x == c) ≡ false → strip (c ∷ p) (x ∷ xs) ≡ none
unfolding strip
strip_ne c x p xs h = rw h refl

strstr_ne :
    (c x : ℕ) (p xs : List ℕ) → (x == c) ≡ false → strstr (c ∷ p) (x ∷ xs) ≡ strstr (c ∷ p) xs
unfolding strstr
strstr_ne c x p xs h = rw (strip_ne c x p xs h, strstr, is_prefix) refl

-- A text without the first byte of the pattern does not hold the pattern.
pub strstr-absent : (c : ℕ) (p s : List ℕ) → Lacks c s → strstr (c ∷ p) s ≡ none
unfolding strstr is_prefix strip
strstr-absent c p [] h = refl
strstr-absent c p (x ∷ xs) h = strstr_ne c x p xs h.0 ∙ strstr-absent c p xs h.1

strstr_here : (c : ℕ) (p r : List ℕ) → strstr (c ∷ p) ((c ∷ p) ++ r) ≡ some ((c ∷ p) ++ r)
unfolding strstr
strstr_here c p r = rw (strip-append (c ∷ p) r, strstr, is_prefix) refl

-- The first occurrence lies behind a text without the first byte of the pattern.
pub strstr-first :
    (c : ℕ) (p s r : List ℕ)
    → Lacks c s
    → strstr (c ∷ p) (s ++ ((c ∷ p) ++ r)) ≡ some ((c ∷ p) ++ r)
strstr-first c p [] r h = strstr_here c p r
strstr-first c p (x ∷ xs) r h =
    strstr_ne c x p (xs ++ ((c ∷ p) ++ r)) h.0 ∙ strstr-first c p xs r h.1

-- Words of fewer bytes than `k`.
abbrev pub AllShort : ℕ → List (List ℕ) → Type 0
AllShort n [] = Unit {0}
AllShort n (w ∷ ws) = (length w < n) × AllShort n ws

pub length-join :
    (d k : ℕ) (ws : List (List ℕ)) → AllShort k ws → length (join d ws) ≤ k * length ws
length-join d k [] h = omega arith
length-join d k (w ∷ []) h = omega (arith, h.0)
length-join d k (w ∷ v ∷ ws) h = omega (
  arith,
  h.0,
  length-append w (d ∷ join d (v ∷ ws)),
  length-join d k (v ∷ ws) h.1,
  unit_more k (length (v ∷ ws)),
)
  where
    unit_more : (k n : ℕ) → k * suc n ≡ k * n + k
    unit_more k n = omega arith
