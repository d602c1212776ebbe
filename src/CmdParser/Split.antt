-- ===== src/CmdParser/Split.antt =====
-- cmd_parser.c: `split_cmd_params` gives the words of a request.
use spp_tmp.Base.{
  ℕ, zero, suc, ◌≡◌, refl, sym, ◌∙◌, Option, none, some, List, [], ◌∷◌, if◌then◌else◌, leb, length,
  arith,
}
use spp_tmp.CString.Tokens.{IsWord, join, strtok_r-word, strtok_r-last, strtok_r-nil}
use spp_tmp.CmdParser.{split_cmd_params}

abbrev pub AllWords : List (List ℕ) → Type 0
AllWords [] = Unit {0}
AllWords (w ∷ ws) = IsWord b' ' w × AllWords ws

abbrev within : ℕ → List (List ℕ) → Option (List (List ℕ))
within max ws = if leb (length ws) max then some ws else none

none_fits : (w : List ℕ) (ws : List (List ℕ)) → within 0 (w ∷ ws) ≡ none
none_fits w ws = ground arith

within_cons :
    (max : ℕ) (w : List ℕ) (ws : List (List ℕ))
    → (elim (within max ws) [ none ↦ none | some argv ↦ some (w ∷ argv) ])
      ≡ within (suc max) (w ∷ ws)
within_cons max w ws = ground arith

split_end : (max : ℕ) → split_cmd_params max [] ≡ some []
unfolding split_cmd_params
split_end zero = rw (strtok_r-nil b' ', split_cmd_params) refl
split_end (suc max) = rw (strtok_r-nil b' ', split_cmd_params) refl

-- The words that single spaces join are split again, if they are not more than allowed.
pub split-join :
    (max : ℕ) (ws : List (List ℕ))
    → AllWords ws
    → split_cmd_params max (join b' ' ws) ≡ (if leb (length ws) max then some ws else none)
unfolding split_cmd_params
split-join zero [] h = split_end 0
split-join (suc max) [] h = split_end (suc max) ∙ ground arith
split-join zero (w ∷ []) h = rw (strtok_r-last b' ' w h.0, split_cmd_params) (sym (none_fits w []))
split-join (suc max) (w ∷ []) h =
    rw (strtok_r-last b' ' w h.0, split_cmd_params) (rw (split_end max) (ground arith))
split-join zero (w ∷ v ∷ ws) h =
    rw (strtok_r-word b' ' w (join b' ' (v ∷ ws)) h.0, split_cmd_params)
      (sym (none_fits w (v ∷ ws)))
split-join (suc max) (w ∷ v ∷ ws) h =
    rw (strtok_r-word b' ' w (join b' ' (v ∷ ws)) h.0, split_cmd_params)
      (rw (split-join max (v ∷ ws) h.1) (within_cons max w (v ∷ ws)))
