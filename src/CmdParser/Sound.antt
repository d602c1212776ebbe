-- ===== src/CmdParser/Sound.antt =====
-- cmd_parser.c: a request of short words is parsed without undefined behaviour, and what is accepted
-- is what the commands want.
use spp_tmp.Base.{
  ℕ, ◌<◌, ◌≡◌, refl, true, false, some, List, [], ◌∷◌, leb, length, arith, inl, inr, ◌↔◌,
  Bool-cases,
}
use spp_tmp.CmdParser.{CmdAttrs, zero_cmd, Env, split_cmd_params}
use spp_tmp.CmdParser.Request.{
  Result, ok, err, crash, Req, parse_loop, cmd_attr_list, parse_wk_cmd, sppwk_parse_req,
}
use spp_tmp.CmdParser.Words.{Ensures, Ensures-no_crash}
use spp_tmp.CString.Tokens.{AllShort}
use spp_tmp.CmdParser.Tables.{CmdSound, parse_loop-Ensures, entries}

module _ (e : Env) where
  pub parse_wk_cmd-words :
      (s argv0 : List ℕ) (args : List (List ℕ))
      → length s < 888
      → split_cmd_params 8 s ≡ some (argv0 ∷ args)
      → parse_wk_cmd e s ≡ parse_loop (cmd_attr_list e) 0 true argv0 args zero_cmd
  unfolding parse_wk_cmd
  parse_wk_cmd-words s argv0 args h w =
      let fits : leb 888 (length s) ≡ false = ground arith in rw fits (rw w refl)

  parse_wk_cmd-blank : (s : List ℕ) → split_cmd_params 8 s ≡ some [] → parse_wk_cmd e s ≡ crash
  unfolding parse_wk_cmd
  parse_wk_cmd-blank s w = elim (Bool-cases (leb 888 (length s))) [
    | inl h ↦ rw h refl
    | inr h ↦ rw h (rw w refl)
  ]

  abbrev pub ReqSound : Req → Type 0
  ReqSound r = CmdSound e r.cmd.ctype r.cmd

  of_cmd :
      (s : List ℕ) (r : Result CmdAttrs)
      → parse_wk_cmd e s ≡ r
      → Ensures (λ d. CmdSound e d.ctype d) r
      → Ensures ReqSound (sppwk_parse_req e s)
  unfolding sppwk_parse_req
  of_cmd s (ok d) h k = rw (h, sppwk_parse_req) k
  of_cmd s (err m) h k = rw (h, sppwk_parse_req) tt
  of_cmd s crash h k = absurd k

  pub parse_req-Ensures :
      (s argv0 : List ℕ) (args : List (List ℕ))
      → length s < 888
      → split_cmd_params 8 s ≡ some (argv0 ∷ args)
      → AllShort 32 (argv0 ∷ args)
      → Ensures ReqSound (sppwk_parse_req e s)
  parse_req-Ensures s argv0 args h w short =
      of_cmd s (parse_loop (cmd_attr_list e) 0 true argv0 args zero_cmd)
        (parse_wk_cmd-words s argv0 args h w)
        (parse_loop-Ensures (λ d. CmdSound e d.ctype d) args zero_cmd (cmd_attr_list e) 0 true argv0
          short.0 (entries e args short.1))

  -- A request of at most 887 bytes, of at most eight words of at most 31 bytes each, makes the parser
  -- run into undefined behaviour exactly if it has no word.
  pub parse_req_crash :
      (s : List ℕ) (ws : List (List ℕ))
      → length s < 888
      → split_cmd_params 8 s ≡ some ws
      → AllShort 32 ws
      → (sppwk_parse_req e s ≡ crash) ↔ (ws ≡ [])
  unfolding sppwk_parse_req
  parse_req_crash s [] h w short =
      (λ _. refl, λ _. rw (parse_wk_cmd-blank s w, sppwk_parse_req) refl)
  parse_req_crash s (argv0 ∷ args) h w short = (
    λ k. absurd (
        Ensures-no_crash ReqSound (sppwk_parse_req e s) (parse_req-Ensures s argv0 args h w short)
          k),
    λ k. cc,
  )
