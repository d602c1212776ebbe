-- ===== src/CmdParser/PortCommand.antt =====
-- cmd_parser.c: the port command that is printed is parsed back.
use spp_tmp.Base.{ℕ, ◌≤◌, ◌<◌, ◌≡◌, refl, ◌∙◌, true, List, [], ◌∷◌, leb, length, arith}
use spp_tmp.WorkerTypes.{PortDir, PortIdx}
use spp_tmp.VfCommand.{Action}
use spp_tmp.CString.{codes}
use spp_tmp.CString.Decimal.{dec, IsWord-dec, length-dec}
use spp_tmp.CString.Tokens.{IsWord, join, is_word, is_word-IsWord, AllShort, length-join}
use spp_tmp.CmdParser.{CmdType, zero_cmd, Env}
use spp_tmp.CmdParser.Request.{
  ok, parse_params, port_ops, parse_loop, cmd_attr_list, sppwk_parse_req, getters,
}
use spp_tmp.CmdParser.Split.{AllWords, split-join}
use spp_tmp.CmdParser.Sound.{parse_wk_cmd-words}
use spp_tmp.CmdParser.PortSteps.{
  sppwk_action_str, dir_str, TagOps, keep, del_tag, add_tag, tag_words, tag_attrs, port_words,
  is_add_tag, TagInRange, Admits, port_cmd, head_accepted, tail_accepted,
}
use spp_tmp.CmdParser.Defined.{IsAddDel, IsOneWay}

-- A word that the request may hold.
abbrev IsShortWord : List ℕ → Type 0
IsShortWord w = IsWord b' ' w × (length w < 32)

literal : (w : List ℕ) → is_word b' ' w ≡ true → length w < 32 → IsShortWord w
literal w h l = (is_word-IsWord b' ' w h, l)

act_word : (act : Action) → IsAddDel act → IsShortWord (sppwk_action_str act)
unfolding sppwk_action_str is_word
act_word Action.add h = literal (codes "add") refl (omega arith)
act_word Action.del h = literal (codes "del") refl (omega arith)
act_word _ h = absurd h

dir_word : (d : PortDir) → IsOneWay d → IsShortWord (dir_str d)
unfolding is_word
dir_word PortDir.rx_dir h = literal (codes "rx") refl (omega arith)
dir_word PortDir.tx_dir h = literal (codes "tx") refl (omega arith)
dir_word _ h = absurd h

dec_word : (n : ℕ) → n ≤ 4095 → IsShortWord (dec n)
dec_word n h = (IsWord-dec b' ' n refl, omega (arith, length-dec 3 n (omega arith)))

abbrev AllShortWords : List (List ℕ) → Type 0
AllShortWords [] = Unit {0}
AllShortWords (w ∷ ws) = IsShortWord w × AllShortWords ws

words_of : (ws : List (List ℕ)) → AllShortWords ws → AllWords ws × AllShort 32 ws
words_of [] h = (tt, tt)
words_of (w ∷ ws) h = let (a, b) = words_of ws h.1 in ((h.0.0, a), (h.0.1, b))

tag-AllShortWords :
    (tag : TagOps) → TagInRange tag → AllShortWords (tag_words tag) × (length (tag_words tag) ≤ 3)
unfolding is_word
tag-AllShortWords keep h = (tt, omega arith)
tag-AllShortWords del_tag h = ((literal (codes "del_vlantag") refl (omega arith), tt), omega arith)
tag-AllShortWords (add_tag vid pcp) h = (
  (
    literal (codes "add_vlantag") refl (omega arith),
    (dec_word vid h.0, (dec_word pcp (omega arith), tt)),
  ),
  omega arith,
)

module _ (e : Env) where
  port_words-AllShortWords :
      (act : Action) (uid : List ℕ) (p : PortIdx) (d : PortDir) (name : List ℕ) (tag : TagOps)
      → Admits e act uid p d name tag
      → AllShortWords (port_words act uid d name tag)
  unfolding is_word
  port_words-AllShortWords act uid p d name tag h = (
    literal (codes "port") refl (omega arith),
    (
      act_word act h.acts,
      (
        (h.uid_word, h.uid_short),
        (dir_word d h.one_way, ((h.name_word, h.name_short), (tag-AllShortWords tag h.in_range).0)),
      ),
    ),
  )

  -- Eight words, and only those, may replace the tag of a registered port.
  loop_port :
      (a uid d name : List ℕ) (tag : TagOps)
      → parse_loop
          (cmd_attr_list e)
          0
          true
          (codes "port")
          (a ∷ uid ∷ d ∷ name ∷ tag_words tag)
          zero_cmd
        ≡ parse_params
            (is_add_tag tag)
            (port_ops e)
            (a ∷ uid ∷ d ∷ name ∷ tag_words tag)
            (record zero_cmd { ctype = CmdType.port })
  unfolding parse_loop
  loop_port a uid d name keep = refl
  loop_port a uid d name del_tag = refl
  loop_port a uid d name (add_tag vid pcp) = refl

  -- A port command that the parser admits is parsed to what it says.
  pub parse_req-port_words :
      (act : Action) (uid : List ℕ) (p : PortIdx) (d : PortDir) (name : List ℕ) (tag : TagOps)
      → Admits e act uid p d name tag
      → sppwk_parse_req e (join b' ' (port_words act uid d name tag))
        ≡ ok (
            getters e (
              port_cmd (record {
                wk_action = act;
                port = p;
                dir = d;
                name = name;
                port_attrs = tag_attrs d tag;
              })))
  unfolding sppwk_parse_req
  parse_req-port_words act uid p d name tag h =
      let ws = port_words act uid d name tag in
      let args = sppwk_action_str act ∷ uid ∷ dir_str d ∷ name ∷ tag_words tag in
      let (words, short) = words_of ws (port_words-AllShortWords act uid p d name tag h) in
      let few = (tag-AllShortWords tag h.in_range).1 in
      let le8 : leb (length ws) 8 ≡ true = ground arith in
      let parsed =
        parse_wk_cmd-words e (join b' ' ws) (codes "port") args
          (omega (arith, length-join b' ' 32 ws short)) (split-join 8 ws words ∙ rw le8 refl)
        ∙ loop_port (sppwk_action_str act) uid (dir_str d) name tag
        ∙ head_accepted e act uid p d name tag (is_add_tag tag) refl h
        ∙ tail_accepted e act p d name tag (is_add_tag tag) h.in_range in
      rw (parsed, sppwk_parse_req) refl
