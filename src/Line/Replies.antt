-- ===== src/Line/Replies.antt =====
-- Numeric replies, INVITE and ERROR in `handleLine` (frontend/app.jsx).
use korechat.Common.{
  ℕ, ◌-◌, ◌/◌, ◌%◌, ◌++◌, ◌∷◌, [], Text, lit, text_eq, starts_with, is_empty, Dict, lookup, put,
  remove, set_add, List, length, map, keep, keys, Bool, not, ◌&&◌, ◌==◌, ltb, none, some,
  get_or_else, get_elem?, if◌then◌else◌, join, show_nat, parse_int,
}
use korechat.Chat.{
  Channel, net_prefix, set_nick, net_status, replay_start, set_presence, status_chan,
}
use korechat.Chat.Keys.{chan_of_key}
use korechat.Irc.{split_on, upper, break_at}
use korechat.Client.{Refs, Out, dispatch, send, ensure_chan, can_monitor, arg, shown}
use korechat.Line.{Ctx, sys, last_arg}

-- The names of the direct-message windows of a network.
unfoldable pub direct_windows : Text → Dict Channel → List Text
direct_windows net_id chans =
    keep (λ n. not (text_eq n status_chan) && not (starts_with n (lit "#")))
      (map chan_of_key (keep (λ k. starts_with k (net_prefix net_id)) (keys chans)))

abbrev resubscribe : Refs → Text → List Text → List Out
resubscribe refs net_id [] = []
resubscribe refs net_id (n ∷ ns) =
    if can_monitor refs net_id
    then send net_id (lit "MONITOR + " ++ join (lit ",") (n ∷ ns)) ∷ []
    else []

-- 001
unfoldable pub welcome : Ctx → Refs → List Out
welcome c refs =
    dispatch (set_nick c.net_id (arg c.msg.params 0))
    ∷ dispatch (net_status c.net_id (lit "connected") [])
    ∷ dispatch (replay_start c.net_id)
    ∷ (ensure_chan refs c.net_id status_chan
        ++ resubscribe refs c.net_id (direct_windows c.net_id refs.channels))

-- A line of text in the status window.
unfoldable pub status_note : Ctx → Refs → Text → List Out
status_note c refs text = ensure_chan refs c.net_id status_chan ++ sys c status_chan text [] ∷ []

-- 375, 372 and 376
unfoldable pub motd_start : Ctx → Refs → Refs
motd_start c refs = record refs { motd_buf = put c.net_id (last_arg c ∷ []) refs.motd_buf }

unfoldable pub motd_line : Ctx → Refs → Refs
motd_line c refs = record refs {
  motd_buf =
      put c.net_id (get_or_else (lookup c.net_id refs.motd_buf) [] ++ last_arg c ∷ [])
        refs.motd_buf;
}

unfoldable pub motd_end : Ctx → Refs → Refs × List Out
unfolding status_note
motd_end c refs = (
  record refs { motd_buf = remove c.net_id refs.motd_buf },
  elim (get_or_else (lookup c.net_id refs.motd_buf) []) [
    | [] ↦ []
    | l ∷ ls ↦ status_note c refs (join (10 ∷ []) (l ∷ ls))
  ],
)

-- 311
unfoldable pub whois_user : Ctx → Refs → Refs
whois_user c refs = record refs {
  whois_buf =
      put c.net_id
        (record {
          nick = shown c.msg.params 1;
          lines =
              (lit "⦿ "
                ++ (shown c.msg.params 1
                    ++ (lit "  ("
                        ++ (shown c.msg.params 2
                            ++ (lit "@"
                                ++ (shown c.msg.params 3
                                    ++ (lit ")  —  " ++ arg c.msg.params 5)))))))
              ∷ [];
        })
        refs.whois_buf;
}

-- 319, 312, 330, 313, 320, 671 and 317: a line for the buffer, if there is one.
unfoldable pub whois_line : Ctx → Refs → Text → Refs
whois_line c refs line = elim (lookup c.net_id refs.whois_buf) [
  | none ↦ refs
  | some w ↦ record refs {
    whois_buf = put c.net_id (record w { lines = w.lines ++ line ∷ [] }) refs.whois_buf;
  }
]

-- `n ? n + unit : ""`
abbrev unit_of : ℕ → Text → Text
unit_of n unit = if n == 0 then [] else show_nat n ++ unit

-- `parseInt(params[2] || 0)` in hours, minutes and seconds
unfoldable pub idle_text : Text → Text
idle_text p = elim (if is_empty p then some 0 else parse_int p) [
  | none ↦ lit "  Idle: NaNs"
  | some idle ↦
      lit "  Idle: "
      ++ (unit_of (idle / 3600) (lit "h ")
          ++ (unit_of ((idle % 3600) / 60) (lit "m ") ++ (show_nat (idle % 60) ++ lit "s")))
]

-- 318
unfoldable pub whois_end : Ctx → Refs → Refs × List Out
whois_end c refs = (
  record refs { whois_buf = remove c.net_id refs.whois_buf },
  elim (lookup c.net_id refs.whois_buf) [
    | none ↦ []
    | some w ↦
        if length w.lines == 0
        then []
        else ensure_chan refs c.net_id w.nick
          ++ sys c w.nick (join (10 ∷ []) (w.lines ++ lit "  ─── end of whois ───" ∷ [])) [] ∷ []
  ],
)

-- `n.split("!")[0]`
abbrev before_bang : Text → Text
before_bang n = elim (break_at b'!' n) [ none ↦ n | some (w, r) ↦ w ]

unfoldable pub presence : Ctx → Text → List Out
presence c status =
    map (λ nick. dispatch (set_presence c.net_id nick status))
      (keep (λ n. not (is_empty n)) (map before_bang (split_on b',' (arg c.msg.params 1))))

-- `params.length > 2 ? params[params.length - 2].toUpperCase() : ""`
unfoldable pub unknown_command : List Text → Text
unknown_command params =
    if ltb 2 (length params)
    then upper (get_or_else (get_elem? params (length params - 2)) [])
    else []

-- 421
unfoldable pub unknown : Ctx → Refs → Refs × List Out
unfolding status_note
unknown c refs =
    if text_eq (unknown_command c.msg.params) (lit "MONITOR")
    then (record refs { monitor_unsupported = set_add c.net_id refs.monitor_unsupported }, [])
    else (
      refs,
      if not (is_empty (last_arg c)) && not (text_eq (last_arg c) c.me)
          then status_note c refs (last_arg c)
          else [],
    )

-- ERROR
unfoldable pub error : Ctx → Refs → List Out
unfolding status_note
error c refs =
    dispatch (net_status c.net_id (lit "error") (arg c.msg.params 0))
    ∷ status_note c refs (lit "ERROR: " ++ arg c.msg.params 0)

-- Any other numeral, if it is not one of the listed ones.
unfoldable pub numeric : Ctx → Refs → Bool → List Out
unfolding status_note
numeric c refs listed =
    if not listed && (not (is_empty (last_arg c)) && not (text_eq (last_arg c) c.me))
    then status_note c refs (last_arg c)
    else []
