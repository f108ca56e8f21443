-- ===== src/Line/Control.antt =====
-- The notices of the bouncer itself, and the callback of "replay-done", in `handleLine`
-- (frontend/app.jsx).
use korechat.Common.{
  ℕ, ◌+◌, ◌++◌, ◌∷◌, [], Text, lit, text_eq, starts_with, is_empty, lookup, set_has, set_add, List,
  keep, keys, drop, length, Bool, not, ◌&&◌, ◌||◌, ltb, Option, none, some, get_or_else,
  if◌then◌else◌, words, is_white, is_digit, match_after, parse_int, ends_with,
}
use korechat.Chat.{
  net_status, replay_start, replay_done, set_nick, sort_msgs, set_active_chan, status_chan,
  net_prefix, chan_key,
}
use korechat.Client.{
  Refs, Out, dispatch, send_later, load_history, load_server_history, settle_replay, ensure_chan,
}
use korechat.Line.{Ctx}
use korechat.Line.Replies.{status_note}

-- The test for a control message.
unfoldable pub is_control : Ctx → Bool
is_control c =
    text_eq c.msg.prefix (lit "*bnc*")
    || (text_eq c.from (lit "*bnc*")
        || (text_eq c.msg.prefix (lit "*korechat*") || text_eq c.from (lit "*korechat*")))

-- `text.match(/nick:(\S+)/)`
unfoldable pub nick_match : Text → Option Text
nick_match text = match_after (lit "nick:") 5 (λ ch. not (is_white ch)) text

-- The number in `text.match(/attempt (\d+)/)`, 1 if there is none
unfoldable pub attempt_of : Text → ℕ
attempt_of text = elim (match_after (lit "attempt ") 8 is_digit text) [
  | none ↦ 1
  | some ds ↦ get_or_else (parse_int ds) 1
]

abbrev ensure_all : Refs → Text → List Text → List Out
ensure_all refs net_id [] = []
ensure_all refs net_id (chan ∷ chans) = ensure_chan refs net_id chan ++ ensure_all refs net_id chans

unfoldable pub replay_finished : Ctx → Refs → Text → List Out
replay_finished c refs text =
    (elim (nick_match text) [ none ↦ [] | some nick ↦ dispatch (set_nick c.net_id nick) ∷ [] ])
    ++ (dispatch (net_status c.net_id (lit "connected") [])
        ∷ dispatch (replay_done c.net_id)
        ∷ (ensure_chan refs c.net_id status_chan
            ++ (dispatch (sort_msgs c.net_id)
                ∷ load_server_history c.net_id
                ∷ settle_replay 500 c.net_id
                ∷ [])))

unfoldable pub control : Ctx → Refs → Text → List Out
unfolding replay_finished status_note
control c refs text =
    if starts_with text (lit "status:")
    then dispatch (net_status c.net_id (drop 7 text) []) ∷ dispatch (replay_start c.net_id) ∷ []
    else if starts_with text (lit "replay-done")
    then replay_finished c refs text
    else if starts_with text (lit "channels:")
    then ensure_all refs c.net_id (words (drop 9 text))
    else if starts_with text (lit "Reconnecting in ")
    then if ltb 1 (attempt_of text) then status_note c refs (lit "⚠ " ++ text) else []
    else status_note c refs text

-- The requests for the open windows: `namesDelay` grows by 250 for each NAMES.
unfoldable pub open_windows : Text → ℕ → List Text → List Out
open_windows net_id delay [] = []
open_windows net_id delay (k ∷ ks) =
    let chan = drop (length (net_prefix net_id)) k in
    let named = starts_with chan (lit "#") in
    load_history 0 net_id chan
    ∷ ((if named then send_later delay net_id (lit "NAMES " ++ chan) ∷ [] else [])
        ++ open_windows net_id (if named then delay + 250 else delay) ks)

abbrev has_text : Text → List Text → Bool
has_text t ts = set_has t ts

-- The callback that runs 500 ms after "replay-done".
unfoldable pub settle : Text → Refs → Refs × List Out
unfolding open_windows
settle net_id refs =
    let open_keys =
      keep (λ k. starts_with k (net_prefix net_id) && not (ends_with k (lit "::" ++ status_chan)))
        (keys refs.channels) in
    let default_chan = get_or_else (lookup net_id refs.default_chans) [] in
    (
      record refs { replay_done = set_add net_id refs.replay_done },
      open_windows net_id 0 open_keys
          ++ (if not (is_empty default_chan) && has_text (chan_key net_id default_chan) open_keys
              then dispatch (set_active_chan net_id default_chan) ∷ []
              else []),
    )
