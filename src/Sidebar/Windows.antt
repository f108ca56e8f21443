-- ===== src/Sidebar/Windows.antt =====
-- The sidebar of frontend/app.jsx: `goTo`, the choice of the quick switcher, the menus of a channel, of
-- a direct message and of a nick, the folded sections and their counts of unread messages.
use korechat.Common.{
  ℕ, ◌+◌, ◌++◌, ◌∷◌, [], Text, lit, Dict, lookup, put, has_key, set_has, List, Bool, true, not,
  Option, none, some, if◌then◌else◌,
}
use korechat.Chat.{
  State, set_active_net, set_active_chan, clear_unread, chan_join, chan_part_remove, chan_key,
  unread_at,
}
use korechat.Client.{Refs, Out, dispatch, send, load_history, set_ignored, ensure_chan}
use korechat.Sidebar.{is_marked}

-- `goTo`, on the channels of the state.
unfoldable pub go_to : Refs → State → Text → Text → List Out
go_to refs s net_id chan =
    (if has_key (chan_key net_id chan) s.channels then [] else ensure_chan refs net_id chan)
    ++ dispatch (set_active_net (some net_id))
      ∷ dispatch (set_active_chan net_id chan)
      ∷ dispatch (clear_unread net_id chan)
      ∷ load_history 100 net_id chan
      ∷ []

-- `onSelect` of the quick switcher.
unfoldable pub select : Text → Text → List Out
select net_id chan =
    dispatch (set_active_net (some net_id))
    ∷ dispatch (set_active_chan net_id chan)
    ∷ dispatch (clear_unread net_id chan)
    ∷ load_history 100 net_id chan
    ∷ []

-- "Message" in the menu of a nick.
unfoldable pub message_nick : State → Text → Text → List Out
message_nick s net_id nick =
    (if has_key (chan_key net_id nick) s.channels
      then []
      else dispatch (chan_join net_id nick) ∷ [])
    ++ dispatch (set_active_net (some net_id)) ∷ dispatch (set_active_chan net_id nick) ∷ []

-- "WHOIS", if the network has a handle; a handle drops what it cannot send.
unfoldable pub whois_nick : Refs → Bool → Text → Text → List Out
whois_nick refs has_handle net_id nick =
    if has_handle
    then send net_id (lit "WHOIS " ++ nick)
      ∷ (ensure_chan refs net_id nick
          ++ dispatch (set_active_net (some net_id)) ∷ dispatch (set_active_chan net_id nick) ∷ [])
    else []

unfoldable pub ignore_nick : Text → List Out
ignore_nick nick = set_ignored nick true ∷ []

-- "Close" in the menu of a direct message.
unfoldable pub close_direct : Refs → Bool → Text → Text → List Out
close_direct refs has_handle net_id nick =
    (if set_has net_id refs.monitor_unsupported
      then []
      else if has_handle
      then send net_id (lit "MONITOR - " ++ nick) ∷ []
      else [])
    ++ dispatch (chan_part_remove net_id nick) ∷ []

-- "Rejoin Channel", "Leave Channel" and "Close & Remove" in the menu of a channel.
unfoldable pub rejoin_channel : Bool → Text → Text → List Out
rejoin_channel has_handle net_id chan =
    if has_handle then send net_id (lit "JOIN " ++ chan) ∷ [] else []

unfoldable pub leave_channel : Bool → Text → Text → List Out
leave_channel has_handle net_id chan =
    if has_handle then send net_id (lit "PART " ++ (chan ++ lit " :Leaving")) ∷ [] else []

unfoldable pub remove_channel : Text → Text → List Out
remove_channel net_id chan = dispatch (chan_part_remove net_id chan) ∷ []

abbrev is_open_value : Option Bool → Bool
is_open_value none = true
is_open_value (some b) = b

-- `collapsed[key] !== false`
unfoldable pub is_open : Text → Dict Bool → Bool
is_open key collapsed = is_open_value (lookup key collapsed)

-- `toggle`
unfoldable pub toggle_fold : Text → Dict Bool → Dict Bool
unfolding is_open
toggle_fold key collapsed = put key (not (is_open key collapsed)) collapsed

-- `chansUnread`, and `dmsUnread` and `starredUnread` alike.
unfoldable pub section_unread : Text → Dict (List Text) → State → List Text → ℕ
section_unread net_id muted s [] = 0
section_unread net_id muted s (n ∷ ns) =
    (if is_marked net_id n muted then 0 else unread_at (chan_key net_id n) s)
    + section_unread net_id muted s ns
