-- ===== src/Command/Tests.antt =====
-- Lines that the user enters, and the theorems at them.
use korechat.Common.{
  ◌++◌, ◌∷◌, [], is_white, false, ◌≡◌, refl, Text, lit, text_eq, is_empty, set_has, true, arith,
}
use korechat.Irc.{parse_irc}
use korechat.Client.{Refs, send}
use korechat.Command.Menu.{Menu, ModeRow, rank, is_dim, click, kick_command}
use korechat.Command.Clicked.{IsOpen, kick_command-misses}
use korechat.Command.Switched.{Outranks, IsGranted, mode_row-IsGranted}
use korechat.Client.Samples.{env, refs}
use korechat.Line.Privmsg.{display_text}
use korechat.Line.Modes.{mode_to_prefix, mode_changes}
use korechat.Command.{Input, raw, own_message}
use korechat.Command.Messages.{action}
use korechat.Command.Operators.{member_mode}
use korechat.Command.Echoed.{action_text, action-echo}
use korechat.Command.Handle.{handle_send}
use korechat.Command.Offline.{sent, handle_send-offline}
use korechat.Command.Granted.{member_mode-granted}

abbrev net : Text
net = b'n' ∷ []

abbrev chan : Text
chan = b'#' ∷ b'c' ∷ []

abbrev nick : Text
nick = b'k' ∷ []

-- "/op k", or "/me k", in a channel of a ready connection.
abbrev entered : Input
entered = record {
  net_id = net;
  chan = chan;
  me = b'm' ∷ [];
  refs = record refs { ready = net ∷ [] };
  env = env;
  cmd = lit "/op";
  rest = nick;
  args = nick ∷ [];
}

action-echo_example :
    (line : Text) × (action entered
      ≡ raw entered line
        ∷ own_message entered chan (display_text (b'm' ∷ []) (action_text nick))
        ∷ [])
    × (parse_irc line ≡ record {
      tags = [];
      prefix = [];
      command = lit "PRIVMSG";
      params = chan ∷ action_text nick ∷ [];
    })
action-echo_example =
    action-echo entered (unfold set_has text_eq in refl)
      (omega arith, (omega arith, (omega arith, tt))) (unfold lit text_eq in refl)
      (unfold is_empty in refl)

member_mode-granted_example :
    (line : Text) × (flags : Text) × (member_mode entered (lit "/op") (b'+' ∷ []) (b'o' ∷ [])
      ≡ raw entered line ∷ [])
    × ((parse_irc line).params ≡ chan ∷ flags ∷ nick ∷ [])
    × (mode_changes (parse_irc line).params flags 2 true ≡ (nick, b'@' ∷ []) ∷ [])
unfolding is_empty lit text_eq
member_mode-granted_example =
    member_mode-granted entered (lit "/op") true b'o' (b'@' ∷ []) nick [] (unfold set_has in refl)
      (omega arith, (omega arith, (omega arith, tt))) refl ((omega arith, (omega arith, tt)), tt)
      (unfold mode_to_prefix in refl)

handle_send-offline_example : sent (handle_send env refs net chan (lit "/op k")) ≡ []
handle_send-offline_example =
    handle_send-offline env refs net chan (lit "/op k") (unfold set_has in refl)

-- The menu of the member "k" for an operator of the channel.
abbrev menu : Menu
menu = record {
  nick = nick;
  pfx = [];
  chan = chan;
  my_prefix = b'@' ∷ [];
  current_nick = b'm' ∷ [];
}

-- The row "Voice".
abbrev voice_row : ModeRow
voice_row = record { letter = b'v'; has = false; can_do = true }

abbrev ready_refs : Refs
ready_refs = record refs { ready = net ∷ [] }

menu-IsOpen : IsOpen ready_refs net menu
menu-IsOpen = record {
  ready = unfold set_has text_eq in refl;
  nick = (unfold is_empty in refl, unfold is_white in refl);
  chan = (unfold is_empty in refl, unfold is_white in refl);
  not_status = unfold text_eq lit in refl;
}

kick_command-misses_example :
    (tail : Text) × (handle_send env ready_refs net chan (kick_command menu [] (lit "Kicked"))
      ≡ send net (lit "KICK " ++ (chan ++ (lit " " ++ (chan ++ (lit " :" ++ (nick ++ tail))))))
        ∷ [])
kick_command-misses_example =
    kick_command-misses env ready_refs net menu [] (lit "Kicked") menu-IsOpen

mode_row-IsGranted_example :
    Outranks false (rank []) (rank (b'@' ∷ []))
    × IsGranted net menu voice_row (b'+' ∷ []) (
        handle_send env ready_refs net chan
          (lit "/mode " ++ (chan ++ (b' ' ∷ b'+' ∷ b'v' ∷ b' ' ∷ nick))))
mode_row-IsGranted_example =
    mode_row-IsGranted env ready_refs net menu voice_row (b'+' ∷ []) _ menu-IsOpen
      (omega arith, (omega arith, (omega arith, tt))) (omega arith, (omega arith, tt))
      (unfold mode_to_prefix in refl) (unfold click is_dim rank lit text_eq in refl)
