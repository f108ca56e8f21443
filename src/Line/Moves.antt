-- ===== src/Line/Moves.antt =====
-- A member of two channels who quits, and one who takes another nick: the theorems at them.
use korechat.Common.{
  ◌∷◌, [], ◌≡◌, refl, Text, lit, text_eq, starts_with, has_key, lookup, false, none, ◌&&◌,
  if◌then◌else◌, arith, is_empty, List,
}
use korechat.Chat.{State, Clock, Action, init, net_prefix, set_topic, del_member}
use korechat.Chat.Reducer.{run}
use korechat.Chat.Roster.{roster, follow_all}
use korechat.Chat.Roster.Sessions.{roster-run}
use korechat.Client.{Refs, shown}
use korechat.Client.Samples.{env, refs}
use korechat.Line.{Ctx, in_history}
use korechat.Line.Members.{quit, nick_change}
use korechat.Line.Touched.{dispatched}
use korechat.Line.Departed.{renamed, quit-roster, nick_change-roster}

abbrev clock : Clock
clock = record { minute = λ t. t; millis = λ t. 0; iso = λ n. [] }

abbrev net : Text
net = b'n' ∷ []

abbrev key : Text
key = b'n' ∷ b':' ∷ b':' ∷ b'#' ∷ b'c' ∷ []

abbrev state : State
state = record init {
  channels =
      (
        key,
        record {
          topic = [];
          members = (b's' ∷ [], b'@' ∷ []) ∷ (b'k' ∷ [], []) ∷ [];
          left = false;
        },
      )
      ∷ [];
}

abbrev page : Refs
page = record refs { channels = state.channels }

abbrev line : Ctx
line = record {
  net_id = net;
  env = env;
  msg = record { tags = []; prefix = b's' ∷ []; command = lit "NICK"; params = (b't' ∷ []) ∷ [] };
  time = [];
  from = b's' ∷ [];
  me = b'm' ∷ [];
}

quit-roster_example : roster (run clock state (dispatched (quit line page))) key (b's' ∷ []) ≡ (
    if starts_with key (net_prefix net) && text_eq (b's' ∷ []) (b's' ∷ [])
    then none
    else roster state key (b's' ∷ []))
quit-roster_example =
    quit-roster clock state line page (unfold in_history lookup is_empty in refl) refl
      ((λ e. ground arith), tt) ((λ e. (ground arith, tt)), tt) (unfold has_key in refl, tt) key
      (b's' ∷ [])

nick_change-roster_example :
    roster (run clock state (dispatched (nick_change line page))) key (b't' ∷ []) ≡ (
      if starts_with key (net_prefix net)
      then renamed state (b's' ∷ []) (shown ((b't' ∷ []) ∷ []) 0) key (b't' ∷ [])
      else roster state key (b't' ∷ []))
nick_change-roster_example =
    nick_change-roster clock state line page (unfold in_history lookup is_empty in refl) refl
      ((λ e. ground arith), tt) ((λ e. (ground arith, tt)), tt) (unfold has_key in refl, tt) key
      (b't' ∷ [])

abbrev session : List Action
session = del_member net (b'#' ∷ b'c' ∷ []) (b's' ∷ []) ∷ set_topic net (b'#' ∷ b'c' ∷ []) [] ∷ []

roster-run_example :
    roster (run clock state session) key (b's' ∷ [])
    ≡ follow_all session key (b's' ∷ []) (roster state key (b's' ∷ []))
roster-run_example = roster-run clock state session key (b's' ∷ [])
