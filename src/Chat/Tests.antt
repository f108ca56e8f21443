-- ===== src/Chat/Tests.antt =====
-- Runs of `reducer` on small states, and the theorems at them.
use korechat.Common.{
  ℕ, ◌+◌, ◌*◌, ◌-◌, ◌++◌, ◌∷◌, [], ◌≡◌, ◌≢◌, ◌≤◌, refl, Text, lit, is_empty, lookup, set_has, List,
  length, take, ◌&&◌, some, leb, if◌then◌else◌, arith,
}
use korechat.Common.Sorting.{IsSorted}
use korechat.Chat.{
  State, Action, Message, Clock, message, init, net_add, net_del, set_active_net, chan_join,
  add_msg, prepend_msgs, sort_msgs, chan_key, messages_at,
}
use korechat.Chat.Keys.{NoColon}
use korechat.Chat.Messages
use korechat.Chat.Messages.{fingerprint, is_duplicate, recent, fresh, is_active, time_key}
use korechat.Chat.Messages.Dedup.{add_msg-same_fingerprint}
use korechat.Chat.Reducer.{reducer, run}
use korechat.Chat.Stored.{IsValid, init-IsValid}
use korechat.Chat.Stored.Sessions.{reducer-IsValid}
use korechat.Chat.Removal.{IsGone, IsSame, reducer-net_del}
use korechat.Chat.Timeline.{IsTimeline, taken, reducer-sort_msgs, reducer-prepend_msgs}

-- A time of day in the form "10:00:00": the digits as a number.
abbrev digits : ℕ → Text → ℕ
digits n [] = n
digits n (c ∷ s) = digits (if leb b'0' c && leb c b'9' then n * 10 + (c - b'0') else n) s

abbrev clock : Clock
clock = record { minute = λ t. take 5 t; millis = λ t. digits 0 t; iso = λ n. [] }

abbrev a : Text
a = b'a' ∷ []

abbrev b : Text
b = b'b' ∷ []

abbrev chan : Text
chan = b'#' ∷ b'c' ∷ []

abbrev at_time : Text → Text → Text → Message
at_time id time text = record {
  kind = message;
  subtype = [];
  nick = some (b'n' ∷ []);
  text = text;
  time = time;
  id = id;
}

abbrev first : Message
first = at_time (b'1' ∷ []) (lit "10:00:30") (b'h' ∷ b'i' ∷ [])

-- The same minute and text as the first, another id.
abbrev second : Message
second = at_time (b'2' ∷ []) (lit "10:00:50") (b'h' ∷ b'i' ∷ [])

abbrev early : Message
early = at_time (b'3' ∷ []) (lit "09:59:00") (b'y' ∷ [])

abbrev session : List Action
session =
    net_add a []
    ∷ net_add b []
    ∷ set_active_net (some a)
    ∷ chan_join a chan
    ∷ add_msg a chan first
    ∷ add_msg a chan early
    ∷ chan_join b chan
    ∷ []

abbrev before : State
before = run clock init session

a-NoColon : NoColon a
a-NoColon = (omega arith, tt)

reducer-IsValid_example : IsValid (reducer clock init (add_msg a chan first))
reducer-IsValid_example = reducer-IsValid clock init (add_msg a chan first) init-IsValid

add_msg-same_fingerprint_example :
    Messages.add_msg clock a chan second (Messages.add_msg clock a chan first init)
    ≡ Messages.add_msg clock a chan first init
add_msg-same_fingerprint_example =
    add_msg-same_fingerprint clock a chan first second init (unfold set_has is_empty in refl)
      (unfold fingerprint lit is_empty in refl)

reducer-net_del_example :
    IsGone a (reducer clock before (net_del a))
    × ((j : Text) → NoColon j → a ≢ j → IsSame j before (reducer clock before (net_del a)))
reducer-net_del_example = reducer-net_del clock a before a-NoColon

reducer-sort_msgs_example :
    ((c : Text)
      → IsTimeline clock
          (messages_at (chan_key a c) (reducer clock before (sort_msgs a)))
          (messages_at (chan_key a c) before))
    × ((j c : Text)
        → NoColon j
        → a ≢ j
        → messages_at (chan_key j c) (reducer clock before (sort_msgs a))
          ≡ messages_at (chan_key j c) before)
reducer-sort_msgs_example = reducer-sort_msgs clock a before a-NoColon

reducer-prepend_msgs_example :
    IsSorted (time_key clock) (
      messages_at (chan_key a chan) (reducer clock init (prepend_msgs a chan (first ∷ early ∷ []))))
    × (length (taken clock a chan (first ∷ early ∷ []) init)
            + length (messages_at (chan_key a chan) init)
          ≤ 1000
        → IsTimeline clock
            (messages_at
              (chan_key a chan)
              (reducer clock init (prepend_msgs a chan (first ∷ early ∷ []))))
            (taken clock a chan (first ∷ early ∷ []) init ++ messages_at (chan_key a chan) init))
reducer-prepend_msgs_example =
    reducer-prepend_msgs clock a chan (first ∷ early ∷ []) init
      (unfold fresh lookup set_has is_empty in λ e. cc)
