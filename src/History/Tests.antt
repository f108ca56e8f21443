-- ===== src/History/Tests.antt =====
-- A load of a window, and the theorems at it.
use korechat.Common.{◌≡◌, ◌∷◌, [], Text, true, false}
use korechat.Chat.{Clock}
use korechat.Client.Samples.{env, refs}
use korechat.History.{load_channel_history}
use korechat.History.Loads.{load_channel_history_once}

abbrev clock : Clock
clock = record { minute = λ t. t; millis = λ t. 7; iso = λ n. [] }

abbrev net : Text
net = b'n' ∷ []

abbrev chan : Text
chan = b'#' ∷ b'c' ∷ []

load_channel_history_once_example :
    load_channel_history clock env
      (load_channel_history clock env refs net chan 100 true).0
      net
      chan
      50
      false
    ≡ ((load_channel_history clock env refs net chan 100 true).0, [])
load_channel_history_once_example = load_channel_history_once clock env refs net chan 100 50 true
