-- ===== src/Connections/Tests.antt =====
-- Two networks, one of them connected.
use korechat.Common.{
  ◌∷◌, [], ◌≡◌, refl, Text, text_eq, is_empty, Dict, List, has_key, set_has, lookup, some, true,
}
use korechat.Socket.{Handle, start}
use korechat.Client.Samples.{refs}
use korechat.Chat.{Clock, init}
use korechat.Chat.Reducer.{run}
use korechat.Connections.Loaded.{load_networks-agrees}
use korechat.Connections.Managed.{Listed, actions, load_networks}
use korechat.Connections.Watchdog.{watchdog, watchdog-rest}

abbrev net : Text
net = b'n' ∷ []

abbrev conns : Dict Handle
conns = (net, start) ∷ []

watchdog-rest_example : watchdog refs (net ∷ []) conns ≡ (conns, [])
watchdog-rest_example =
    watchdog-rest refs (net ∷ []) conns
      (([], (refl, (unfold start in refl, unfold start in refl))), tt)

abbrev clock : Clock
clock = record { minute = λ t. t; millis = λ t. 0; iso = λ n. [] }

abbrev nets : List Listed
nets = record { id = b'm' ∷ []; props = [] } ∷ record { id = net; props = [] } ∷ []

load_networks-agrees_example :
    let (b, (hs, calls)) = load_networks refs (net ∷ []) (some nets) [] in
    (has_key net (run clock init (actions calls)).networks ≡ true)
    × (set_has net (run clock init (actions calls)).network_order ≡ true)
    × (lookup net hs ≡ some start)
unfolding set_has text_eq is_empty
load_networks-agrees_example = load_networks-agrees clock refs (net ∷ []) nets net
