-- ===== src/Root/Tests.antt =====
-- A page that is used: a login, a look at the administration, another theme.
use korechat.Common.{◌∷◌, [], List}
use korechat.Root.{User, Event, loaded, thrown, entered, opens_admin, toggles, started, run}
use korechat.Root.Views.{IsConsistent, run-started-IsConsistent}

abbrev user : User
user = record { name = b'u' ∷ []; theme = [] }

abbrev session : List Event
session = loaded thrown ∷ entered user ∷ opens_admin ∷ toggles ∷ []

run-started-IsConsistent_example : IsConsistent (run session (started []))
run-started-IsConsistent_example = run-started-IsConsistent session []
