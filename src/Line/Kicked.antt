-- ===== src/Line/Kicked.antt =====
-- The reason of a KICK (frontend/app.jsx, `handleLine`).
use korechat.Common.{◌∷◌, [], ◌≡◌, refl, Text, List}
use korechat.Client.{Refs}
use korechat.Line.{Ctx, in_history}
use korechat.Line.Members.{kick}

-- The same line with other parameters.
abbrev pub with_params : Ctx → List Text → Ctx
with_params c params = record c { msg = record c.msg { params = params } }

-- A KICK whose third parameter is the reason is shown exactly as one without a reason.
pub kick-reason_lost :
    (c : Ctx) (refs : Refs) (chan target reason : Text)
    → kick (with_params c (chan ∷ target ∷ reason ∷ [])) refs
      ≡ kick (with_params c (chan ∷ target ∷ [])) refs
unfolding kick in_history
kick-reason_lost c refs chan target reason = refl
