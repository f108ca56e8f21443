-- ===== src/Worker/Tests.antt =====
-- The service worker at requests.
use korechat.Common.{
  ℕ, ◌∷◌, [], ◌≡◌, refl, Text, lit, text_eq, starts_with, Dict, Option, some, none, true, List,
}
use korechat.Worker.{
  Request, Response, answered, failed, is_handled, is_cached, on_fetch, on_activate, run,
  on_fetch-fresh,
}

abbrev app : Request
app = record { method = lit "GET"; url = lit "/app.js" }

abbrev icon : Request
icon = record { method = lit "GET"; url = lit "/icons/a.png" }

abbrev reply : ℕ → Response ℕ
reply n = record { ok = true; content = n }

abbrev pathname : Text → Text
pathname url = url

abbrev met : List (Request × Option (Response ℕ))
met = (app, some (reply 1)) ∷ (icon, some (reply 2)) ∷ []

abbrev old : Dict (Response ℕ)
old = (app.url, reply 0) ∷ []

on_fetch-fresh_example :
    ((res : Response ℕ)
      → (on_fetch pathname app (some res) (run pathname met (on_activate old))).1 ≡ answered res)
    × ((on_fetch pathname app none (run pathname met (on_activate old))).1 ≡ failed)
on_fetch-fresh_example =
    on_fetch-fresh pathname old met app (unfold is_handled lit starts_with text_eq in refl)
      (unfold is_cached lit starts_with text_eq in refl)
