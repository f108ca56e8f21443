-- ===== src/Root.antt =====
-- `App` of frontend/app.jsx: which view is shown to whom, and the theme that all of them share.
pub mod Views
pub mod Tests
use korechat.Common.{
  ℕ, zero, suc, ◌+◌, ◌%◌, ◌∷◌, [], ◌++◌, Text, lit, text_eq, is_empty, or_text, get_elem?,
  get_or_else, length, List, Bool, true, false, not, ◌&&◌, ◌||◌, Option, none, some, if◌then◌else◌,
  any,
}

-- `view`
pub data View : Type 0 where
  loading setup login chat admin : View

-- The user that the server answers, with the stored theme; "" is none.
pub record User : Type 0 where
  pub name : Text
  pub theme : Text

-- `view`, `me`, `theme`, and what the browser's storage has for "kc_theme"; "" is nothing.
pub record App : Type 0 where
  pub view : View
  pub me : Option User
  pub theme : Text
  pub stored : Text

-- `Object.keys(THEMES)`
unfoldable pub themes : List Text
themes = lit "dark" ∷ lit "light" ∷ lit "newmorning" ∷ lit "solarized" ∷ lit "dracula" ∷ []

-- `THEMES[t]`
unfoldable pub is_theme : Text → Bool
unfolding themes
is_theme t = any (text_eq t) themes

-- The state of a page that is loaded.
unfoldable pub started : Text → App
started stored = record {
  view = loading;
  me = none;
  theme = or_text stored (lit "dark");
  stored = stored;
}

-- The place of `keys.indexOf(t) + 1`.
unfoldable pub index_after : Text → List Text → ℕ
index_after t [] = 0
index_after t (u ∷ us) =
    let rest = index_after t us in
    if text_eq u t then 1 else elim rest [ zero ↦ 0 | suc i ↦ suc (suc i) ]

-- The theme behind another, and the first one behind the last.
unfoldable pub next_theme : Text → Text
unfolding themes index_after
next_theme t = get_or_else (get_elem? themes (index_after t themes % length themes)) []

-- The answers to the requests of the first effect.
pub data Loaded : Type 0 where
  needed : Loaded
  known : User → Loaded
  thrown : Loaded

pub data Event : Type 0 where
  -- the first effect is done
  loaded : Loaded → Event
  -- `onDone` of the set-up, or `onLogin`
  entered : User → Event
  -- the answer to the request of `handleLogout`
  logged_out : Event
  -- `onAdmin`
  opens_admin : Event
  -- `onBack`
  goes_back : Event
  -- `toggleTheme`
  toggles : Event
  -- `appSetTheme`, with a key of `THEMES`
  picks : Text → Event

-- The body of the PATCH of the profile.
pub data Effect : Type 0 where
  patch_theme : Text → Effect

-- `setTheme(t); persistTheme(t)`
unfoldable pub persist : Text → App → App × List Effect
persist t app = (record app { theme = t; stored = t }, patch_theme t ∷ [])

-- The theme of the server is taken if it is known here.
unfoldable pub take_theme : User → App → App
take_theme user app =
    if not (is_empty user.theme) && is_theme user.theme
    then record app { theme = user.theme; stored = user.theme }
    else app

unfoldable pub on_loaded : Loaded → App → App
unfolding take_theme
on_loaded needed app = record app { view = setup }
on_loaded (known user) app = record (take_theme user (record app { me = some user })) {
  view = chat;
}
on_loaded thrown app = record app { view = login }

-- Whether the view that is shown can raise the event; an answer can come at any time.
unfoldable pub can : View → Event → Bool
can loading (loaded l) = true
can setup (entered u) = true
can login (entered u) = true
can chat opens_admin = true
can admin opens_admin = true
can admin goes_back = true
can loading toggles = false
can v toggles = true
can chat (picks t) = is_theme t
can admin (picks t) = is_theme t
can v logged_out = true
can v e = false

unfoldable pub step : Event → App → App × List Effect
unfolding on_loaded persist next_theme
step (loaded l) app = (on_loaded l app, [])
step (entered user) app = (record app { me = some user; view = chat }, [])
step logged_out app = (record app { me = none; view = login }, [])
step opens_admin app = (record app { view = admin }, [])
step goes_back app = (record app { view = chat }, [])
step toggles app = persist (next_theme app.theme) app
step (picks t) app = persist t app

-- A session; what the view cannot raise does not happen.
unfoldable pub run : List Event → App → App
unfolding can step
run [] app = app
run (e ∷ es) app = run es (if can app.view e then (step e app).0 else app)
