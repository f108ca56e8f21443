-- ===== src/Sidebar/Tests.antt =====
-- Clicks and drops in the sidebar, and the theorems at them.
use korechat.Common.{
  ◌∷◌, [], ◌≡◌, refl, Text, List, lit, text_eq, is_empty, set_has, starts_with, true, false, none,
  some, if◌then◌else◌,
}
use korechat.Chat.{State, Clock, init, net_prefix, chan_key, unread_at}
use korechat.Chat.Keys.{chan_of_key, before_sep, after_sep}
use korechat.Chat.Reducer.{run}
use korechat.Client.Samples.{refs}
use korechat.Line.Touched.{dispatched}
use korechat.Sidebar.Manual.{
  IsPlaced, channel_names, drop_channel-IsPlaced, shown_sections, shown_sections_once,
}
use korechat.Sidebar.Opened.{IsShown, go_to-IsRead}
use korechat.Sidebar.Saved.{saved_when_quiet}
use korechat.Sidebar.Savers.{Event, changes, waits, requested, stored, mounted}
use korechat.Sidebar.Savers
use korechat.Sidebar.Sections.{shown_in, all_names, keep_when_filtered}
use korechat.Sidebar.Windows.{go_to, message_nick}

abbrev a : Text
a = b'a' ∷ []

abbrev chan_c : Text
chan_c = b'#' ∷ b'c' ∷ []

abbrev chan_d : Text
chan_d = b'#' ∷ b'd' ∷ []

abbrev clock : Clock
clock = record { minute = λ t. t; millis = λ t. 0; iso = λ n. [] }

-- The channels "#c" and "#d" of the network "a".
abbrev two_channels : State
two_channels = record init {
  channels =
      (b'a' ∷ b':' ∷ b':' ∷ chan_c, record { topic = []; members = []; left = false })
      ∷ (b'a' ∷ b':' ∷ b':' ∷ chan_d, record { topic = []; members = []; left = false })
      ∷ [];
}

shown_sections_once_example :
    shown_in chan_c
      (shown_sections clock (λ x y. true) [] [] false a ((a, chan_c ∷ []) ∷ []) two_channels)
    ≡ (if keep_when_filtered false a two_channels chan_c then 1 else 0)
shown_sections_once_example =
    shown_sections_once clock (λ x y. true) [] [] false a ((a, chan_c ∷ []) ∷ []) two_channels
      chan_c
      (unfold all_names chan_of_key before_sep after_sep starts_with net_prefix set_has text_eq in
        refl)
      (unfold text_eq lit in refl)

drop_channel-IsPlaced_example :
    (new : List Text) × IsPlaced (λ x y. true) chan_d chan_c a two_channels [] new
drop_channel-IsPlaced_example =
    drop_channel-IsPlaced (λ x y. true) chan_d chan_c a two_channels [] (unfold is_empty in refl)
      (unfold text_eq in refl)
      (unfold channel_names all_names chan_of_key before_sep after_sep starts_with net_prefix
          set_has text_eq lit in
        refl)
      (unfold channel_names all_names chan_of_key before_sep after_sep starts_with net_prefix
          set_has text_eq lit in
        refl)

-- Two changes, half a second apart.
abbrev edits : List (Event Text)
edits = changes chan_c ∷ waits 500 ∷ changes chan_d ∷ []

saved_when_quiet_example :
    (requested none
        (Savers.run true
          (changes chan_c ∷ waits 500 ∷ changes chan_d ∷ waits 800 ∷ [])
          (mounted a)).1
      ≡ some chan_d)
    × (stored none (Savers.run true edits (mounted a)).1 ≡ some chan_d)
saved_when_quiet_example = saved_when_quiet true edits a

go_to-IsRead_example :
    (IsShown (run clock init (dispatched (go_to refs init a chan_c))) a chan_c
      × (unread_at (chan_key a chan_c) (run clock init (dispatched (go_to refs init a chan_c)))
          ≡ 0))
    × IsShown (run clock init (dispatched (message_nick init a chan_c))) a chan_c
go_to-IsRead_example = go_to-IsRead clock refs init a chan_c
