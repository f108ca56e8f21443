-- ===== src/Sidebar/Sections.antt =====
-- The sections of a network in the sidebar of frontend/app.jsx: starred windows, channels and direct
-- messages. `sort` stands for the built-in `sort` with the comparison that the user chose, `by_name` for
-- it with `localeCompare`.
use korechat.Common.{
  ℕ, ◌+◌, [], ◌≡◌, refl, Text, lit, text_eq, starts_with, Dict, lookup, keys, map, set_has, keep,
  List, Bool, true, false, not, ◌&&◌, ◌||◌, get_or_else, if◌then◌else◌, ltb,
}
use korechat.Chat.{State, net_prefix, chan_key, status_chan, unread_at, active_chan_of}
use korechat.Chat.Keys.{chan_of_key}
use korechat.Sidebar.{same}
use korechat.Sidebar.Ordered.{set_has-keep}

-- `allNames`
unfoldable pub all_names : Text → State → List Text
all_names net_id s =
    map chan_of_key (keep (λ k. starts_with k (net_prefix net_id)) (keys s.channels))

-- `keepWhenFiltered`
unfoldable pub keep_when_filtered : Bool → Text → State → Text → Bool
keep_when_filtered unread_only net_id s n =
    not unread_only
    || (ltb 0 (unread_at (chan_key net_id n) s)
        || (same s.active_net net_id && same (active_chan_of net_id s) n))

-- The starred windows, the channels and the direct messages, as they are shown.
pub record Sections : Type 0 where
  pub starred : List Text
  pub chans : List Text
  pub dms : List Text

-- In how many sections a window is shown.
abbrev pub shown_in : Text → Sections → ℕ
shown_in n v =
    (if set_has n v.starred then 1 else 0)
    + ((if set_has n v.chans then 1 else 0) + (if set_has n v.dms then 1 else 0))

-- The three tests on a window that is not the status window.
count_once :
    (is_starred is_channel kept : Bool)
    → (if is_starred && kept then 1 else 0)
        + ((if is_channel && (not is_starred && kept) then 1 else 0)
            + (if not is_channel && (not is_starred && kept) then 1 else 0))
      ≡ (if kept then 1 else 0)
count_once true true true = refl
count_once true true false = refl
count_once true false true = refl
count_once true false false = refl
count_once false true true = refl
count_once false true false = refl
count_once false false true = refl
count_once false false false = refl

module _ (by_name sort : List Text → List Text) where
  unfoldable pub sections : (Text → Bool) → List Text → List Text → Sections
  sections kept starred names = record {
    starred = by_name (keep kept starred);
    chans = sort (
        keep
          (λ n.
            not (text_eq n status_chan)
            && (starts_with n (lit "#") && (not (set_has n starred) && kept n)))
          names);
    dms = sort (
        keep
          (λ n.
            not (text_eq n status_chan)
            && (not (starts_with n (lit "#")) && (not (set_has n starred) && kept n)))
          names);
  }

  unfoldable pub network_sections : Bool → Text → Dict (List Text) → State → Sections
  unfolding sections all_names keep_when_filtered
  network_sections unread_only net_id starred s =
      sections (keep_when_filtered unread_only net_id s) (get_or_else (lookup net_id starred) [])
        (all_names net_id s)

  module _ (same_names : (n : Text) (xs : List Text) → set_has n (by_name xs) ≡ set_has n xs)
      (same_sorted : (n : Text) (xs : List Text) → set_has n (sort xs) ≡ set_has n xs) where
    sections_lem :
        (kept : Text → Bool) (starred names : List Text) (n : Text)
        → set_has n names ≡ true
        → text_eq n status_chan ≡ false
        → shown_in n (sections kept starred names) ≡ (if kept n then 1 else 0)
    unfolding sections
    sections_lem kept starred names n h k =
        rw
          (
            same_names n,
            same_sorted n,
            same_sorted n,
            set_has-keep _ n starred,
            set_has-keep _ n names,
            set_has-keep _ n names,
            h,
            k,
          )
          (count_once (set_has n starred) (starts_with n (lit "#")) (kept n))

    -- If sorting keeps the names: every window of a network other than the status window stands in
    -- exactly one of the three sections, if the filter for unread windows is off, or it has unread
    -- messages, or it is the selected one; and in none otherwise.
    pub network_sections_once :
        (unread_only : Bool) (net_id : Text) (starred : Dict (List Text)) (s : State) (n : Text)
        → set_has n (all_names net_id s) ≡ true
        → text_eq n status_chan ≡ false
        → shown_in n (network_sections unread_only net_id starred s)
          ≡ (if keep_when_filtered unread_only net_id s n then 1 else 0)
    unfolding network_sections
    network_sections_once unread_only net_id starred s n h k =
        sections_lem (keep_when_filtered unread_only net_id s)
          (get_or_else (lookup net_id starred) []) (all_names net_id s) n h k
