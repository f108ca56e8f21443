-- ===== src/Sidebar.antt =====
-- The lists beside the messages in frontend/app.jsx: the marks that the user sets on channels
-- (`toggleStar`, `toggleMute`, `toggleDefault`), and what `QuickSwitcherModal` offers.
pub mod Marks
pub mod Offered
pub mod Order
pub mod Ordered
pub mod Sections
pub mod Sorts
pub mod Manual
pub mod Savers
pub mod Cursor
pub mod Windows
pub mod Opened
pub mod Saved
pub mod Tests
use korechat.Common.{
  ℕ, ◌+◌, ◌++◌, ◌∷◌, [], Text, text_eq, starts_with, is_empty, or_text, includes, lower, trim, Dict,
  lookup, put, remove, set_has, set_add, set_delete, keys, keep, List, length, drop, Bool, false,
  not, ◌&&◌, ◌||◌, Option, none, some, get_or_else, if◌then◌else◌,
}
use korechat.Chat.{Channel, net_prefix, status_chan}

-- `toggleStar` and `toggleMute`, on the starred or muted names of each network
unfoldable pub toggle : Text → Text → Dict (List Text) → Dict (List Text)
toggle net_id name marks =
    let cur = get_or_else (lookup net_id marks) [] in
    put net_id (if set_has name cur then set_delete name cur else cur ++ name ∷ []) marks

-- `isStarred` and `isMuted`
unfoldable pub is_marked : Text → Text → Dict (List Text) → Bool
is_marked net_id name marks = set_has name (get_or_else (lookup net_id marks) [])

abbrev pub same : Option Text → Text → Bool
same none chan = false
same (some c) chan = text_eq c chan

-- `isDefault`
unfoldable pub is_default : Text → Text → Dict Text → Bool
is_default net_id chan defaults = same (lookup net_id defaults) chan

unfoldable pub toggle_default : Text → Text → Dict Text → Dict Text
unfolding is_default
toggle_default net_id chan defaults =
    if is_default net_id chan defaults then remove net_id defaults else put net_id chan defaults

-- The names of a network that are shown in the switcher; an absent one is "".
pub record Label : Type 0 where
  pub name : Text
  pub host : Text

pub record Item : Type 0 where
  pub net_id : Text
  pub chan : Text
  pub net_name : Text

-- The inner loop of `items`, over the keys of the channels.
unfoldable pub items_of : Text → Text → List Text → List Item
items_of net_id net_name [] = []
items_of net_id net_name (k ∷ ks) =
    let rest = items_of net_id net_name ks in
    let chan = drop (length net_id + 2) k in
    if starts_with k (net_prefix net_id) && not (text_eq chan status_chan)
    then record { net_id = net_id; chan = chan; net_name = net_name } ∷ rest
    else rest

-- `items`
unfoldable pub items : Dict Label → List Text → List Text → List Item
items networks [] ks = []
items networks (n ∷ order) ks =
    (elim (lookup n networks) [
      | none ↦ []
      | some l ↦ items_of n (or_text l.name (or_text l.host n)) ks
    ])
    ++ items networks order ks

-- `filtered`
unfoldable pub filtered : Text → List Item → List Item
filtered query list =
    if is_empty (trim query)
    then list
    else keep
        (λ i. includes (lower i.chan) (lower query) || includes (lower i.net_name) (lower query))
        list
