-- ===== src/Logs.antt =====
-- The log browser in the settings of frontend/app.jsx: its filters, and the pages of what was found.
pub mod Pages
pub mod Tests
use korechat.Common.{
  ℕ, ◌+◌, ◌-◌, ◌*◌, ◌/◌, ◌∷◌, [], ◌++◌, Text, lit, text_eq, is_empty, show_nat, Dict, put, keep,
  List, leb, ltb, Bool, true, false, not, ◌&&◌, ◌||◌, ◌==◌, Option, none, some, if◌then◌else◌,
}

-- `LIMIT`
abbrev pub limit : ℕ
limit = 50

-- `filters`, `results` with their `total`, `page` and `loading`.
pub record Browser : Type 0 where
  pub filters : Dict Text
  pub total : Option ℕ
  pub page : ℕ
  pub loading : Bool

-- The state at first.
unfoldable pub opened : Browser
opened = record {
  filters =
      (lit "network_id", [])
      ∷ (lit "channel", [])
      ∷ (lit "nick", [])
      ∷ (lit "search", [])
      ∷ (lit "type", [])
      ∷ (lit "date_from", [])
      ∷ (lit "date_to", [])
      ∷ [];
  total = none;
  page = 0;
  loading = false;
}

-- `handleFilter`
unfoldable pub handle_filter : Text → Text → Browser → Browser
handle_filter key val b =
    if text_eq key (lit "network_id")
    then record b { filters = put (lit "channel") [] (put key val b.filters) }
    else record b { filters = put key val b.filters }

-- The filters that are set, as parameters.
unfoldable pub set_filters : Dict Text → Dict Text
set_filters fs = keep (λ (e : Text × Text). not (is_empty e.1)) fs

-- `search`: the parameters of the request.
unfoldable pub search : ℕ → Browser → Browser × Dict Text
unfolding set_filters
search pg b = (
  record b { loading = true },
  (lit "limit", show_nat limit) ∷ (lit "offset", show_nat (pg * limit)) ∷ set_filters b.filters,
)

-- What is done with the answer for a page, `none` if the request failed.
unfoldable pub found : ℕ → Option ℕ → Browser → Browser
found pg none b = record b { total = none; loading = false }
found pg (some n) b = record b { total = some n; page = pg; loading = false }

-- The parameters of `doExport`
unfoldable pub export_params : Browser → Dict Text
unfolding set_filters
export_params b = set_filters b.filters

-- `Math.ceil(results.total / LIMIT)`
unfoldable pub total_pages : Option ℕ → ℕ
total_pages none = 0
total_pages (some n) = (n + 49) / limit

-- Whether the button for the page before, or after, may be pressed.
unfoldable pub has_previous : Browser → Bool
has_previous b = not (b.page == 0)

unfoldable pub has_next : Browser → Bool
unfolding total_pages
has_next b = not (leb (total_pages b.total) (b.page + 1))
