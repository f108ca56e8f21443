-- ===== src/Logs/Pages.antt =====
-- The pages of the log browser.
use korechat.Common.{
  ℕ, zero, suc, ◌+◌, ◌*◌, ◌/◌, ◌≤◌, ◌<◌, ◌≡◌, ◌∙◌, ap, refl, true, false, if◌then◌else◌, some,
  arith, ◌↔◌,
}
use korechat.Logs.{Browser, limit, found, total_pages, has_next}

-- The button for the next page can be pressed exactly while entries lie behind the page that is shown.
pub has_next_iff :
    (b : Browser) (n : ℕ) → b.total ≡ some n → (has_next b ≡ true) ↔ ((b.page + 1) * limit < n)
unfolding has_next total_pages
has_next_iff b n h = rw h (ground arith)

-- The browser after the button for the next page, if it can be pressed, and an answer with as many
-- entries as before.
unfoldable pub press_next : Browser → Browser
press_next b = if has_next b then found (b.page + 1) b.total b else b

unfoldable pub turn : ℕ → Browser → Browser
turn zero b = b
turn (suc k) b = turn k (press_next b)

abbrev pub at_page : ℕ → ℕ → Browser → Browser
at_page n p b = record b { total = some n; page = p; loading = false }

press_next_page :
    (n p : ℕ) (b : Browser) → (p + 1) * limit < n → press_next (at_page n p b) ≡ at_page n (p + 1) b
unfolding press_next found
press_next_page n p b h =
    let more : has_next (at_page n p b) ≡ true = (has_next_iff (at_page n p b) n refl).1 h in
    rw more

turn_pages : (k n p : ℕ) (b : Browser) → (p + k) * limit < n → (turn k (at_page n p b)).page ≡ p + k
unfolding turn
turn_pages zero n p b h = omega arith
turn_pages (suc k) n p b h =
    ap (λ c. (turn k c).page) (press_next_page n p b (omega arith))
    ∙ turn_pages k n (p + 1) b (omega arith)
    ∙ omega arith

-- Every entry can be reached: from the first page, the button leads to the page on which it stands.
pub turn_reaches :
    (i n : ℕ) (b : Browser)
    → i < n
    → ((turn (i / limit) (at_page n 0 b)).page * limit ≤ i)
      × (i < (turn (i / limit) (at_page n 0 b)).page * limit + limit)
turn_reaches i n b h =
    let e = turn_pages (i / limit) n 0 b (omega arith) in rw e (omega arith, omega arith)
