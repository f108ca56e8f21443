-- ===== src/Worker.antt =====
-- The service worker, frontend/sw.js. `pathname` is `new URL(url).pathname` of the browser, and a
-- response is a value of any type, with its flag `ok`.
pub mod Tests
use korechat.Common.{
  ◌++◌, ◌∷◌, [], ◌≡◌, refl, ◌∙◌, Text, lit, text_eq, text_eq_iff, starts_with, includes, Dict,
  lookup, lookup-put, put, List, Bool, Bool-cases, true, false, not, ◌&&◌, ◌||◌, Option, none, some,
  inl, inr, if◌then◌else◌, arith,
}

pub record Request : Type 0 where
  pub method : Text
  pub url : Text

pub record Response (R : Type 0) : Type 0 where
  pub ok : Bool
  pub content : R

-- What the page gets: the browser's own answer where the worker leaves the request alone, a response,
-- or none.
pub data Answer (R : Type 0) : Type 0 where
  untouched failed : Answer R
  answered : Response R → Answer R

-- An open window of the page, or of another one: its address, and whether it can be focused.
pub record Client : Type 0 where
  pub url : Text
  pub can_focus : Bool

pub data Click : Type 0 where
  focus : Client → Click
  open_window nothing : Click

-- The listener of "notificationclick".
unfoldable pub notification_click : Text → Bool → List Client → Click
notification_click origin can_open [] = if can_open then open_window else nothing
notification_click origin can_open (c ∷ cs) =
    let rest = notification_click origin can_open cs in
    if includes c.url origin && c.can_focus then focus c else rest

-- The listener of "activate" deletes what earlier workers stored.
unfoldable pub on_activate : {R : Type 0} → Dict (Response R) → Dict (Response R)
on_activate cache = []

module _ (pathname : Text → Text) where
  -- Icons and the manifest.
  unfoldable pub is_cached : Text → Bool
  is_cached path = starts_with path (lit "/icons/") || text_eq path (lit "/manifest.json")

  -- The early returns of the listener of "fetch".
  unfoldable pub is_handled : Request → Bool
  is_handled r =
      let path = pathname r.url in
      text_eq r.method (lit "GET")
      && (not (starts_with path (lit "/api/")) && not (starts_with path (lit "/ws")))

module _ {R : Type 0} (pathname : Text → Text) where
  abbrev from_cache : Option (Response R) → Answer R
  from_cache none = failed
  from_cache (some res) = answered res

  -- The listener of "fetch": the cache by the addresses of its requests, and what the network has
  -- answered, `none` if it failed.
  unfoldable pub on_fetch :
      Request → Option (Response R) → Dict (Response R) → Dict (Response R) × Answer R
  unfolding is_handled is_cached
  on_fetch r none cache =
      if is_handled pathname r then (cache, from_cache (lookup r.url cache)) else (cache, untouched)
  on_fetch r (some res) cache =
      if is_handled pathname r
      then (
        if res.ok && is_cached pathname (pathname r.url) then put r.url res cache else cache,
        answered res,
      )
      else (cache, untouched)

  -- The cache after a worker was activated and has met requests.
  abbrev pub run : List (Request × Option (Response R)) → Dict (Response R) → Dict (Response R)
  run [] cache = cache
  run ((r, net) ∷ more) cache = run more (on_fetch r net cache).0

  -- Nothing is stored but icons and the manifest.
  abbrev pub HasNoCode : Dict (Response R) → Type 0
  HasNoCode cache =
      (url : Text) → is_cached pathname (pathname url) ≡ false → lookup url cache ≡ none

  on_fetch-HasNoCode :
      (r : Request) (net : Option (Response R)) (cache : Dict (Response R))
      → HasNoCode cache
      → HasNoCode (on_fetch r net cache).0
  unfolding on_fetch
  on_fetch-HasNoCode r none cache h url e = elim (Bool-cases (is_handled pathname r)) [
    | inl f ↦ rw f (h url e)
    | inr f ↦ rw f (h url e)
  ]
  on_fetch-HasNoCode r (some res) cache h url e = elim (Bool-cases (is_handled pathname r)) [
    | inr f ↦ rw f (h url e)
    | inl f ↦ elim (Bool-cases (res.ok && is_cached pathname (pathname r.url))) [
      | inr g ↦ rw (f, g) (h url e)
      | inl g ↦
          let other : text_eq r.url url ≡ false = elim (Bool-cases (text_eq r.url url)) [
            | inr k ↦ k
            | inl k ↦
                let same : r.url ≡ url = ground (arith, text_eq_iff r.url url) in
                let cached : is_cached pathname (pathname r.url) ≡ false = rw same e in ground arith
          ] in
          rw (f, g) (rw (lookup-put r.url url res cache, other) (h url e))
    ]
  ]

  run-HasNoCode :
      (es : List (Request × Option (Response R))) (cache : Dict (Response R))
      → HasNoCode cache
      → HasNoCode (run es cache)
  run-HasNoCode [] cache h = h
  run-HasNoCode ((r, net) ∷ es) cache h =
      run-HasNoCode es (on_fetch r net cache).0 (on_fetch-HasNoCode r net cache h)

  -- A GET of a file that the service worker handles and that is neither an icon nor the manifest is
  -- never answered from the cache: whatever was stored before the worker was activated and whatever
  -- requests it has met since, the page gets what the network answers, and nothing if the network
  -- fails.
  pub on_fetch-fresh :
      (old : Dict (Response R)) (es : List (Request × Option (Response R))) (r : Request)
      → is_handled pathname r ≡ true
      → is_cached pathname (pathname r.url) ≡ false
      → ((res : Response R) → (on_fetch r (some res) (run es (on_activate old))).1 ≡ answered res)
        × ((on_fetch r none (run es (on_activate old))).1 ≡ failed)
  unfolding on_fetch
  on_fetch-fresh old es r h e = (
    λ res. rw h refl,
    rw (h, run-HasNoCode es (on_activate old) (λ url f. unfold on_activate lookup in refl) r.url e)
        refl,
  )
