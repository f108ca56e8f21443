-- ===== src/Screen/Avatars.antt =====
-- `useAvatar` of frontend/app.jsx: the pictures of nicks, and for how long an answer is kept.
use korechat.Common.{
  ℕ, ◌+◌, ◌-◌, ◌≤◌, ◌<◌, ◌≡◌, Text, text_eq_refl, is_empty, Dict, lookup, lookup-put_self,
  lookup-remove, put, remove, ltb, Bool, true, false, Option, none, some, if◌then◌else◌, arith, ◌↔◌,
}

-- An entry of `_avatarCache`; `none` is a nick without a picture.
pub record Entry : Type 0 where
  pub url : Option Text
  pub ts : ℕ

-- `AVATAR_HIT_TTL` and `AVATAR_MISS_TTL`
abbrev pub ttl : Option Text → ℕ
ttl none = 30000
ttl (some url) = 300000

-- `Date.now() - (cached.ts || 0) > ttl`, or no entry.
abbrev pub is_stale : ℕ → Option Entry → Bool
is_stale now none = true
is_stale now (some e) = ltb (ttl e.url) (now - e.ts)

-- Whether the effect for a nick makes a request.
unfoldable pub wants : ℕ → Text → Dict Entry → Bool
wants now nick cache = if is_empty nick then false else is_stale now (lookup nick cache)

-- The answer, or a failure, which is kept as no picture.
unfoldable pub answered : ℕ → Text → Option Text → Dict Entry → Dict Entry
answered now nick url cache = put nick (record { url = url; ts = now }) cache

-- `delete _avatarCache[nick]`, after an upload.
unfoldable pub uploaded : Text → Dict Entry → Dict Entry
uploaded nick cache = remove nick cache

-- After an answer no request is made for the nick until 300 s have passed, or 30 s if it has no
-- picture; then one is. The clock does not go back.
pub wants-answered :
    (nick : Text) (url : Option Text) (cache : Dict Entry) (t now : ℕ)
    → is_empty nick ≡ false
    → t ≤ now
    → (wants now nick (answered t nick url cache) ≡ true) ↔ (ttl url + t < now)
unfolding wants answered
wants-answered nick url cache t now h le =
    rw (h, lookup-put_self nick (record { url = url; ts = t }) cache) (ground arith)

-- After an upload the next effect for the nick makes a request, whatever was kept.
pub wants-uploaded :
    (nick : Text) (cache : Dict Entry) (now : ℕ)
    → is_empty nick ≡ false
    → wants now nick (uploaded nick cache) ≡ true
unfolding wants uploaded
wants-uploaded nick cache now h = rw (h, lookup-remove nick nick cache, text_eq_refl nick)
