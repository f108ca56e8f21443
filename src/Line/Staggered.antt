-- ===== src/Line/Staggered.antt =====
-- The requests for member lists after a replay (frontend/app.jsx, `handleLine`, "replay-done").
use korechat.Common.{
  ℕ, zero, suc, ◌+◌, ◌∷◌, [], ◌≡◌, refl, ap, Text, lit, starts_with, drop, length, List,
  if◌then◌else◌, Bool-cases, inl, inr,
}
use korechat.Chat.{net_prefix}
use korechat.Client.{Out, send_later}
use korechat.Line.Control.{open_windows}

-- The delays of the requests, in order.
abbrev pub delays : List Out → List ℕ
delays [] = []
delays (send_later d net_id raw ∷ os) = d ∷ delays os
delays (o ∷ os) = delays os

-- So many numbers from `d` on, 250 apart.
abbrev pub spaced : ℕ → ℕ → List ℕ
spaced d zero = []
spaced d (suc n) = d ∷ spaced (d + 250) n

-- How many of the keys are those of channels.
abbrev pub channel_count : Text → List Text → ℕ
channel_count net_id [] = 0
channel_count net_id (k ∷ ks) =
    let rest = channel_count net_id ks in
    if starts_with (drop (length (net_prefix net_id)) k) (lit "#") then suc rest else rest

-- The requests for member lists are 250 ms apart, one for each open channel.
pub open_windows-delays :
    (net_id : Text) (d : ℕ) (ks : List Text)
    → delays (open_windows net_id d ks) ≡ spaced d (channel_count net_id ks)
unfolding open_windows
open_windows-delays net_id d [] = refl
open_windows-delays net_id d (k ∷ ks) =
    elim (Bool-cases (starts_with (drop (length (net_prefix net_id)) k) (lit "#"))) [
      | inl e ↦ rw e (ap (λ xs. d ∷ xs) (open_windows-delays net_id (d + 250) ks))
      | inr e ↦ rw e (open_windows-delays net_id d ks)
    ]
