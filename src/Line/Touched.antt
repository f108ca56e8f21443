-- ===== src/Line/Touched.antt =====
-- The loops of NICK and QUIT over the channels of a network (frontend/app.jsx, `handleLine`), and
-- what the actions that they dispatch do to the roster.
use korechat.Common.{
  ◌++◌, ◌∷◌, [], ◌≡◌, refl, ap, sym, ◌∙◌, Text, text_eq, text_eq_sound, starts_with, Dict, lookup,
  lookup-no_key, Unique, keys, List, All, Bool-cases, ◌&&◌, Option, Option-cases, none, some, inl,
  inr, if◌then◌else◌, arith,
}
use korechat.Chat.{Channel, Action, chan_key, net_prefix}
use korechat.Chat.Keys.{NoColon, IsPlain, chan_of_key, chan_key-chan_of_key}
use korechat.Chat.Roster.{follow, follow_all, prefix_in}
use korechat.Client.{Out, dispatch}
use korechat.Line.{Ctx}
use korechat.Line.Members.{each_channel_of}

-- The actions among the effects of a handler, in order.
abbrev pub dispatched : List Out → List Action
dispatched [] = []
dispatched (dispatch a ∷ os) = a ∷ dispatched os
dispatched (o ∷ os) = dispatched os

pub dispatched-append : (os ps : List Out) → dispatched (os ++ ps) ≡ dispatched os ++ dispatched ps
dispatched-append [] ps = refl
dispatched-append (dispatch a ∷ os) ps = ap (λ as'. a ∷ as') (dispatched-append os ps)
dispatched-append (o ∷ os) ps = dispatched-append os ps

pub follow_all-append :
    (as' bs : List Action) (k nick : Text) (old : Option Text)
    → follow_all (as' ++ bs) k nick old ≡ follow_all bs k nick (follow_all as' k nick old)
follow_all-append [] bs k nick old = refl
follow_all-append (a ∷ as') bs k nick old = follow_all-append as' bs k nick (follow a k nick old)

-- A change for the channels that the sender is in, by its prefix there.
abbrev pub changed :
    (Text → Text → Option Text → Option Text) → Option Text → Text → Option Text → Option Text
changed f none nick old = old
changed f (some pfx) nick old = f pfx nick old

module _ (c : Ctx) (act : Text → Text → List Out) (f : Text → Text → Option Text → Option Text)
    (own : NoColon c.net_id)
    (acts : (chan pfx k nick : Text) (old : Option Text)
      → follow_all (dispatched (act chan pfx)) k nick old
        ≡ (if text_eq (chan_key c.net_id chan) k then f pfx nick old else old)) where
  item :
      (j : Text) (ch : Channel) (k nick : Text) (old : Option Text)
      → IsPlain c.net_id j
      → follow_all
          (dispatched (
            if starts_with j (net_prefix c.net_id)
            then elim (lookup c.from ch.members) [ none ↦ [] | some pfx ↦ act (chan_of_key j) pfx ]
            else []))
          k
          nick
          old
        ≡ (if text_eq j k && starts_with j (net_prefix c.net_id)
            then changed f (lookup c.from ch.members) nick old
            else old)
  item j ch k nick old plain = elim (Bool-cases (starts_with j (net_prefix c.net_id))) [
    | inr e ↦ rw e (ground arith)
    | inl e ↦ elim (Option-cases (lookup c.from ch.members)) [
      | inl m ↦ rw (e, m) (ground arith)
      | inr (pfx, m) ↦
          rw (e, m)
            (acts (chan_of_key j) pfx k nick old
              ∙ rw (chan_key-chan_of_key c.net_id j own plain e) (ground arith))
    ]
  ]

  -- The loop as a whole, on one entry of the roster.
  pub follow_all-each_channel_of :
      (chans : Dict Channel) (k nick : Text) (old : Option Text)
      → All (IsPlain c.net_id) (keys chans)
      → Unique chans
      → follow_all (dispatched (each_channel_of c act chans)) k nick old ≡ (
          if starts_with k (net_prefix c.net_id)
          then changed f (prefix_in c.from (lookup k chans)) nick old
          else old)
  unfolding each_channel_of lookup
  follow_all-each_channel_of [] k nick old plain u = ground arith
  follow_all-each_channel_of ((j, ch) ∷ chans) k nick old plain u =
      rw
        (
          dispatched-append,
          follow_all-append,
          item j ch k nick old plain.0,
          follow_all-each_channel_of chans k nick _ plain.1 u.1,
        )
        (elim (Bool-cases (text_eq j k)) [
          | inl e ↦
              let same : j ≡ k = text_eq_sound j k e in
              let away : lookup k chans ≡ none =
                ap (λ x. lookup x chans) (sym same) ∙ lookup-no_key j chans u.0 in
              let here : starts_with j (net_prefix c.net_id) ≡ starts_with k (net_prefix c.net_id) =
                ap (λ x. starts_with x (net_prefix c.net_id)) same in
              rw (e, away, here) (ground arith)
          | inr e ↦ rw (e, lookup) refl
        ])
