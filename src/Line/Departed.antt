-- ===== src/Line/Departed.antt =====
-- QUIT and NICK of `handleLine` (frontend/app.jsx) on a page whose state is what its refs mirror.
use korechat.Common.{
  ◌++◌, ◌∷◌, [], ◌≡◌, refl, ap, sym, ◌∙◌, Text, text_eq, text_eq_iff, starts_with, lookup, keys,
  All, List, lit, Bool-cases, false, ◌&&◌, Unique, Option, Option-cases, none, some, inl, inr,
  if◌then◌else◌, arith,
}
use korechat.Chat.{State, Clock, del_member, set_members, net_prefix}
use korechat.Chat.Keys.{NoColon, IsPlain}
use korechat.Chat.Reducer.{run}
use korechat.Chat.Roster.{roster, follow_all, prefix_in}
use korechat.Chat.Roster.Sessions.{roster-run}
use korechat.Client.{Refs, Out, dispatch, arg, add_sys, shown}
use korechat.Line.{Ctx, sys, membership, in_history}
use korechat.Line.Members.{quit, each_channel_of, colon_reason, nick_change}
use korechat.Line.Touched.{
  dispatched, dispatched-append, changed, follow_all-append, follow_all-each_channel_of,
}

-- A nick that is gone.
abbrev gone : Text → Text → Text → Option Text → Option Text
gone from pfx n old = if text_eq from n then none else old

-- A nick that goes on under another name, with its prefix.
abbrev moved : Text → Text → Text → Text → Option Text → Option Text
moved from new pfx n old = if text_eq new n then some pfx else if text_eq from n then none else old

-- What QUIT and NICK do in one channel.
abbrev quit_one : Ctx → Text → Text → List Out
quit_one c chan pfx =
    dispatch (del_member c.net_id chan c.from)
    ∷ sys c chan (lit "✕ " ++ (c.from ++ (lit " quit" ++ colon_reason (arg c.msg.params 0))))
        membership
    ∷ []

abbrev rename_one : Ctx → Text → Text → List Out
rename_one c chan pfx =
    dispatch (del_member c.net_id chan c.from)
    ∷ dispatch (set_members c.net_id chan ((shown c.msg.params 0, pfx) ∷ []))
    ∷ sys c chan (c.from ++ (lit " is now known as " ++ shown c.msg.params 0)) []
    ∷ []

-- Who is in the channel at a key once `from` has become `new`.
abbrev pub renamed : State → Text → Text → Text → Text → Option Text
renamed s from new k n = changed (moved from new) (roster s k from) n (roster s k n)

module _ (clock : Clock) (s : State) (c : Ctx) (refs : Refs) (live : in_history c refs ≡ false)
    (mirror : refs.channels ≡ s.channels) (own : NoColon c.net_id)
    (plain : All (IsPlain c.net_id) (keys refs.channels)) (unique : Unique refs.channels) where
  mirrored : (k n : Text) → prefix_in n (lookup k refs.channels) ≡ roster s k n
  mirrored k n = ap (λ x. prefix_in n (lookup k x)) mirror

  at_quit :
      (k n : Text) (old : Option Text)
      → follow_all (dispatched (quit c refs)) k n old ≡ (
          if starts_with k (net_prefix c.net_id)
          then changed (gone c.from) (roster s k c.from) n old
          else old)
  unfolding quit
  at_quit k n old =
      rw (live, sym (mirrored k c.from))
        (follow_all-each_channel_of c (quit_one c) (gone c.from) own
          (λ chan pfx k' n' old'. unfold add_sys in ground arith) refs.channels k n old plain
          unique)

  -- Who is no member has nothing to lose.
  changed-gone :
      (k n : Text)
      → changed (gone c.from) (roster s k c.from) n (roster s k n)
        ≡ (if text_eq c.from n then none else roster s k n)
  changed-gone k n = elim (Option-cases (roster s k c.from)) [
    | inl e ↦ rw e (ground (arith, text_eq_iff c.from n))
    | inr (pfx, e) ↦ rw e refl
  ]

  -- For a live QUIT of a network whose id has no colon, on a page whose refs mirror the state's
  -- channels, with no key twice and no colon behind another in a channel's name: after the actions that the handler
  -- dispatches the sender is in no channel of the network, and every other entry of the roster, of
  -- this network and of the others, is what it was.
  pub quit-roster :
      (k n : Text)
      → roster (run clock s (dispatched (quit c refs))) k n
        ≡ (if starts_with k (net_prefix c.net_id) && text_eq c.from n then none else roster s k n)
  quit-roster k n =
      roster-run clock s (dispatched (quit c refs)) k n
      ∙ at_quit k n (roster s k n)
      ∙ rw (changed-gone k n) (ground arith)

  at_nick_change :
      (k n : Text) (old : Option Text)
      → follow_all (dispatched (nick_change c refs)) k n old ≡ (
          if starts_with k (net_prefix c.net_id)
          then changed (moved c.from (shown c.msg.params 0)) (roster s k c.from) n old
          else old)
  unfolding nick_change
  at_nick_change k n old =
      rw (live, sym (mirrored k c.from), dispatched-append, follow_all-append)
        (elim (Bool-cases (text_eq c.from c.me)) [ inl e ↦ rw e at_each | inr e ↦ rw e at_each ])
    where
      at_each : follow_all (dispatched (each_channel_of c (rename_one c) refs.channels)) k n old ≡ (
          if starts_with k (net_prefix c.net_id)
          then changed
              (moved c.from (shown c.msg.params 0))
              (prefix_in c.from (lookup k refs.channels))
              n
              old
          else old)
      at_each =
          follow_all-each_channel_of c (rename_one c) (moved c.from (shown c.msg.params 0)) own
            (λ chan pfx k' n' old'. unfold add_sys in ground (arith)) refs.channels k n old plain
            unique

  -- For a live NICK of a network whose id has no colon, on a page whose refs mirror the state's
  -- channels, with no key twice and no colon behind another in a channel's name: in every channel of
  -- the network that had the sender, the new nick has its prefix and the old nick is gone (unless they
  -- are the same); every other entry of the roster, of this network and of the others, is what it was.
  pub nick_change-roster :
      (k n : Text)
      → roster (run clock s (dispatched (nick_change c refs))) k n ≡ (
          if starts_with k (net_prefix c.net_id)
          then renamed s c.from (shown c.msg.params 0) k n
          else roster s k n)
  nick_change-roster k n =
      roster-run clock s (dispatched (nick_change c refs)) k n ∙ at_nick_change k n (roster s k n)
