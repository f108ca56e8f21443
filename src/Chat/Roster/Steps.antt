-- ===== src/Chat/Roster/Steps.antt =====
-- What the cases of `reducer` on channels (frontend/app.jsx) do to the roster.
use korechat.Common.{
  ◌≡◌, refl, Text, text_eq, text_eq_iff, Dict, lookup, lookup-put, lookup-remove, has_key,
  has_key-lookup, lookup-no_key, ◌∙◌, Bool-cases, true, false, Option, none, some, if◌then◌else◌,
  arith, Option-cases, inl, inr,
}
use korechat.Chat.{State, chan_key, set_members, set_member_prefix, del_member}
use korechat.Chat.Channels
use korechat.Chat.Roster.{
  roster, replaced, follow, lookup-merge, prefix_in-put, channel_at-members, if_same,
}

pub roster-chan_join :
    (net_id chan k nick : Text) (s : State)
    → roster (Channels.chan_join net_id chan s) k nick ≡ roster s k nick
unfolding Channels.chan_join
roster-chan_join net_id chan k nick s =
    prefix_in-put (chan_key net_id chan) k nick _ s.channels
    ∙ rw (channel_at-members (chan_key net_id chan) nick s)
        (if_same (chan_key net_id chan) k nick s none)

pub roster-chan_rejoin :
    (net_id chan k nick : Text) (s : State)
    → roster (Channels.chan_rejoin net_id chan s) k nick
      ≡ (if text_eq (chan_key net_id chan) k then none else roster s k nick)
roster-chan_rejoin net_id chan k nick s =
    elim (Option-cases (lookup (chan_key net_id chan) s.channels)) [
      | inl e ↦
          unfold Channels.chan_rejoin in
          rw (e, Channels.chan_rejoin) (ground (arith, text_eq_iff (chan_key net_id chan) k))
      | inr (ch, e) ↦
          unfold Channels.chan_rejoin in
          rw (e, Channels.chan_rejoin)
            (rw (prefix_in-put (chan_key net_id chan) k nick) (unfold lookup in refl))
    ]

pub roster-chan_part :
    (net_id chan k nick : Text) (s : State)
    → roster (Channels.chan_part net_id chan s) k nick
      ≡ (if text_eq (chan_key net_id chan) k then none else roster s k nick)
unfolding Channels.chan_part
roster-chan_part net_id chan k nick s =
    prefix_in-put (chan_key net_id chan) k nick _ s.channels ∙ (unfold lookup in refl)

pub roster-set_topic :
    (net_id chan topic k nick : Text) (s : State)
    → roster (Channels.set_topic net_id chan topic s) k nick ≡ roster s k nick
roster-set_topic net_id chan topic k nick s =
    elim (Option-cases (lookup (chan_key net_id chan) s.channels)) [
      | inl e ↦ unfold Channels.set_topic in rw (e, Channels.set_topic)
      | inr (ch, e) ↦
          unfold Channels.set_topic in
          rw (e, Channels.set_topic)
            (rw (prefix_in-put (chan_key net_id chan) k nick)
              (ground (arith, text_eq_iff (chan_key net_id chan) k)))
    ]

pub roster-set_members :
    (net_id chan : Text) (members : Dict Text) (k nick : Text) (s : State)
    → roster (Channels.set_members net_id chan members s) k nick
      ≡ follow (set_members net_id chan members) k nick (roster s k nick)
unfolding Channels.set_members
roster-set_members net_id chan members k nick s =
    prefix_in-put (chan_key net_id chan) k nick _ s.channels
    ∙ rw (lookup-merge nick, channel_at-members (chan_key net_id chan) nick s)
        (ground (arith, text_eq_iff (chan_key net_id chan) k))

replaced-has_key :
    (n p : Text) (o : Dict Text) → has_key n o ≡ true → replaced p (lookup n o) ≡ some p
replaced-has_key n p o h = by_entry (lookup n o) (rw (has_key-lookup n o) at h)
  where
    by_entry :
        (q : Option Text) → (elim q [ none ↦ false | some v ↦ true ]) ≡ true → replaced p q ≡ some p
    by_entry none h' = cc
    by_entry (some v) h' = refl

pub roster-set_member_prefix :
    (net_id chan n p k nick : Text) (s : State)
    → roster (Channels.set_member_prefix net_id chan n p s) k nick
      ≡ follow (set_member_prefix net_id chan n p) k nick (roster s k nick)
roster-set_member_prefix net_id chan n p k nick s =
    elim (Option-cases (lookup (chan_key net_id chan) s.channels)) [
      | inl e ↦
          unfold Channels.set_member_prefix in
          rw (e, Channels.set_member_prefix) (ground (arith, text_eq_iff (chan_key net_id chan) k))
      | inr (ch, e) ↦ elim (Bool-cases (has_key n ch.members)) [
        | inl h ↦
            unfold Channels.set_member_prefix in
            rw (e, h, Channels.set_member_prefix)
              (rw (prefix_in-put (chan_key net_id chan) k nick, lookup-put n nick p ch.members)
                (ground (
                  arith,
                  text_eq_iff (chan_key net_id chan) k,
                  text_eq_iff n nick,
                  replaced-has_key n p ch.members h,
                )))
        | inr h ↦
            unfold Channels.set_member_prefix in
            rw (e, h, Channels.set_member_prefix)
              (ground (
                arith,
                text_eq_iff (chan_key net_id chan) k,
                text_eq_iff n nick,
                lookup-no_key n ch.members h,
              ))
      ]
    ]

pub roster-del_member :
    (net_id chan n k nick : Text) (s : State)
    → roster (Channels.del_member net_id chan n s) k nick
      ≡ follow (del_member net_id chan n) k nick (roster s k nick)
roster-del_member net_id chan n k nick s =
    elim (Option-cases (lookup (chan_key net_id chan) s.channels)) [
      | inl e ↦
          unfold Channels.del_member in
          rw (e, Channels.del_member) (ground (arith, text_eq_iff (chan_key net_id chan) k))
      | inr (ch, e) ↦
          unfold Channels.del_member in
          rw (e, Channels.del_member)
            (rw (prefix_in-put (chan_key net_id chan) k nick, lookup-remove n nick ch.members)
              (ground (arith, text_eq_iff (chan_key net_id chan) k)))
    ]
