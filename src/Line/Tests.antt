-- ===== src/Line/Tests.antt =====
-- Lines on a page, and the theorems at them.
use korechat.Common.{
  ℕ, ◌++◌, ◌∷◌, [], ◌≡◌, refl, Text, lit, text_eq, is_empty, lookup, put, set_has, List, some, none,
}
use korechat.Chat.{Message, message, chan_key, net_prefix, replace_members}
use korechat.Irc.{
  parse_irc, parse_prefix, parse_command, parse_params, params_loop, break_at, split_on, add_tags,
  add_tag, unescape, replace_pair, upper_char, nick_of,
}
use korechat.Client.{Refs, dispatch}
use korechat.Client.Samples.{env, refs}
use korechat.Line.{Ctx, context, in_history}
use korechat.Line.Names.{end_of_names, add_names}
use korechat.Line.Handle.{handle_line}
use korechat.Line.Gathered.{gather, names_at, entries, end_of_names-gather}
use korechat.Line.Historical.{handle_line-in_history}

abbrev net : Text
net = b'n' ∷ []

abbrev chan : Text
chan = b'#' ∷ b'c' ∷ []

abbrev other : Text
other = b'#' ∷ b'd' ∷ []

abbrev note : ℕ → Message
note c = record {
  kind = message;
  subtype = [];
  nick = some (b'k' ∷ []);
  text = c ∷ [];
  time = [];
  id = [];
}

abbrev line_of : Text → List Text → Ctx
line_of command params = record {
  net_id = net;
  env = env;
  msg = record { tags = []; prefix = b's' ∷ []; command = command; params = params };
  time = [];
  from = b's' ∷ [];
  me = b'm' ∷ [];
}

-- Two lines of a reply.
abbrev reply : List Ctx
reply =
    line_of (lit "353") ((b'm' ∷ []) ∷ (b'=' ∷ []) ∷ chan ∷ (b'@' ∷ b'a' ∷ b' ' ∷ b'b' ∷ []) ∷ [])
    ∷ line_of (lit "353") ((b'm' ∷ []) ∷ (b'=' ∷ []) ∷ chan ∷ (b'+' ∷ b'd' ∷ []) ∷ [])
    ∷ []

abbrev reply_end : Ctx
reply_end = line_of (lit "366") ((b'm' ∷ []) ∷ chan ∷ [])

end_of_names-gather_example :
    ((end_of_names reply_end (gather reply refs)).1
      ≡ dispatch
          (replace_members net chan (add_names (entries reply) (names_at (chan_key net chan) refs)))
        ∷ [])
    × (lookup (chan_key net chan) (end_of_names reply_end (gather reply refs)).0.names_buf ≡ none)
end_of_names-gather_example =
    end_of_names-gather net chan reply reply_end refs (unfold is_empty in refl)
      ((refl, refl), ((refl, refl), tt)) refl refl

-- Inside a batch of the server's history.
abbrev in_batch : Refs
in_batch = record refs {
  batch_buf =
      (net_prefix net ++ b'b' ∷ [], record { type_ = lit "chathistory"; chan = chan; msgs = [] })
      ∷ [];
}

handle_line-in_history_example :
    handle_line env in_batch net (lit "@batch=b :k!u@h JOIN #c") ≡ (in_batch, [])
handle_line-in_history_example =
    handle_line-in_history env in_batch net (lit "@batch=b :k!u@h JOIN #c")
      (unfold lit context in_history parse_irc parse_prefix parse_command parse_params params_loop
          break_at split_on add_tags add_tag unescape replace_pair upper_char nick_of lookup put
          text_eq is_empty net_prefix in
        refl)
      (unfold lit context parse_irc parse_prefix parse_command parse_params params_loop break_at
          split_on add_tags add_tag unescape replace_pair upper_char nick_of lookup put text_eq
          is_empty set_has in
        refl)
