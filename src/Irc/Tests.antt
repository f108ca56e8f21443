-- ===== src/Irc/Tests.antt =====
-- Runs of the parser on lines, and the theorems at them.
use korechat.Common.{◌∷◌, [], ◌≡◌, refl, lit, is_empty, arith, has_key, text_eq, put}
use korechat.Irc.{
  Msg, unescape, params_loop, parse_params, parse_irc, parse_prefix, parse_command, break_at,
  split_on, upper_char, add_tags, add_tag, replace_pair, nick_of,
}
use korechat.Irc.Format.{format}
use korechat.Irc.RoundTrip.{parse_irc-format}

-- A line from a server, as the backend writes it.
parse_irc_line :
    parse_irc (lit "@time=10:00;msgid=x\\sy :nick!u@host privmsg #c :hello there") ≡ record {
      tags = (lit "time", lit "10:00") ∷ (lit "msgid", lit "x y") ∷ [];
      prefix = lit "nick!u@host";
      command = lit "PRIVMSG";
      params = lit "#c" ∷ lit "hello there" ∷ [];
    }
unfolding lit parse_irc parse_prefix parse_command parse_params params_loop break_at split_on
    upper_char add_tags add_tag replace_pair unescape is_empty put text_eq
parse_irc_line = refl

nick_of_prefix : nick_of (lit "nick!u@host") ≡ lit "nick"
unfolding lit nick_of break_at
nick_of_prefix = refl

-- A line with one tag, a prefix, and a last parameter of two words.
abbrev ping : Msg
ping = record {
  tags = (b't' ∷ [], b'a' ∷ b' ' ∷ b';' ∷ []) ∷ [];
  prefix = b's' ∷ [];
  command = b'P' ∷ b'M' ∷ [];
  params = (b'#' ∷ b'c' ∷ []) ∷ (b'h' ∷ b' ' ∷ b'i' ∷ []) ∷ [];
}

parse_irc-format_example : parse_irc (format ping) ≡ ping
parse_irc-format_example = parse_irc-format ping (
    unfold upper_char is_empty has_key in
    record {
      tags = (
        record {
          named = refl;
          no_equals = (omega arith, tt);
          no_semicolon = (omega arith, tt);
          no_space = (omega arith, tt);
          plain = (omega arith, (omega arith, (omega arith, tt)));
        },
        refl,
        tt,
      );
      prefix = (omega arith, tt);
      command = (omega arith, (omega arith, (omega arith, (omega arith, tt))));
      upper_case = refl;
      params = ((omega arith, (omega arith, (omega arith, tt))), tt);
    })
