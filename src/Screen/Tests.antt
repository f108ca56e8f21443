-- ===== src/Screen/Tests.antt =====
-- Texts that are rendered, and messages that are listed.
use korechat.Common.{
  ◌∷◌, [], ◌≡◌, refl, Text, lit, List, All, Option, none, some, true, false, is_white, is_digit,
  starts_with, text_eq, is_empty, match_after, lower,
}
use korechat.Chat.{Message, message, system}
use korechat.Screen.Codes.{strip_codes, drop_colors, is_style}
use korechat.Screen.Grouped.{row_messages, AreGrouped, rows_complete}
use korechat.Screen.Pieces.{
  Address, span, anchor, mark, render_text, part, pieces, cut, exec, url_here, mention_here,
  mention_pieces, split_at, is_url_char, is_word_char, is_snippet, is_image,
}
use korechat.Screen.Rendered.{IsSafe, render_text-IsSafe, sources-strip_codes}
use korechat.Screen.Linked.{sources}
use korechat.Screen.Rows.{rows}

-- "a http://b.c d @me", with a colour code in front.
abbrev linked : Text
linked = 3 ∷ b'4' ∷ b'a' ∷ b' ' ∷ lit "http://b.c d @me"

no_urls : Text → Option Address
no_urls url = none

render_text-IsSafe_example : All (IsSafe no_urls (lit "me")) (render_text no_urls (lit "me") linked)
render_text-IsSafe_example = render_text-IsSafe no_urls (lit "me") linked

sources-strip_codes_example : sources (pieces (strip_codes linked)) ≡ strip_codes linked
sources-strip_codes_example = sources-strip_codes linked

-- The mention behind the link is marked.
render_text-linked :
    render_text no_urls (lit "me") linked
    ≡ span (lit "a ") ∷ anchor (lit "http://b.c") ∷ span (lit " d ") ∷ mark true (lit "@me") ∷ []
unfolding render_text part pieces cut exec url_here mention_here mention_pieces split_at is_url_char
    is_word_char is_snippet is_image strip_codes drop_colors is_style lit is_white is_digit
    starts_with text_eq is_empty match_after lower no_urls
render_text-linked = refl

-- The mention in front of a link is plain text.
render_text_before :
    render_text no_urls (lit "me") (lit "@me http://b.c")
    ≡ span (lit "@me ") ∷ anchor (lit "http://b.c") ∷ []
unfolding render_text part pieces cut exec url_here mention_here mention_pieces split_at is_url_char
    is_word_char is_snippet is_image strip_codes drop_colors is_style lit is_white is_digit
    starts_with text_eq is_empty match_after lower no_urls
render_text_before = refl

-- A message and two that tell of members.
abbrev listed : List Message
listed =
    record {
      kind = message;
      subtype = [];
      nick = some (lit "a");
      text = lit "x";
      time = lit "1";
      id = [];
    }
    ∷ record {
      kind = system;
      subtype = lit "membership";
      nick = none;
      text = [];
      time = lit "1";
      id = [];
    }
    ∷ record {
      kind = system;
      subtype = lit "membership";
      nick = none;
      text = [];
      time = lit "2";
      id = [];
    }
    ∷ []

rows_complete_example :
    (row_messages (rows (λ t. t) listed) ≡ listed) × AreGrouped false (rows (λ t. t) listed)
rows_complete_example = rows_complete (λ t. t) listed
