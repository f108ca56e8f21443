-- ===== src/Screen/Rendered.antt =====
-- The elements that `renderText` of frontend/app.jsx returns.
use korechat.Common.{
  [], ◌∷◌, ◌≡◌, refl, Text, text_eq, drop, map, List, All, true, Option, none, Bool-cases, inl, inr,
}
use korechat.Screen.Addresses.{IsUrl, IsMention, IsSound, pieces-IsSound}
use korechat.Screen.Codes.{strip_codes}
use korechat.Screen.Linked.{sources, sources-pieces}
use korechat.Screen.Pieces.{
  Piece, plain, link, mention, url_here, exec, pieces, is_snippet, is_image, Address, address_or,
  Part, span, anchor, image, snippet_block, mark, part, render_text,
}

module _ (new_url : Text → Option Address) (my_nick : Text) where
  -- A link or a picture goes to a web address, a snippet block to what `new URL` makes of one (to the
  -- address itself if that throws), a mention is marked as one's own exactly if it names the nick,
  -- and no web address is in plain text.
  abbrev pub IsSafe : Part → Type 0
  IsSafe (span s) = exec url_here s ≡ none
  IsSafe (anchor url) = IsUrl url
  IsSafe (image url) = IsUrl url × (is_image url ≡ true)
  IsSafe (snippet_block a) = (url : Text) × (IsUrl url × (a ≡ address_or url (new_url url)))
  IsSafe (mark mine s) = IsMention s × (mine ≡ text_eq (drop 1 s) my_nick)

  part-IsSafe : (p : Piece) → IsSound p → IsSafe (part new_url my_nick p)
  unfolding part
  part-IsSafe (plain s) h = h
  part-IsSafe (mention s) h = (h, refl)
  part-IsSafe (link url) h = elim (Bool-cases (is_snippet url)) [
    | inl e ↦ rw e (url, (h, refl))
    | inr e ↦ elim (Bool-cases (is_image url)) [
      | inl e' ↦ rw (e, e') (h, e')
      | inr e' ↦ rw (e, e') h
    ]
  ]

  map-IsSafe : (ps : List Piece) → All IsSound ps → All IsSafe (map (part new_url my_nick) ps)
  map-IsSafe [] h = tt
  map-IsSafe (p ∷ ps) h = (part-IsSafe p h.0, map-IsSafe ps h.1)

  -- In what is shown for any text: every link and every picture goes to "http://" or "https://" followed
  -- by characters other than white space, "<", ">" and the quote; every snippet block to what `new URL`
  -- makes of such an address; a mention is "@" and a word, marked as one's own exactly if the word is the
  -- nick; and no such address is left in plain text.
  pub render_text-IsSafe : (text : Text) → All IsSafe (render_text new_url my_nick text)
  unfolding render_text
  render_text-IsSafe text =
      map-IsSafe (pieces (strip_codes text)) (pieces-IsSound (strip_codes text))

-- The pieces of a text, one behind the other, are the text without its control codes.
pub sources-strip_codes : (text : Text) → sources (pieces (strip_codes text)) ≡ strip_codes text
sources-strip_codes text = sources-pieces (strip_codes text)
