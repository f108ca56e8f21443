-- ===== src/Screen/Addresses.antt =====
-- A link is a web address, a mention is a word behind an `@`, and no address is left in plain text.
use korechat.Common.{
  ◌++◌, ◌∷◌, [], ◌≡◌, ◌∙◌, ◌⊎◌, refl, sym, Text, lit, starts_with, drop, length, All, true, false,
  ◌==◌, Option, none, some, Bool-cases, inl, inr, arith,
}
use korechat.Screen.Linked.{exec_joins, url_here-Splits, mention_here-Splits}
use korechat.Screen.Runs.{
  Runs, split_at_fits, greedy-Runs, greedy-none, Runs-shortens, starts_with_longer, drop_longer,
  starts_with_both,
}
use korechat.Screen.Matches.{
  Shortens, Grows, exec_right, exec_left, exec_match, exec_before, All-cut,
}
use korechat.Screen.Pieces.{
  Piece, plain, link, mention, Found, is_url_char, is_word_char, split_at, greedy, url_here,
  mention_here, exec, plain_if, mention_pieces, pieces,
}

-- `http://` or `https://`, and characters other than white space, `<`, `>` and `"`.
abbrev pub IsUrl : Text → Type 0
IsUrl w = Runs is_url_char (lit "http://") w ⊎ Runs is_url_char (lit "https://") w

-- `@` and a word.
abbrev pub IsMention : Text → Type 0
IsMention w = Runs is_word_char (b'@' ∷ []) w

-- Links and mentions have their form, and no web address is in plain text.
abbrev pub IsSound : Piece → Type 0
IsSound (plain s) = exec url_here s ≡ none
IsSound (link s) = IsUrl s
IsSound (mention s) = IsMention s

url_here-IsUrl : (s w r : Text) → url_here s ≡ some (w, r) → IsUrl w
unfolding url_here
url_here-IsUrl s w r h = elim (Bool-cases (starts_with s (lit "http://"))) [
  | inl e ↦ inl (
      greedy-Runs is_url_char (lit "http://") (split_at is_url_char (drop 7 s)) w r
        (split_at_fits is_url_char (drop 7 s)) (rw e at h))
  | inr e ↦ elim (Bool-cases (starts_with s (lit "https://"))) [
    | inl e' ↦ inr (
        greedy-Runs is_url_char (lit "https://") (split_at is_url_char (drop 8 s)) w r
          (split_at_fits is_url_char (drop 8 s)) (rw (e, e') at h))
    | inr e' ↦ let g : ◌≡◌ {A = Option (Text × Text)} none (some (w, r)) = rw (e, e') at h in cc
  ]
]

mention_here-IsMention : (s w r : Text) → mention_here s ≡ some (w, r) → IsMention w
unfolding mention_here
mention_here-IsMention [] w r h = cc
mention_here-IsMention (c ∷ s) w r h = elim (Bool-cases (c == b'@')) [
  | inl e ↦
      greedy-Runs is_word_char (b'@' ∷ []) (split_at is_word_char s) w r
        (split_at_fits is_word_char s) (rw e at h)
  | inr e ↦ let g : ◌≡◌ {A = Option (Text × Text)} none (some (w, r)) = rw e at h in cc
]

url_here-Shortens : Shortens url_here
url_here-Shortens s w r h = elim (url_here-IsUrl s w r h) [
  | inl k ↦ Runs-shortens is_url_char (lit "http://") s w r (url_here-Splits s w r h) k
  | inr k ↦ Runs-shortens is_url_char (lit "https://") s w r (url_here-Splits s w r h) k
]

mention_here-Shortens : Shortens mention_here
mention_here-Shortens s w r h =
    Runs-shortens is_word_char (b'@' ∷ []) s w r (mention_here-Splits s w r h)
      (mention_here-IsMention s w r h)

http_not_https : starts_with (lit "https://") (lit "http://") ≡ false
unfolding lit starts_with
http_not_https = refl

url_here-Grows : Grows url_here
unfolding url_here lit
url_here-Grows s t h = elim (Bool-cases (starts_with s (lit "http://"))) [
  | inl e ↦
      let h' : greedy (lit "http://") (split_at is_url_char (drop 7 s ++ t)) ≡ none =
        rw (← drop_longer (lit "http://") s t e)
          (rw (starts_with_longer (lit "http://") s t e) at h) in
      rw e (greedy-none is_url_char (lit "http://") (drop 7 s) t h')
  | inr e ↦ elim (Bool-cases (starts_with s (lit "https://"))) [
    | inl e' ↦ elim (Bool-cases (starts_with (s ++ t) (lit "http://"))) [
      | inl bad ↦
          let g : false ≡ true =
            sym http_not_https
            ∙ starts_with_both (lit "http://") (lit "https://") (s ++ t) (omega arith) bad
                (starts_with_longer (lit "https://") s t e') in
          cc
      | inr ok ↦
          let h' : greedy (lit "https://") (split_at is_url_char (drop 8 s ++ t)) ≡ none =
            rw (← drop_longer (lit "https://") s t e')
              (rw (ok, starts_with_longer (lit "https://") s t e') at h) in
          rw (e, e') (greedy-none is_url_char (lit "https://") (drop 8 s) t h')
    ]
    | inr e' ↦ rw (e, e')
  ]
]

-- The mentions of a text without web addresses.
mention_pieces-IsSound : (s : Text) → exec url_here s ≡ none → All IsSound (mention_pieces s)
unfolding mention_pieces
mention_pieces-IsSound s h =
    All-cut mention_here mention_here-Shortens IsSound (λ t. exec url_here t ≡ none) mention
      (λ t. plain_if t []) step done (length s) s (omega arith) h
  where
    step :
        (t : Text) (f : Found)
        → exec url_here t ≡ none
        → exec mention_here t ≡ some f
        → IsSound (plain f.before) × (IsSound (mention f.match) × (exec url_here f.after ≡ none))
    step t f k e =
        let whole : exec url_here (f.before ++ (f.match ++ f.after)) ≡ none =
          rw (← exec_joins mention_here mention_here-Splits t f e) k in
        (
          exec_left url_here url_here-Grows f.before (f.match ++ f.after) whole,
          (
            exec_match mention_here {P = IsMention} mention_here-IsMention t f e,
            exec_right url_here f.match f.after
                (exec_right url_here f.before (f.match ++ f.after) whole),
          ),
        )

    done :
        (t : Text)
        → exec url_here t ≡ none
        → exec mention_here t ≡ none
        → All IsSound (plain_if t [])
    done [] k e = tt
    done (c ∷ t) k e = (k, tt)

abbrev Anything : Text → Type 0
Anything t = Unit

-- Every link is `http://` or `https://` followed by characters other than white space, `<`, `>` and
-- `"`, every mention is `@` followed by a word, and no piece of plain text holds a web address.
pub pieces-IsSound : (text : Text) → All IsSound (pieces text)
unfolding pieces
pieces-IsSound text =
    All-cut url_here url_here-Shortens IsSound Anything link mention_pieces step
      (λ t u e. mention_pieces-IsSound t e) (length text) text (omega arith) tt
  where
    step :
        (t : Text) (f : Found)
        → Anything t
        → exec url_here t ≡ some f
        → IsSound (plain f.before) × (IsSound (link f.match) × Anything f.after)
    step t f k e = (
      exec_before url_here url_here-Splits url_here-Grows t f e,
      (exec_match url_here {P = IsUrl} url_here-IsUrl t f e, tt),
    )
