-- ===== src/Irc/RoundTrip.antt =====
-- `parseIRC` of frontend/app.jsx after `Format` of pkg/ircv3/message.go.
use korechat.Common.{
  ◌++◌, ◌∷◌, [], ◌≡◌, ◌≢◌, ◌⊎◌, inl, inr, refl, ◌∙◌, Text, Dict, is_empty, List, false, ◌==◌,
  Bool-cases, arith,
}
use mathlib.Core.List.{append-nil}
use korechat.Irc.{Msg, upper, parse_params, parse_command, parse_prefix, parse_irc}
use korechat.Irc.Words.{Without, break_at-append, break_at-none, parse_params-cons}
use korechat.Irc.TagList.{
  IsTags, split_on-format_tags, format_tags-Without-space, Unused-nil, add_tags-tag_texts,
}
use korechat.Irc.Format.{format_tags, has_space, format_last, format_params, format_prefix, format}

-- A parameter that can stand before others.
abbrev pub IsWord : Text → Type 0
IsWord [] = ⊥
IsWord (c ∷ s) = (c ≢ b':') × Without b' ' (c ∷ s)

pub IsWord-nonempty : (w : Text) → IsWord w → is_empty w ≡ false
IsWord-nonempty [] h = elim h [ ]
IsWord-nonempty (c ∷ s) h = unfold is_empty in refl

-- Only the last parameter is free.
abbrev pub IsParams : List Text → Type 0
IsParams [] = Unit
IsParams (p ∷ []) = Unit
IsParams (p ∷ q ∷ ps) = IsWord p × IsParams (q ∷ ps)

abbrev pub IsCommand : Text → Type 0
IsCommand [] = ⊥
IsCommand (c ∷ s) = (c ≢ b'@') × IsWord (c ∷ s)

pub record IsMsg (msg : Msg) : Type 0 where
  pub tags : IsTags msg.tags
  pub prefix : Without b' ' msg.prefix
  pub command : IsCommand msg.command
  pub upper_case : upper msg.command ≡ msg.command
  pub params : IsParams msg.params

-- What stands behind the first space of the formatted parameters.
body : Text → List Text → Text
body p [] = format_last p
body p (q ∷ ps) = p ++ (b' ' ∷ body q ps)

format_params-cons : (p : Text) (ps : List Text) → format_params (p ∷ ps) ≡ b' ' ∷ body p ps
unfolding format_params body
format_params-cons p [] = refl
format_params-cons p (q ∷ ps) = rw (format_params-cons q ps)

has_space-Without : (p : Text) → has_space p ≡ false → Without b' ' p
has_space-Without [] h = tt
has_space-Without (c ∷ s) h = (ground arith, has_space-Without s (ground arith))

format_last-cases : (p : Text) → (format_last p ≡ b':' ∷ p) ⊎ ((format_last p ≡ p) × IsWord p)
unfolding format_last is_empty
format_last-cases [] = inl refl
format_last-cases (c ∷ s) = elim (Bool-cases (c == b':')) [
  | inl e ↦ inl (ground arith)
  | inr e ↦ elim (Bool-cases (has_space (c ∷ s))) [
    | inl f ↦ inl (ground arith)
    | inr f ↦ inr (ground arith, (ground arith, has_space-Without (c ∷ s) f))
  ]
]

pub parse_params-alone : (p : Text) → IsWord p → parse_params p ≡ p ∷ []
parse_params-alone [] h = elim h [ ]
parse_params-alone (c ∷ s) h =
    rw parse_params-cons (rw (break_at-none b' ' (c ∷ s) h.1) (ground arith))

parse_params-last : (p : Text) → parse_params (format_last p) ≡ p ∷ []
parse_params-last p = elim (format_last-cases p) [
  | inl e ↦ rw e (rw parse_params-cons)
  | inr h ↦ rw h.0 (parse_params-alone p h.1)
]

pub parse_params-word :
    (p r : Text) → IsWord p → parse_params (p ++ (b' ' ∷ r)) ≡ p ∷ parse_params r
parse_params-word [] r h = elim h [ ]
parse_params-word (c ∷ s) r h =
    rw parse_params-cons (rw (break_at-append b' ' (c ∷ s) r h.1) (ground arith))

parse_params-body :
    (p : Text) (ps : List Text) → IsParams (p ∷ ps) → parse_params (body p ps) ≡ p ∷ ps
unfolding body
parse_params-body p [] h = parse_params-last p
parse_params-body p (q ∷ ps) h = rw (parse_params-word p _ h.0, parse_params-body q ps h.1)

IsCommand-Without : (s : Text) → IsCommand s → Without b' ' s
IsCommand-Without [] h = tt
IsCommand-Without (c ∷ s) h = h.1.1

parse_command-format :
    (tags : Dict Text) (prefix command : Text) (ps : List Text)
    → IsCommand command
    → upper command ≡ command
    → IsParams ps
    → parse_command tags prefix (command ++ format_params ps)
      ≡ record { tags = tags; prefix = prefix; command = command; params = ps }
unfolding parse_command
parse_command-format tags prefix command [] h u p =
    let e : command ++ format_params [] ≡ command = unfold format_params in append-nil command in
    rw e (rw (break_at-none b' ' command (IsCommand-Without command h), parse_command) (rw u))
parse_command-format tags prefix command (q ∷ ps) h u p = rw (format_params-cons q ps) (
    rw (break_at-append b' ' command (body q ps) (IsCommand-Without command h), parse_command)
      (rw (u, parse_params-body q ps p)))

module _ (tags : Dict Text) (command : Text) (ps : List Text) (h : IsCommand command) where
  -- A line that begins with the command has no prefix.
  parse_prefix-none :
      parse_prefix tags (command ++ format_params ps)
      ≡ parse_command tags [] (command ++ format_params ps)
  unfolding parse_prefix
  parse_prefix-none = at_head command h
    where
      at_head :
          (s : Text)
          → IsCommand s
          → parse_prefix tags (s ++ format_params ps)
            ≡ parse_command tags [] (s ++ format_params ps)
      at_head [] k = elim k [ ]
      at_head (c ∷ s) k = ground arith

parse_prefix-format :
    (tags : Dict Text) (msg : Msg)
    → IsMsg msg
    → parse_prefix tags (format_prefix msg.prefix (msg.command ++ format_params msg.params))
      ≡ record msg { tags = tags }
parse_prefix-format tags msg h = by_prefix msg.prefix h.prefix
  where
    by_prefix :
        (p : Text)
        → Without b' ' p
        → parse_prefix tags (format_prefix p (msg.command ++ format_params msg.params))
          ≡ record { tags = tags; prefix = p; command = msg.command; params = msg.params }
    by_prefix [] w =
        parse_prefix-none tags msg.command msg.params h.command
        ∙ parse_command-format tags [] msg.command msg.params h.command h.upper_case h.params
    by_prefix (c ∷ p) w =
        unfold parse_prefix in
        rw (break_at-append b' ' (c ∷ p) _ w)
          (parse_command-format tags (c ∷ p) msg.command msg.params h.command h.upper_case h.params)

-- A line with no tags does not begin with "@".
parse_irc-untagged :
    (prefix command : Text) (ps : List Text)
    → IsCommand command
    → parse_irc (format_prefix prefix (command ++ format_params ps))
      ≡ parse_prefix [] (format_prefix prefix (command ++ format_params ps))
unfolding parse_irc
parse_irc-untagged (c ∷ p) command ps h = refl
parse_irc-untagged [] [] ps h = elim h [ ]
parse_irc-untagged [] (c ∷ s) ps h = ground arith

-- The client reads back the message that the backend formatted, its tags, prefix, command and
-- parameters, if: the tags have distinct keys that are not empty and free of "=", ";" and space, and
-- values without a backslash; the prefix has no space; the command is upper case, not empty, has no
-- space and begins with neither "@" nor ":"; and every parameter but the last is not empty, has no
-- space and does not begin with ":".
pub parse_irc-format : (msg : Msg) → IsMsg msg → parse_irc (format msg) ≡ msg
unfolding format
parse_irc-format msg h = by_tags msg.tags h.tags
  where
    by_tags :
        (ts : Dict Text)
        → IsTags ts
        → parse_irc (format (record msg { tags = ts })) ≡ record msg { tags = ts }
    by_tags [] k =
        parse_irc-untagged msg.prefix msg.command msg.params h.command
        ∙ parse_prefix-format [] msg h
    by_tags ((j, v) ∷ ts) k =
        unfold parse_irc in
        rw (break_at-append b' ' (format_tags ((j, v) ∷ ts)) _ (format_tags-Without-space j v ts k))
          (rw
            (
              split_on-format_tags j v ts k,
              add_tags-tag_texts [] ((j, v) ∷ ts) k (Unused-nil ((j, v) ∷ ts)),
            )
            (parse_prefix-format ((j, v) ∷ ts) msg h))
