-- ===== src/Legacy/Agrees.antt =====
-- `parseIRCMessage` of KoreChat.jsx beside `parseIRC` of frontend/app.jsx.
use korechat.Common.{
  ℕ, zero, suc, ◌∷◌, [], ◌≡◌, refl, ap, ◌∙◌, Text, is_empty, Dict, put, List, length, All, Option,
  none, some, ◌==◌, get_or_else, if◌then◌else◌, Bool-cases, Option-cases, inl, inr, arith,
}
use korechat.Irc
use korechat.Irc.{break_at, longer, split_on, push_head, replace_pair, parse_irc}
use korechat.Irc.Words.{Without}
use korechat.Irc.TagList.{split_on-Without}
use korechat.Irc.Tags.{replace_pair-other}
use korechat.Legacy.Parser
use korechat.Legacy.Parser.{parse_irc_message}

-- With "" for a missing prefix, as every reader takes it.
abbrev pub as_msg : Parser.Msg → Irc.Msg
as_msg m = record {
  tags = m.tags;
  prefix = get_or_else m.prefix [];
  command = m.command;
  params = m.params;
}

abbrev pub untagged : Irc.Msg → Irc.Msg
untagged m = record m { tags = [] }

params_loop_lem : (n : ℕ) (s : Text) → Parser.params_loop n s ≡ Irc.params_loop n s
unfolding Parser.params_loop Irc.params_loop
params_loop_lem zero s = refl
params_loop_lem (suc n) [] = refl
params_loop_lem (suc n) (c ∷ s) = elim (Option-cases (break_at b' ' (c ∷ s))) [
  | inl e ↦ rw e refl
  | inr ((w, r), e) ↦ rw (e, params_loop_lem n r) refl
]

parse_command_lem :
    (o : Dict Text) (prefix : Option Text) (s : Text)
    → as_msg (Parser.parse_command o prefix s) ≡ Irc.parse_command o (get_or_else prefix []) s
parse_command_lem o prefix s = elim (Option-cases (break_at b' ' s)) [
  | inl e ↦
      unfold Parser.parse_command Irc.parse_command in
      rw (e, Parser.parse_command, Irc.parse_command) refl
  | inr ((w, r), e) ↦
      unfold Parser.parse_command Irc.parse_command in
      rw (e, Parser.parse_command, Irc.parse_command, params_loop_lem (length r) r)
        (unfold Irc.parse_params in refl)
]

parse_prefix_lem :
    (o : Dict Text) (s : Text) → as_msg (Parser.parse_prefix o s) ≡ Irc.parse_prefix o s
unfolding Parser.parse_prefix Irc.parse_prefix
parse_prefix_lem o [] = parse_command_lem o none []
parse_prefix_lem o (c ∷ s) = elim (Bool-cases (c == b':')) [
  | inr f ↦ rw f (parse_command_lem o none (c ∷ s))
  | inl f ↦ elim (Option-cases (break_at b' ' s)) [
    | inl e ↦ rw (f, e) refl
    | inr ((w, r), e) ↦ rw (f, e) (parse_command_lem o (some w) r)
  ]
]

-- The tags do not matter for the rest of the line.
untagged-parse_command :
    (o p : Dict Text) (prefix s : Text)
    → untagged (Irc.parse_command o prefix s) ≡ untagged (Irc.parse_command p prefix s)
untagged-parse_command o p prefix s = elim (Option-cases (break_at b' ' s)) [
  | inl e ↦ unfold Irc.parse_command in rw (e, Irc.parse_command) refl
  | inr ((w, r), e) ↦ unfold Irc.parse_command in rw (e, Irc.parse_command) refl
]

untagged-parse_prefix :
    (o p : Dict Text) (s : Text) → untagged (Irc.parse_prefix o s) ≡ untagged (Irc.parse_prefix p s)
unfolding Irc.parse_prefix
untagged-parse_prefix o p [] = untagged-parse_command o p [] []
untagged-parse_prefix o p (c ∷ s) = elim (Bool-cases (c == b':')) [
  | inr f ↦ rw f (untagged-parse_command o p [] (c ∷ s))
  | inl f ↦ elim (Option-cases (break_at b' ' s)) [
    | inl e ↦ rw (f, e) refl
    | inr ((w, r), e) ↦ rw (f, e) (untagged-parse_command o p w r)
  ]
]

-- On every line, whatever it holds, the two clients' parsers read the same prefix, command and
-- parameters.
pub parse_irc_message-agrees :
    (raw : Text) → untagged (as_msg (parse_irc_message raw)) ≡ untagged (parse_irc raw)
unfolding parse_irc_message parse_irc
parse_irc_message-agrees [] = ap untagged (parse_prefix_lem [] [])
parse_irc_message-agrees (c ∷ s) = elim (Bool-cases (c == b'@')) [
  | inr f ↦ rw f (ap untagged (parse_prefix_lem [] (c ∷ s)))
  | inl f ↦ elim (Option-cases (break_at b' ' s)) [
    | inl e ↦ rw (f, e) refl
    | inr ((t, r), e) ↦ rw (f, e) (ap untagged (parse_prefix_lem _ r) ∙ untagged-parse_prefix _ _ r)
  ]
]

-- A tag without a backslash and with at most one "=".
abbrev pub IsPlainTag : Text → Type 0
IsPlainTag t = Without b'\\' t × ((k v : Text) → break_at b'=' t ≡ some (k, v) → Without b'=' v)

-- The tags of a line, cut at the semicolons.
unfoldable pub tag_list : Text → List Text
tag_list [] = []
tag_list (c ∷ s) =
    if c == b'@' then elim (break_at b' ' s) [ none ↦ [] | some (t, r) ↦ split_on b';' t ] else []

split_on-break_at :
    (d : ℕ) (t : Text)
    → split_on d t ≡ elim (break_at d t) [ none ↦ t ∷ [] | some (k, v) ↦ k ∷ split_on d v ]
unfolding split_on break_at
split_on-break_at d [] = refl
split_on-break_at d (c ∷ t) = elim (Bool-cases (c == d)) [
  | inl e ↦ rw e refl
  | inr e ↦
      rw (e, split_on-break_at d t)
        (elim (Option-cases (break_at d t)) [ inl f ↦ rw f refl | inr ((k, v), f) ↦ rw f refl ])
]

Without-break_at : (d x : ℕ) (t k v : Text) → Without x t → break_at d t ≡ some (k, v) → Without x v
unfolding break_at
Without-break_at d x [] k v h e = cc
Without-break_at d x (c ∷ t) k v h e = elim (Bool-cases (c == d)) [
  | inl f ↦ let same : t ≡ v = ground arith in rw same at h.1
  | inr f ↦ behind (break_at d t) (Without-break_at d x t) (rw (f, break_at) at e)
]
  where
    behind :
        (o : Option (Text × Text))
        → ((k' v' : Text) → Without x t → o ≡ some (k', v') → Without x v')
        → longer c o ≡ some (k, v)
        → Without x v
    behind none ih g = cc
    behind (some (k', v')) ih g = let same : v' ≡ v = ground arith in rw same at (ih k' v' h.1 refl)

replace_pair_plain : (x y : ℕ) (v : Text) → Without b'\\' v → replace_pair x y v ≡ v
replace_pair_plain x y [] h = unfold replace_pair in refl
replace_pair_plain x y (c ∷ v) h =
    replace_pair-other x y c v h.0 ∙ ap (λ w. c ∷ w) (replace_pair_plain x y v h.1)

unescape_plain : (v : Text) → Without b'\\' v → Parser.unescape v ≡ Irc.unescape v
unfolding Parser.unescape Irc.unescape
unescape_plain v h = rw (
  replace_pair_plain b':' b';' v h,
  replace_pair_plain b's' b' ' v h,
  replace_pair_plain b'r' 13 v h,
  replace_pair_plain b'n' 10 v h,
)

add_tag_lem : (t : Text) (o : Dict Text) → IsPlainTag t → Parser.add_tag t o ≡ Irc.add_tag t o
unfolding Parser.add_tag Irc.add_tag
add_tag_lem t o h = elim (Option-cases (break_at b'=' t)) [
  | inl e ↦
      rw (split_on-break_at b'=' t, e, Irc.add_tag) (unfold Parser.unescape replace_pair in refl)
  | inr ((k, v), e) ↦
      rw (split_on-break_at b'=' t, e, split_on-Without b'=' v (h.1 k v e), Irc.add_tag)
        (ap (λ w. if is_empty k then o else put k w o)
          (unescape_plain v (Without-break_at b'=' b'\\' t k v h.0 e)))
]

add_tags_lem :
    (ts : List Text) (o : Dict Text) → All IsPlainTag ts → Parser.add_tags o ts ≡ Irc.add_tags o ts
unfolding Parser.add_tags Irc.add_tags
add_tags_lem [] o h = refl
add_tags_lem (t ∷ ts) o h = rw (add_tag_lem t o h.0) (add_tags_lem ts _ h.1)

-- On every line whose tags have no backslash and at most one "=" each, the two parsers read the same,
-- tags and all.
pub parse_irc_message-same :
    (raw : Text) → All IsPlainTag (tag_list raw) → as_msg (parse_irc_message raw) ≡ parse_irc raw
unfolding tag_list
parse_irc_message-same [] h = unfold parse_irc_message parse_irc in parse_prefix_lem [] []
parse_irc_message-same (c ∷ s) h = elim (Bool-cases (c == b'@')) [
  | inr f ↦ unfold parse_irc_message parse_irc in rw f (parse_prefix_lem [] (c ∷ s))
  | inl f ↦ elim (Option-cases (break_at b' ' s)) [
    | inl e ↦ unfold parse_irc_message parse_irc in rw (f, e) refl
    | inr ((t, r), e) ↦
        let plain : All IsPlainTag (split_on b';' t) = rw (tag_list, f, e) at h in
        unfold parse_irc_message parse_irc in
        rw (f, e, add_tags_lem (split_on b';' t) [] plain) (parse_prefix_lem _ r)
  ]
]
