-- ===== src/Irc/TagList.antt =====
-- The tags of a line, one by one: what the backend joins by ";" and the client splits.
use korechat.Common.{
  ℕ, ◌++◌, ◌∷◌, [], ◌≡◌, inl, inr, refl, ap, sym, ◌∙◌, Text, Dict, put, has_key, text_eq,
  text_eq_iff, List, false, ◌||◌, arith,
}
use mathlib.Core.List.{append-nil, append_assoc}
use korechat.Irc.{split_on, add_tags}
use korechat.Irc.Words.{Without}
use korechat.Irc.Tags.{IsTag, Without-append, format_tag-Without, add_tag-format_tag}
use korechat.Irc.Format.{format_tag, format_tags}

-- Tags that the format keeps apart: no key occurs twice.
abbrev pub IsTags : Dict Text → Type 0
IsTags [] = Unit
IsTags ((k, v) ∷ ts) = IsTag k v × (has_key k ts ≡ false) × IsTags ts

pub split_on-Without : (d : ℕ) (w : Text) → Without d w → split_on d w ≡ w ∷ []
unfolding split_on
split_on-Without d [] h = refl
split_on-Without d (c ∷ w) h = ground (arith, split_on-Without d w h.1)

split_on-append : (d : ℕ) (w r : Text) → Without d w → split_on d (w ++ (d ∷ r)) ≡ w ∷ split_on d r
unfolding split_on
split_on-append d [] r h = ground arith
split_on-append d (c ∷ w) r h = ground (arith, split_on-append d w r h.1)

-- The texts of the tags, one by one.
abbrev pub tag_texts : Dict Text → List Text
tag_texts [] = []
tag_texts ((k, v) ∷ ts) = format_tag k v ∷ tag_texts ts

pub split_on-format_tags :
    (k v : Text) (ts : Dict Text)
    → IsTags ((k, v) ∷ ts)
    → split_on b';' (format_tags ((k, v) ∷ ts)) ≡ tag_texts ((k, v) ∷ ts)
unfolding format_tags
split_on-format_tags k v [] h =
    split_on-Without b';' _ (format_tag-Without b';' k v (inl refl) h.0.no_semicolon h.0.plain)
split_on-format_tags k v ((j, w) ∷ ts) h =
    rw
      (split_on-append b';' (format_tag k v) _
        (format_tag-Without b';' k v (inl refl) h.0.no_semicolon h.0.plain))
      (rw (split_on-format_tags j w ts h.2))

pub format_tags-Without-space :
    (k v : Text) (ts : Dict Text) → IsTags ((k, v) ∷ ts) → Without b' ' (format_tags ((k, v) ∷ ts))
unfolding format_tags
format_tags-Without-space k v [] h = format_tag-Without b' ' k v (inr refl) h.0.no_space h.0.plain
format_tags-Without-space k v ((j, w) ∷ ts) h =
    Without-append b' ' (format_tag k v) _
      (format_tag-Without b' ' k v (inr refl) h.0.no_space h.0.plain)
      (omega arith, format_tags-Without-space j w ts h.2)

put-new : (k v : Text) (o : Dict Text) → has_key k o ≡ false → put k v o ≡ o ++ (k, v) ∷ []
unfolding put has_key
put-new k v [] h = refl
put-new k v ((j, w) ∷ o) h = ground (arith, put-new k v o)

has_key-append_last :
    (j k v : Text) (o : Dict Text)
    → has_key j o ≡ false
    → text_eq k j ≡ false
    → has_key j (o ++ (k, v) ∷ []) ≡ false
unfolding has_key
has_key-append_last j k v [] h e = ground arith
has_key-append_last j k v ((i, w) ∷ o) h e = ground (arith, has_key-append_last j k v o)

-- No key of `ts` is in `o` yet.
abbrev pub Unused : Dict Text → Dict Text → Type 0
Unused o [] = Unit
Unused o ((k, v) ∷ ts) = (has_key k o ≡ false) × Unused o ts

Unused-append_last :
    (o ts : Dict Text) (k v : Text)
    → Unused o ts
    → has_key k ts ≡ false
    → Unused (o ++ (k, v) ∷ []) ts
Unused-append_last o [] k v u h = tt
Unused-append_last o ((j, w) ∷ ts) k v u h =
    let e : (text_eq j k || has_key k ts) ≡ false = unfold has_key in h in
    let f : text_eq k j ≡ false = ground (arith, text_eq_iff j k, text_eq_iff k j) in
    (has_key-append_last j k v o u.0 f, Unused-append_last o ts k v u.1 (ground arith))

pub add_tags-tag_texts :
    (o ts : Dict Text) → IsTags ts → Unused o ts → add_tags o (tag_texts ts) ≡ o ++ ts
unfolding add_tags
add_tags-tag_texts o [] h u = sym (append-nil o)
add_tags-tag_texts o ((k, v) ∷ ts) h u =
    ap (λ t. add_tags t (tag_texts ts)) (add_tag-format_tag k v o h.0 ∙ put-new k v o u.0)
    ∙ add_tags-tag_texts (o ++ (k, v) ∷ []) ts h.2 (Unused-append_last o ts k v u.1 h.1)
    ∙ append_assoc o ((k, v) ∷ []) ts

pub Unused-nil : (ts : Dict Text) → Unused [] ts
unfolding has_key
Unused-nil [] = tt
Unused-nil ((k, v) ∷ ts) = (refl, Unused-nil ts)
