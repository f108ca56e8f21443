-- ===== src/Forms/Saved.antt =====
-- What a form has sent, in the settings of the network again.
use korechat.Common.{
  ℤ, pos, negsuc, ℕ, zero, suc, ◌++◌, ◌∷◌, [], ◌≡◌, ◌≢◌, ◌∙◌, refl, sym, ap, Text, lit, is_empty,
  is_white, or_text, trim, trim_start, trim-trim, trim-append_last, any-trim, List, All, any, Bool,
  true, false, ◌==◌, Option, none, some, Bool-cases, inl, inr,
}
use korechat.Forms.Networks.{Form, opened, body}
use korechat.Forms.Reopened.{
  IsTrim, HasPort, IsChannelName, IsClean, cleaned, channels_of-cleaned, body-opened,
}
use korechat.Forms.{
  Number, exact, far, number_or_nan, is_safe, signed, port_or, parse_int, split_commas, cons_piece,
}

-- No piece has a comma.
abbrev NoComma : Text → Type 0
NoComma s = any (λ c. c == b',') s ≡ false

cons_piece-NoComma :
    (c : ℕ) (ps : List Text) → (c == b',') ≡ false → All NoComma ps → All NoComma (cons_piece c ps)
cons_piece-NoComma c [] h k = (rw h, tt)
cons_piece-NoComma c (p ∷ ps) h k = (rw h (k.0), k.1)

split_commas-NoComma : (s : Text) → All NoComma (split_commas s)
unfolding split_commas
split_commas-NoComma [] = (refl, tt)
split_commas-NoComma (c ∷ s) = elim (Bool-cases (c == b',')) [
  | inl e ↦ rw e (refl, split_commas-NoComma s)
  | inr e ↦ rw e (cons_piece-NoComma c (split_commas s) e (split_commas-NoComma s))
]

cleaned-IsChannelName : (ps : List Text) → All NoComma ps → All IsChannelName (cleaned ps)
cleaned-IsChannelName [] h = tt
cleaned-IsChannelName (p ∷ ps) h = elim (Bool-cases (is_empty (trim p))) [
  | inl e ↦ rw e (cleaned-IsChannelName ps h.1)
  | inr e ↦ rw e ((trim-trim p, (e, any-trim (λ c. c == b',') p h.0)), cleaned-IsChannelName ps h.1)
]

abbrev is_exact : Number → Bool
is_exact (exact n) = true
is_exact (far n) = false

-- The port that is sent is a safe integer.
abbrev pub has_safe_port : Form → Bool
has_safe_port f = is_exact (port_or (parse_int f.port))

is_zero : ℤ → Bool
is_zero (pos zero) = true
is_zero _ = false

not_zero : (n : ℤ) → is_zero n ≡ false → n ≢ pos 0
unfolding is_zero
not_zero n h e = let g : false ≡ true = sym h ∙ ap is_zero e in cc

port_or-HasPort :
    (q : Option ℤ)
    → is_exact (port_or (number_or_nan q)) ≡ true
    → HasPort (port_or (number_or_nan q))
unfolding is_zero
port_or-HasPort none h = (refl, not_zero (pos 6667) refl)
port_or-HasPort (some (pos zero)) h = (refl, not_zero (pos 6667) refl)
port_or-HasPort (some (pos (suc n))) h = elim (Bool-cases (is_safe (pos (suc n)))) [
  | inl e ↦ rw (e, e) (refl, not_zero (pos (suc n)) refl)
  | inr e ↦ let no : false ≡ true = rw e at h in cc
]
port_or-HasPort (some (negsuc n)) h = elim (Bool-cases (is_safe (negsuc n))) [
  | inl e ↦ rw (e, e) (refl, not_zero (negsuc n) refl)
  | inr e ↦ let no : false ≡ true = rw e at h in cc
]

-- The choice between a trimmed text and another one.
or_text_trimmed :
    (s t : Text)
    → IsTrim s
    → IsTrim t
    → is_empty t ≡ false
    → IsTrim (or_text s t) × (is_empty (or_text s t) ≡ false)
unfolding or_text is_empty
or_text_trimmed [] t h k e = (k, e)
or_text_trimmed (c ∷ s) t h k e = (h, refl)

append_underscore : (s : Text) → IsTrim (trim s ++ lit "_") × (is_empty (trim s ++ lit "_") ≡ false)
unfolding lit is_white
append_underscore s = (trim-append_last s b'_' refl, not_empty (trim s))
  where
    not_empty : (t : Text) → is_empty (t ++ b'_' ∷ []) ≡ false
    not_empty [] = unfold is_empty in refl
    not_empty (c ∷ t) = unfold is_empty in refl

body-IsClean :
    (f : Form) → is_empty (trim f.nick) ≡ false → has_safe_port f ≡ true → IsClean (body f)
unfolding body parse_int
body-IsClean f h p =
    let under = append_underscore f.nick in
    record {
      name = trim-trim f.name;
      host = trim-trim f.host;
      port = port_or-HasPort (signed (trim_start f.port)) p;
      nick = trim-trim f.nick;
      alt_nick = or_text_trimmed (trim f.alt_nick) _ (trim-trim f.alt_nick) under.0 under.1;
      username = or_text_trimmed (trim f.username) _ (trim-trim f.username) (trim-trim f.nick) h;
      realname = or_text_trimmed (trim f.realname) _ (trim-trim f.realname) (trim-trim f.nick) h;
      auto_join =
          rw (channels_of-cleaned f.auto_join)
            (cleaned-IsChannelName (split_commas f.auto_join) (split_commas-NoComma f.auto_join));
      sasl_username = trim-trim f.sasl_username;
    }

-- If the form has a nick, and its port, as `parseInt` reads it, is an integer below 2^53 in absolute
-- value or none at all, then the settings that show what was sent and are saved unchanged send the same
-- again, whatever else was entered.
pub body-opened-body :
    (write : ℤ → Text) (f : Form)
    → is_empty (trim f.nick) ≡ false
    → has_safe_port f ≡ true
    → body (opened write (body f)) ≡ body f
body-opened-body write f h p = body-opened write (body f) (body-IsClean f h p)
