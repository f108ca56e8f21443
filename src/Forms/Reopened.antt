-- ===== src/Forms/Reopened.antt =====
-- The settings of a network that are opened and saved.
use korechat.Common.{
  ℤ, pos, negsuc, zero, suc, ◌++◌, ◌∷◌, [], ◌≡◌, ◌≢◌, ◌∙◌, refl, ap, Text, lit, is_empty, is_white,
  or_text, trim, trim_start, trim_end, join, keep, map, List, All, any, true, false, not, ◌==◌,
  some, arith,
}
use korechat.Forms.Networks.{Network, opened, body}
use korechat.Forms.Numbers.{parse_int-show_int}
use korechat.Forms.{
  Number, exact, far, is_safe, show_number, parse_int, port_or, split_commas, cons_piece,
  channels_of,
}

-- A text without white space at its ends.
abbrev pub IsTrim : Text → Type 0
IsTrim s = trim s ≡ s

-- A text that is trimmed, is not empty and has no comma.
abbrev pub IsChannelName : Text → Type 0
IsChannelName s = IsTrim s × ((is_empty s ≡ false) × (any (λ c. c == b',') s ≡ false))

-- A port that is read as it is shown: a safe integer other than zero.
abbrev pub HasPort : Number → Type 0
HasPort (exact n) = (is_safe n ≡ true) × (n ≢ pos 0)
HasPort (far n) = ⊥

-- A network as the form sends one.
pub record IsClean (net : Network) : Type 0 where
  pub name : IsTrim net.name
  pub host : IsTrim net.host
  pub port : HasPort net.port
  pub nick : IsTrim net.nick
  pub alt_nick : IsTrim net.alt_nick × (is_empty net.alt_nick ≡ false)
  pub username : IsTrim net.username × (is_empty net.username ≡ false)
  pub realname : IsTrim net.realname × (is_empty net.realname ≡ false)
  pub auto_join : All IsChannelName net.auto_join
  pub sasl_username : IsTrim net.sasl_username

-- The pieces that are kept.
abbrev pub cleaned : List Text → List Text
cleaned ps = keep (λ t. not (is_empty t)) (map trim ps)

pub channels_of-cleaned : (s : Text) → channels_of s ≡ cleaned (split_commas s)
unfolding channels_of split_commas trim trim_end trim_start is_empty
channels_of-cleaned [] = refl
channels_of-cleaned (c ∷ s) = refl

cleaned_space : (ps : List Text) → cleaned (cons_piece b' ' ps) ≡ cleaned ps
unfolding trim trim_end trim_start is_white is_empty
cleaned_space [] = refl
cleaned_space (p ∷ ps) = refl

split_commas-piece :
    (x r : Text)
    → any (λ c. c == b',') x ≡ false
    → split_commas (x ++ b',' ∷ r) ≡ x ∷ split_commas r
unfolding split_commas
split_commas-piece [] r h = refl
split_commas-piece (c ∷ x) r h =
    let no : (c == b',') ≡ false = ground arith in rw (no, split_commas-piece x r (ground arith))

split_commas-last : (x : Text) → any (λ c. c == b',') x ≡ false → split_commas x ≡ x ∷ []
unfolding split_commas
split_commas-last [] h = refl
split_commas-last (c ∷ x) h =
    let no : (c == b',') ≡ false = ground arith in rw (no, split_commas-last x (ground arith))

cleaned-cons : (x : Text) (ps : List Text) → IsChannelName x → cleaned (x ∷ ps) ≡ x ∷ cleaned ps
cleaned-cons x ps (t, (e, n)) = rw (t, e)

nothing : cleaned (split_commas []) ≡ []
unfolding split_commas trim trim_end trim_start is_empty
nothing = refl

space : (s : Text) → cleaned (split_commas (b' ' ∷ s)) ≡ cleaned (split_commas s)
unfolding split_commas
space s = cleaned_space (split_commas s)

cleaned-join :
    (xs : List Text) → All IsChannelName xs → cleaned (split_commas (join (lit ", ") xs)) ≡ xs
unfolding join lit
cleaned-join [] h = nothing
cleaned-join (x ∷ []) h = rw (split_commas-last x h.0.1.1) (cleaned-cons x [] h.0)
cleaned-join (x ∷ y ∷ xs) h =
    let rest = join (lit ", ") (y ∷ xs) in
    rw (split_commas-piece x (b' ' ∷ rest) h.0.1.1) (
      cleaned-cons x (split_commas (b' ' ∷ rest)) h.0
      ∙ ap (◌∷◌ x) (space rest ∙ cleaned-join (y ∷ xs) h.1))

or_text_left : (s t : Text) → is_empty s ≡ false → or_text s t ≡ s
unfolding or_text is_empty
or_text_left [] t h = cc
or_text_left (c ∷ s) t h = refl

port_or_self : (n : ℤ) → n ≢ pos 0 → port_or (some (exact n)) ≡ exact n
port_or_self (pos zero) h = absurd (h refl)
port_or_self (pos (suc n)) h = refl
port_or_self (negsuc n) h = refl

port-reread :
    (write : ℤ → Text) (p : Number)
    → HasPort p
    → port_or (parse_int (show_number write (port_or (some p)))) ≡ p
port-reread write (far n) h = absurd h
port-reread write (exact n) (s, z) =
    rw (port_or_self n z, parse_int-show_int n, s) (port_or_self n z)

-- The form that is opened on such a network and saved sends the network as it is.
pub body-opened : (write : ℤ → Text) (net : Network) → IsClean net → body (opened write net) ≡ net
unfolding body opened
body-opened write net h =
    rw
      (
        h.name,
        h.host,
        port-reread write net.port h.port,
        h.nick,
        h.alt_nick.0,
        h.username.0,
        h.realname.0,
        h.sasl_username,
        channels_of-cleaned,
        cleaned-join net.auto_join h.auto_join,
        or_text_left net.alt_nick (net.nick ++ lit "_") h.alt_nick.1,
        or_text_left net.username net.nick h.username.1,
        or_text_left net.realname net.nick h.realname.1,
      )
      refl
