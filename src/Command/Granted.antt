-- ===== src/Command/Granted.antt =====
-- "/op", "/voice" and their like in `handleSend`, and what MODE in `handleLine` makes of the same
-- line (frontend/app.jsx).
use korechat.Common.{
  ℕ, zero, suc, ◌++◌, ◌∷◌, [], ◌≡◌, ◌≢◌, refl, ap, ◌∙◌, Text, lit, drop, length, List, All, map,
  Bool, true, false, ◌||◌, some, if◌then◌else◌, ◌==◌, arith, join,
}
use korechat.Irc.{parse_irc, parse_prefix, parse_command, parse_params, break_at, upper_char}
use korechat.Irc.Words.{Without}
use korechat.Irc.RoundTrip.{IsWord, IsWord-nonempty, parse_params-alone, parse_params-word}
use korechat.Client.{arg}
use korechat.Line.Modes.{mode_to_prefix, mode_changes, change}
use korechat.Command.{Input, is_ready, raw, channel_or}
use korechat.Command.Operators.{repeat, member_mode}

parse_params-join :
    (w : Text) (ws : List Text)
    → All IsWord (w ∷ ws)
    → parse_params (join (lit " ") (w ∷ ws)) ≡ w ∷ ws
unfolding join lit
parse_params-join w [] h = parse_params-alone w h.0
parse_params-join w (v ∷ ws) h =
    rw (parse_params-word w (join (lit " ") (v ∷ ws)) h.0, parse_params-join v ws h.1)

-- The sign of a change.
abbrev pub sign_of : Bool → ℕ
sign_of true = b'+'
sign_of false = b'-'

-- A letter of a member's mode is none of the characters that the parsers give a meaning to.
pub letter-plain :
    (l : ℕ) (p : Text) → mode_to_prefix l ≡ some p → (l ≢ b' ') × ((l == b'+' || l == b'-') ≡ false)
unfolding mode_to_prefix
letter-plain l p h = ground arith

repeat-Without : (l n : ℕ) → l ≢ b' ' → Without b' ' (repeat (l ∷ []) n)
repeat-Without l zero h = tt
repeat-Without l (suc n) h = (h, repeat-Without l n h)

pub flags-IsWord : (adds : Bool) (l n : ℕ) → l ≢ b' ' → IsWord (sign_of adds ∷ repeat (l ∷ []) n)
flags-IsWord true l n h = (omega arith, (omega arith, repeat-Without l n h))
flags-IsWord false l n h = (omega arith, (omega arith, repeat-Without l n h))

arg-drop :
    (params : List Text) (i : ℕ) (n : Text) (ns : List Text)
    → drop i params ≡ n ∷ ns
    → (arg params i ≡ n) × (drop (suc i) params ≡ ns)
arg-drop [] zero n ns h = cc
arg-drop [] (suc i) n ns h = cc
arg-drop (p ∷ ps) zero n ns h = (cc, cc)
arg-drop (p ∷ ps) (suc i) n ns h = arg-drop ps i n ns h

change-word :
    (n : Text) (adds : Bool) (p : Text)
    → IsWord n
    → change n adds p n ≡ (n, if adds then p else []) ∷ []
change-word [] adds p h = elim h [ ]
change-word (c ∷ s) adds p h = refl

-- Each repeated letter takes the next nick.
pub mode_changes-repeat :
    (params : List Text) (l i : ℕ) (adds : Bool) (p : Text) (ns : List Text)
    → mode_to_prefix l ≡ some p
    → drop i params ≡ ns
    → All IsWord ns
    → mode_changes params (repeat (l ∷ []) (length ns)) i adds
      ≡ map (λ n. (n, if adds then p else [])) ns
unfolding mode_changes
mode_changes-repeat params l i adds p [] m d h = refl
mode_changes-repeat params l i adds p (n ∷ ns) m d h =
    let (a, d') = arg-drop params i n ns d in
    rw ((letter-plain l p m).1, m, mode_changes)
      (rw (a, change-word n adds p h.0, mode_changes-repeat params l (suc i) adds p ns m d' h.1))

parse_irc-mode : (s : Text) → (parse_irc (lit "MODE " ++ s)).params ≡ parse_params s
unfolding lit parse_irc parse_prefix parse_command break_at upper_char
parse_irc-mode s = refl

pub parsed_mode :
    (target flags n : Text) (ns : List Text)
    → IsWord target
    → IsWord flags
    → All IsWord (n ∷ ns)
    → (parse_irc (
        lit "MODE "
        ++ (target ++ (lit " " ++ (flags ++ (lit " " ++ join (lit " ") (n ∷ ns))))))).params
      ≡ target ∷ flags ∷ n ∷ ns
parsed_mode target flags n ns t f h =
    parse_irc-mode _
    ∙ (unfold lit in
        rw (parse_params-word target _ t, parse_params-word flags _ f)
          (ap (λ w. target ∷ flags ∷ w) (parse_params-join n ns h)))

pub mode_changes-signed :
    (params : List Text) (chs : Text) (i : ℕ) (b adds : Bool)
    → mode_changes params (sign_of adds ∷ chs) i b ≡ mode_changes params chs i adds
unfolding mode_changes
mode_changes-signed params chs i b true = refl
mode_changes-signed params chs i b false = refl

-- For a ready connection, a channel and nicks that are words, and the letter of a member's mode:
-- "/op a b", "/devoice a b" and their like send one MODE line, and from the parameters that the
-- parser reads in it the handler of MODE takes exactly the nicks in their order, each with the
-- letter's prefix, or with none if the sign is "-".
pub member_mode-granted :
    (i : Input) (name : Text) (adds : Bool) (l : ℕ) (p n : Text) (ns : List Text)
    → is_ready i ≡ true
    → IsWord (channel_or i [])
    → i.args ≡ n ∷ ns
    → All IsWord (n ∷ ns)
    → mode_to_prefix l ≡ some p
    → (line : Text) × (flags : Text) × (member_mode i name (sign_of adds ∷ []) (l ∷ [])
        ≡ raw i line ∷ [])
      × ((parse_irc line).params ≡ channel_or i [] ∷ flags ∷ n ∷ ns)
      × (mode_changes (parse_irc line).params flags 2 true
          ≡ map (λ m. (m, if adds then p else [])) (n ∷ ns))
unfolding member_mode
member_mode-granted i name adds l p n ns ready word args words m =
    let flags : Text = sign_of adds ∷ repeat (l ∷ []) (length (n ∷ ns)) in
    let w : IsWord flags = flags-IsWord adds l (length (n ∷ ns)) (letter-plain l p m).0 in
    let e = parsed_mode (channel_or i []) flags n ns word w words in
    (
      _,
      flags,
      rw (ready, args, IsWord-nonempty n words.0, IsWord-nonempty (channel_or i []) word),
      e,
      rw e (
          rw
            (mode_changes-signed (channel_or i [] ∷ flags ∷ n ∷ ns)
              (repeat (l ∷ []) (length (n ∷ ns))) 2 true adds)
            (mode_changes-repeat (channel_or i [] ∷ flags ∷ n ∷ ns) l 2 adds p (n ∷ ns) m refl
              words)),
    )
