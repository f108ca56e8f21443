-- ===== src/Command/Switched.antt =====
-- The rows of modes in the menu of a member, by way of `handleSend`, `parseIRC` and the handler of
-- MODE (frontend/app.jsx).
use korechat.Common.{
  ℕ, ◌++◌, ◌∷◌, [], ◌≡◌, ◌∙◌, ◌≤◌, ◌<◌, refl, ap, Text, lit, text_eq, is_empty, join, lower, lookup,
  trim, trim_end, IsSolid, trim_words, trim_end_last, is_white, List, leb, ltb, Bool, true, false,
  not, ◌||◌, Option, none, some, if◌then◌else◌, Bool-cases, inl, inr, arith,
}
use korechat.Client.{Refs, Env, Out, send}
use korechat.Command.Clicked.{IsOpen, handled, slash}
use korechat.Command.Granted.{
  parsed_mode, mode_changes-signed, mode_changes-repeat, flags-IsWord, letter-plain,
}
use korechat.Command.Handle.{labels, on_verb, input, handle_send, mode_}
use korechat.Command.Menu.{Menu, ModeRow, rank, is_dim, click}
use korechat.Command.Operators.{mode}
use korechat.Command.{Input, raw, is_ready}
use korechat.Irc.RoundTrip.{IsWord}
use korechat.Irc.{parse_irc, break_at}
use korechat.Line.Modes.{mode_to_prefix, mode_changes}

mode_verb : lookup (lit "/mode") labels ≡ some mode_
unfolding labels lookup text_eq lit
mode_verb = refl

mode_cmd :
    (env : Env) (refs : Refs) (net_id chan rest : Text)
    → (input env refs net_id chan (lit "/mode " ++ rest)).cmd ≡ lit "/mode"
unfolding input lit break_at lower
mode_cmd env refs net_id chan rest = refl

mode_rest :
    (env : Env) (refs : Refs) (net_id chan rest : Text)
    → ((input env refs net_id chan (lit "/mode " ++ rest)).rest ≡ trim rest)
      × (((input env refs net_id chan (lit "/mode " ++ rest)).net_id ≡ net_id)
          × ((input env refs net_id chan (lit "/mode " ++ rest)).refs ≡ refs))
unfolding input lit break_at
mode_rest env refs net_id chan rest = (refl, (refl, refl))

sends_mode :
    (i : Input)
    → is_ready i ≡ true
    → is_empty i.rest ≡ false
    → mode i ≡ raw i (lit "MODE " ++ i.rest) ∷ []
unfolding mode
sends_mode i r e = rw (r, e)

-- A letter of a member's mode is no white space.
letter_black : (l : ℕ) (p : Text) → mode_to_prefix l ≡ some p → is_white l ≡ false
unfolding mode_to_prefix is_white
letter_black l p h = ground arith

flags-IsSolid :
    (has : Bool) (l : ℕ) (p : Text)
    → mode_to_prefix l ≡ some p
    → IsSolid ((if has then b'-' else b'+') ∷ l ∷ [])
unfolding is_empty
flags-IsSolid true l p h = (refl, rw (letter_black l p h) (unfold is_white in refl))
flags-IsSolid false l p h = (refl, rw (letter_black l p h) (unfold is_white in refl))

-- What stands behind "/mode ".
abbrev row_rest : Menu → ModeRow → Text
row_rest m r = m.chan ++ (b' ' ∷ ((if r.has then b'-' else b'+') ∷ (r.letter ∷ (b' ' ∷ m.nick))))

row_rest-trim :
    (m : Menu) (r : ModeRow) (p : Text)
    → mode_to_prefix r.letter ≡ some p
    → IsSolid m.chan
    → IsSolid m.nick
    → trim (row_rest m r) ≡ row_rest m r
row_rest-trim m r p h c n =
    let flags : Text = (if r.has then b'-' else b'+') ∷ r.letter ∷ [] in
    let last : trim_end (b' ' ∷ m.nick) ≡ b' ' ∷ m.nick = trim_end_last m.nick n in
    trim_words m.chan flags (b' ' ∷ m.nick) c (flags-IsSolid r.has r.letter p h) ∙ rw last

-- A mode is taken away by one of the same rank at least, and given by one of a higher rank.
abbrev pub Outranks : Bool → ℕ → ℕ → Type 0
Outranks true theirs mine = theirs ≤ mine
Outranks false theirs mine = theirs < mine

allowed :
    (can has : Bool) (theirs mine : ℕ)
    → (not can || (if has then not (leb theirs mine) else not (ltb theirs mine))) ≡ false
    → Outranks has theirs mine
allowed can true theirs mine h = ground arith
allowed can false theirs mine h = ground arith

click_allowed :
    (m : Menu) (r : ModeRow) (text : Text)
    → click m r ≡ some text
    → Outranks r.has (rank m.pfx) (rank m.my_prefix) × (lit "/mode " ++ row_rest m r ≡ text)
unfolding click
click_allowed m r text h = elim (Bool-cases (is_dim m r)) [
  | inl e ↦ let g : ◌≡◌ {A = Option Text} none (some text) = rw e at h in cc
  | inr e ↦
      let g : some (lit "/mode " ++ row_rest m r) ≡ some text = rw e at h in
      (allowed r.can_do r.has (rank m.pfx) (rank m.my_prefix) (unfold is_dim in e), cc)
]

chan_not_empty : (m : Menu) (r : ModeRow) → IsSolid m.chan → is_empty (row_rest m r) ≡ false
chan_not_empty m r h = first m.chan h.0
  where
    first :
        (s : Text)
        → is_empty s ≡ false
        → is_empty (s ++ (b' ' ∷ ((if r.has then b'-' else b'+') ∷ (r.letter ∷ (b' ' ∷ m.nick)))))
          ≡ false
    first [] k = unfold is_empty in cc
    first (c ∷ s) k = unfold is_empty in refl

mode_handled :
    (env : Env) (refs : Refs) (net_id : Text) (m : Menu) (r : ModeRow) (p : Text)
    → IsOpen refs net_id m
    → mode_to_prefix r.letter ≡ some p
    → handle_send env refs net_id m.chan (lit "/mode " ++ row_rest m r)
      ≡ send net_id (lit "MODE " ++ row_rest m r) ∷ []
unfolding on_verb
mode_handled env refs net_id m r p o h =
    let i = input env refs net_id m.chan (lit "/mode " ++ row_rest m r) in
    let (t, (n, f)) = mode_rest env refs net_id m.chan (row_rest m r) in
    let t' : i.rest ≡ row_rest m r = t ∙ row_rest-trim m r p h o.chan o.nick in
    handled env refs net_id m.chan (lit "/mode " ++ row_rest m r) mode_ (slash (row_rest m r)).1
      (ap (λ c. lookup c labels) (mode_cmd env refs net_id m.chan (row_rest m r)) ∙ mode_verb)
    ∙ sends_mode i (rw (n, f) o.ready) (rw t' (chan_not_empty m r o.chan))
    ∙ rw (n, t')

granted_params :
    (has : Bool) (l : ℕ) (p chan nick : Text)
    → mode_to_prefix l ≡ some p
    → IsWord chan
    → IsWord nick
    → (parse_irc (
        lit "MODE "
        ++ (chan ++ (b' ' ∷ ((if has then b'-' else b'+') ∷ (l ∷ (b' ' ∷ nick))))))).params
      ≡ chan ∷ ((if has then b'-' else b'+') ∷ l ∷ []) ∷ nick ∷ []
unfolding lit join
granted_params true l p chan nick h c n =
    parsed_mode chan (b'-' ∷ l ∷ []) nick [] c (flags-IsWord false l 1 (letter-plain l p h).0)
      (n, tt)
granted_params false l p chan nick h c n =
    parsed_mode chan (b'+' ∷ l ∷ []) nick [] c (flags-IsWord true l 1 (letter-plain l p h).0)
      (n, tt)

granted_changes :
    (has : Bool) (l : ℕ) (p chan nick : Text)
    → mode_to_prefix l ≡ some p
    → IsWord nick
    → mode_changes
        (chan ∷ ((if has then b'-' else b'+') ∷ l ∷ []) ∷ nick ∷ [])
        ((if has then b'-' else b'+') ∷ l ∷ [])
        2
        true
      ≡ (nick, if has then [] else p) ∷ []
granted_changes true l p chan nick h n =
    mode_changes-signed (chan ∷ (b'-' ∷ l ∷ []) ∷ nick ∷ []) (l ∷ []) 2 true false
    ∙ mode_changes-repeat (chan ∷ (b'-' ∷ l ∷ []) ∷ nick ∷ []) l 2 false p (nick ∷ []) h refl
        (n, tt)
granted_changes false l p chan nick h n =
    mode_changes-signed (chan ∷ (b'+' ∷ l ∷ []) ∷ nick ∷ []) (l ∷ []) 2 true true
    ∙ mode_changes-repeat (chan ∷ (b'+' ∷ l ∷ []) ∷ nick ∷ []) l 2 true p (nick ∷ []) h refl (n, tt)

-- What the row asks for, as the parser and the handler of MODE read it in the line.
pub record IsGranted (net_id : Text) (m : Menu) (r : ModeRow) (p : Text) (outs : List Out)
    : Type 0 where
  pub line : Text
  pub sent : outs ≡ send net_id line ∷ []
  pub params :
      (parse_irc line).params
      ≡ m.chan ∷ ((if r.has then b'-' else b'+') ∷ r.letter ∷ []) ∷ m.nick ∷ []
  pub changes :
      mode_changes (parse_irc line).params ((if r.has then b'-' else b'+') ∷ r.letter ∷ []) 2 true
      ≡ (m.nick, if r.has then [] else p) ∷ []

-- For a ready connection and words for the channel and the nick: a click that the menu lets through on
-- a row of a mode is by a user of a higher rank than the member, or of the same rank if the member has
-- the mode. It sends one line, and from the parameters that the parser reads in it the handler of MODE
-- takes exactly this change: the member's prefix becomes the mode's, or none if the member had it.
pub mode_row-IsGranted :
    (env : Env) (refs : Refs) (net_id : Text) (m : Menu) (r : ModeRow) (p text : Text)
    → IsOpen refs net_id m
    → IsWord m.chan
    → IsWord m.nick
    → mode_to_prefix r.letter ≡ some p
    → click m r ≡ some text
    → Outranks r.has (rank m.pfx) (rank m.my_prefix)
      × IsGranted net_id m r p (handle_send env refs net_id m.chan text)
mode_row-IsGranted env refs net_id m r p text o c n h k =
    let (allow, e) = click_allowed m r text k in
    let params = granted_params r.has r.letter p m.chan m.nick h c n in
    (
      allow,
      record {
        line = lit "MODE " ++ row_rest m r;
        sent = rw (← e) (mode_handled env refs net_id m r p o h);
        params = params;
        changes = rw params (granted_changes r.has r.letter p m.chan m.nick h n);
      },
    )
