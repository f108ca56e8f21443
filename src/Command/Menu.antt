-- ===== src/Command/Menu.antt =====
-- `UserMenuPopup` of frontend/app.jsx: the menu of a member of a channel, and the commands that its
-- rows hand to `handleSend`.
use korechat.Common.{
  ℕ, ◌++◌, ◌∷◌, [], Text, lit, text_eq, or_text, List, leb, ltb, Bool, not, ◌&&◌, ◌||◌, Option,
  none, some, if◌then◌else◌,
}

-- `menu`, `myPrefix` and `currentNick`
pub record Menu : Type 0 where
  pub nick : Text
  pub pfx : Text
  pub chan : Text
  pub my_prefix : Text
  pub current_nick : Text

-- `RANK[prefix] ?? 0`
unfoldable pub rank : Text → ℕ
rank p =
    if text_eq p (lit "~")
    then 5
    else if text_eq p (lit "&")
    then 4
    else if text_eq p (lit "@")
    then 3
    else if text_eq p (lit "%")
    then 2
    else if text_eq p (lit "+")
    then 1
    else 0

abbrev my_rank : Menu → ℕ
my_rank m = rank m.my_prefix

abbrev their_rank : Menu → ℕ
their_rank m = rank m.pfx

-- A `ModeRow`: the letter of `sub`, whether the member has the mode, and `canDo`.
pub record ModeRow : Type 0 where
  pub letter : ℕ
  pub has : Bool
  pub can_do : Bool

-- `canSeeOps && nick !== currentNick`
unfoldable pub sees_modes : Menu → Bool
sees_modes m = leb 2 (my_rank m) && not (text_eq m.nick m.current_nick)

abbrev row_if : Bool → ModeRow → List ModeRow → List ModeRow
row_if b r rs = if b then r ∷ rs else rs

-- The rows of the section "Channel Modes".
unfoldable pub mode_rows : Menu → List ModeRow
mode_rows m =
    if sees_modes m
    then row_if (leb 5 (my_rank m))
        (record { letter = b'q'; has = text_eq m.pfx (lit "~"); can_do = leb 5 (my_rank m) })
        (row_if (leb 4 (my_rank m))
          (record { letter = b'a'; has = text_eq m.pfx (lit "&"); can_do = leb 4 (my_rank m) })
          (record { letter = b'o'; has = text_eq m.pfx (lit "@"); can_do = leb 3 (my_rank m) }
            ∷ record { letter = b'h'; has = text_eq m.pfx (lit "%"); can_do = leb 3 (my_rank m) }
            ∷ record { letter = b'v'; has = text_eq m.pfx (lit "+"); can_do = leb 2 (my_rank m) }
            ∷ []))
    else []

-- `dim`
unfoldable pub is_dim : Menu → ModeRow → Bool
is_dim m r =
    not r.can_do
    || (if r.has
        then not (leb (their_rank m) (my_rank m))
        else not (ltb (their_rank m) (my_rank m)))

-- The click on a row of a mode.
unfoldable pub click : Menu → ModeRow → Option Text
click m r =
    if is_dim m r
    then none
    else some (
        lit "/mode "
        ++ (m.chan ++ (b' ' ∷ ((if r.has then b'-' else b'+') ∷ (r.letter ∷ (b' ' ∷ m.nick))))))

-- `/kick ${chan} ${nick} ${reason||other}`
abbrev pub kick_command : Menu → Text → Text → Text
kick_command m reason other =
    lit "/kick " ++ (m.chan ++ (b' ' ∷ (m.nick ++ (b' ' ∷ or_text reason other))))

-- `/mode ${chan} +b ${nick}!*@*`
abbrev ban_command : Menu → Text
ban_command m = lit "/mode " ++ (m.chan ++ (lit " +b " ++ (m.nick ++ lit "!*@*")))

-- `!canKick||!canRevoke`
abbrev may_not_kick : Menu → Bool
may_not_kick m = not (leb 2 (my_rank m)) || not (leb (their_rank m) (my_rank m))

-- The click on "Kick", with the answer to the prompt; `none` is `null`.
unfoldable pub click_kick : Menu → Option Text → List Text
click_kick m reason =
    if not (sees_modes m) || may_not_kick m
    then []
    else elim reason [ none ↦ [] | some r ↦ kick_command m r (lit "Kicked") ∷ [] ]

-- The click on "Ban (host mask)".
unfoldable pub click_ban : Menu → List Text
click_ban m = if not (sees_modes m) || may_not_kick m then [] else ban_command m ∷ []

-- The click on "Kick & Ban".
unfoldable pub click_kick_ban : Menu → Option Text → List Text
click_kick_ban m reason =
    if not (sees_modes m) || may_not_kick m
    then []
    else elim reason [ none ↦ [] | some r ↦ ban_command m ∷ kick_command m r (lit "Banned") ∷ [] ]

-- The rows that are always there.
unfoldable pub click_whois : Menu → Text
click_whois m = lit "/whois " ++ m.nick

unfoldable pub click_message : Menu → Text
click_message m = lit "/msg " ++ m.nick
