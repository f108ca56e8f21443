-- ===== src/Common/Whitespace.antt =====
-- JavaScript's white space: `trimEnd`, `trim`, and `split(/\s+/)` of a trimmed text.
use korechat.Common.Tests.{◌==◌, leb, if◌then◌else◌}
use korechat.Common.Texts.{Text}
use Prim.Native.Nat.{ℕ}
use mathlib.Core.Bool.{Bool, ◌&&◌, ◌||◌}
use mathlib.Core.List.{List, [], ◌∷◌}

-- The code units that `\s`, `trim` and `trimEnd` take for white space.
unfoldable pub is_white : ℕ → Bool
is_white c =
    (leb 9 c && leb c 13)
    || (c == 32
        || (c == 160
            || (c == 5760
                || ((leb 8192 c && leb c 8202)
                    || (c == 8232
                        || (c == 8233
                            || (c == 8239 || (c == 8287 || (c == 12288 || c == 65279)))))))))

abbrev pub cons_trimmed : ℕ → Text → Text
cons_trimmed c [] = if is_white c then [] else c ∷ []
cons_trimmed c (d ∷ s) = c ∷ d ∷ s

unfoldable pub trim_end : Text → Text
trim_end [] = []
trim_end (c ∷ s) = cons_trimmed c (trim_end s)

unfoldable pub trim_start : Text → Text
trim_start [] = []
trim_start (c ∷ s) = let rest = trim_start s in if is_white c then rest else c ∷ s

unfoldable pub trim : Text → Text
unfolding trim_end trim_start
trim s = trim_end (trim_start s)

-- The words of a text; `split(/\s+/).filter(Boolean)`.
abbrev pub push_word : Text → List Text → List Text
push_word [] ws = ws
push_word (c ∷ w) ws = (c ∷ w) ∷ ws

-- The rest of the current word, and the words behind it.
unfoldable pub words_from : Text → Text × List Text
words_from [] = ([], [])
words_from (c ∷ s) =
    let (w, ws) = words_from s in if is_white c then ([], push_word w ws) else (c ∷ w, ws)

unfoldable pub words : Text → List Text
unfolding words_from
words s = let (w, ws) = words_from s in push_word w ws
