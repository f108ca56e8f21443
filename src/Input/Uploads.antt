-- ===== src/Input/Uploads.antt =====
-- The uploads of frontend/app.jsx: `handlePhotoUpload` and `handleCodeUpload`, and `submitCode` of
-- `InputBar`. What the browser makes of a picture, and the answer of the server, are arguments.
use korechat.Common.{
  ℕ, ◌++◌, ◌∷◌, [], Text, lit, text_eq, is_empty, or_text, lower, ends_with, trim, drop, set_has,
  List, get_elem?, get_or_else, Bool, true, false, ◌||◌, Option, none, some, if◌then◌else◌,
}
use korechat.Chat.{status_chan}
use korechat.Client.{Refs, Env, Out, add_sys}
use korechat.Command.Handle.{handle_send}

-- A file: its type, its name, and its first bytes, `none` if they cannot be read.
pub record File : Type 0 where
  pub type_ : Text
  pub name : Text
  pub head : Option (List ℕ)

-- `String.fromCharCode(buf[i], buf[i+1], buf[i+2], buf[i+3])`; what is missing is the code 0.
abbrev four_chars : ℕ → List ℕ → Text
four_chars i buf =
    let rest = drop i buf in
    get_or_else (get_elem? rest 0) 0
    ∷ get_or_else (get_elem? rest 1) 0
    ∷ get_or_else (get_elem? rest 2) 0
    ∷ get_or_else (get_elem? rest 3) 0
    ∷ []

unfoldable pub heic_brands : List Text
heic_brands =
    lit "heic" ∷ lit "heis" ∷ lit "heix" ∷ lit "hevc" ∷ lit "hevx" ∷ lit "mif1" ∷ lit "msf1" ∷ []

-- `detectHeic`
unfoldable pub detect_heic : File → Bool
unfolding heic_brands
detect_heic f =
    if text_eq f.type_ (lit "image/heic") || text_eq f.type_ (lit "image/heif")
    then true
    else if ends_with (lower f.name) (lit ".heic") || ends_with (lower f.name) (lit ".heif")
    then true
    else elim f.head [
      | none ↦ false
      | some buf ↦
          if text_eq (four_chars 4 buf) (lit "ftyp")
          then set_has (four_chars 8 buf) heic_brands
          else false
    ]

-- The answer to an upload: `error` and `url` of the object, or an exception with its message.
pub data Answer : Type 0 where
  answered : Text → Text → Answer
  throws : Text → Answer

-- What the upload is from: `window.location.origin`, the network and the window.
pub record Place : Type 0 where
  pub origin : Text
  pub net_id : Text
  pub chan : Text

-- `addSys(activeNet, activeChanName||STATUS_CHAN, text)`
abbrev pub note : Env → Place → Text → Out
note env p text = add_sys p.net_id (or_text p.chan status_chan) text [] env.now

-- What both uploads do with the answer; `what` is "Photo" or "Code".
unfoldable pub on_answer : Env → Refs → Place → Text → Answer → List Out
on_answer env refs p what (answered [] url) = handle_send env refs p.net_id p.chan (p.origin ++ url)
on_answer env refs p what (answered (c ∷ e) url) =
    note env p (what ++ (lit " upload failed: " ++ c ∷ e)) ∷ []
on_answer env refs p what (throws e) = note env p (what ++ (lit " upload failed: " ++ e)) ∷ []

-- `handlePhotoUpload`. `converted` is what the conversion of a HEIC photo throws, if it does.
unfoldable pub photo_upload : Env → Refs → Place → File → Option Text → Answer → List Out
unfolding on_answer detect_heic
photo_upload env refs p file converted answer =
    if detect_heic file
    then note env p (lit "Converting HEIC photo…") ∷ (elim converted [
      | none ↦ on_answer env refs p (lit "Photo") answer
      | some e ↦ on_answer env refs p (lit "Photo") (throws e)
    ])
    else on_answer env refs p (lit "Photo") answer

-- `handleCodeUpload`
unfoldable pub code_upload : Env → Refs → Place → Answer → List Out
unfolding on_answer
code_upload env refs p answer = on_answer env refs p (lit "Code") answer

-- The code that `submitCode` uploads, if there is any.
unfoldable pub submit_code : Text → Option Text
submit_code text = if is_empty (trim text) then none else some (trim text)
