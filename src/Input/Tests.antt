-- ===== src/Input/Tests.antt =====
-- Keys on an input line, and the theorems at them.
use korechat.Common.{
  ◌∷◌, [], ◌≡◌, refl, false, none, some, lit, text_eq, set_has, is_empty, starts_with, arith,
}
use korechat.Client.{Refs}
use korechat.Client.Samples.{env, refs}
use korechat.Command.Offline.{sent}
use korechat.Input.Uploads.{File, Place, answered, photo_upload}
use korechat.Input.Uploaded.{lines_of, uploads_url, Fails, photo_upload-sent}
use korechat.Input.{Bar, enter, step}
use korechat.Input.Bounds.{IsValid, step-IsValid}

-- "a" is typed, and "b" was sent before.
abbrev typed : Bar
typed = record { val = b'a' ∷ []; hist = (b'b' ∷ []) ∷ []; hist_pos = 0; suggest = []; sug_idx = 0 }

step-IsValid_example : IsValid (step false enter typed).0
step-IsValid_example =
    step-IsValid false enter typed tt
      (record { bounded = omega arith; position = omega arith; selected = λ e. cc })

abbrev place : Place
place = record { origin = b'h' ∷ []; net_id = b'n' ∷ []; chan = b'#' ∷ b'c' ∷ [] }

abbrev connected : Refs
connected = record refs { ready = (b'n' ∷ []) ∷ [] }

-- A photo with the magic bytes of HEIC.
abbrev photo : File
photo = record { type_ = []; name = b'p' ∷ []; head = some (0 ∷ 0 ∷ 0 ∷ 0 ∷ lit "ftypheic") }

photo_upload-sent_example :
    (sent (photo_upload env connected place photo none (answered [] (b'/' ∷ b'x' ∷ [])))
      ≡ lines_of place (uploads_url photo none (answered [] (b'/' ∷ b'x' ∷ []))))
    × (uploads_url photo none (answered [] (b'/' ∷ b'x' ∷ [])) ≡ none
        → Fails env connected place
            (photo_upload env connected place photo none (answered [] (b'/' ∷ b'x' ∷ []))))
photo_upload-sent_example =
    photo_upload-sent env connected place
      (record {
        ready = unfold set_has text_eq in refl;
        chan = unfold is_empty in refl;
        not_status = unfold text_eq lit in refl;
        origin = λ url. unfold starts_with lit in refl;
      })
      photo none (answered [] (b'/' ∷ b'x' ∷ []))
