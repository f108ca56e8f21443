-- ===== src/Input/Uploaded.antt =====
-- What an upload sends and shows (frontend/app.jsx).
use korechat.Common.{
  ◌++◌, ◌∷◌, [], ◌≡◌, ◌∙◌, refl, ap, Text, lit, is_empty, text_eq, starts_with, set_has, List, true,
  false, ◌||◌, Option, none, some, if◌then◌else◌, Bool-cases, Option-cases, inl, inr,
}
use korechat.Chat.{status_chan}
use korechat.Client.{Refs, Env, Out, add_sys}
use korechat.Command.Handle.{handle_send, input}
use korechat.Command.Messages.{say}
use korechat.Command.Offline.{sent}
use korechat.Command.{Input, is_ready}
use korechat.Irc.{break_at}
use korechat.Input.Uploads.{
  File, Answer, answered, throws, Place, note, on_answer, photo_upload, detect_heic,
}

-- The link of an upload.
abbrev pub link_line : Place → Text → Text
link_line p url = lit "PRIVMSG " ++ (p.chan ++ (lit " :" ++ (p.origin ++ url)))

-- The answer without an error, if it is one.
abbrev pub url_of : Answer → Option Text
url_of (answered [] url) = some url
url_of (answered (c ∷ e) url) = none
url_of (throws e) = none

-- One line with the link, or none.
abbrev pub lines_of : Place → Option Text → List Text
lines_of p none = []
lines_of p (some url) = link_line p url ∷ []

abbrev pub uploads_url : File → Option Text → Answer → Option Text
uploads_url file none answer = url_of answer
uploads_url file (some e) answer = if detect_heic file then none else url_of answer

-- The parts of the input that do not depend on the text.
record IsAt (refs : Refs) (net_id chan : Text) (i : Input) : Type 0 where
  pub net : i.net_id ≡ net_id
  pub window : i.chan ≡ chan
  pub same : i.refs ≡ refs

input-IsAt :
    (env : Env) (refs : Refs) (net_id chan text : Text)
    → IsAt refs net_id chan (input env refs net_id chan text)
unfolding input
input-IsAt env refs net_id chan text = elim (Option-cases (break_at b' ' text)) [
  | inl e ↦ rw (e, input) (record { net = refl; window = refl; same = refl })
  | inr (q, e) ↦ rw (e, input) (record { net = refl; window = refl; same = refl })
]

sent-say :
    (i : Input) (text : Text)
    → is_ready i ≡ true
    → (is_empty i.chan || text_eq i.chan status_chan) ≡ false
    → sent (say i text) ≡ (lit "PRIVMSG " ++ (i.chan ++ (lit " :" ++ text))) ∷ []
unfolding say
sent-say i text r e = rw (r, e)

module _ (env : Env) (refs : Refs) (p : Place) where
  -- The connection is ready, the window is no status window, and the origin begins with no slash.
  pub record CanShare : Type 0 where
    pub ready : set_has p.net_id refs.ready ≡ true
    pub chan : is_empty p.chan ≡ false
    pub not_status : text_eq p.chan status_chan ≡ false
    pub origin : (url : Text) → starts_with (p.origin ++ url) (lit "/") ≡ false

  sent-link :
      CanShare
      → (url : Text)
      → sent (handle_send env refs p.net_id p.chan (p.origin ++ url)) ≡ link_line p url ∷ []
  unfolding handle_send
  sent-link h url =
      let i = input env refs p.net_id p.chan (p.origin ++ url) in
      let at = input-IsAt env refs p.net_id p.chan (p.origin ++ url) in
      rw (h.origin url) (
        sent-say i (p.origin ++ url) (rw (at.net, at.same) h.ready)
          (rw at.window (rw (h.chan, h.not_status) refl))
        ∙ rw at.window)

  sent-on_answer :
      CanShare
      → (what : Text) (a : Answer) → sent (on_answer env refs p what a) ≡ lines_of p (url_of a)
  unfolding on_answer add_sys
  sent-on_answer h what (answered [] url) = sent-link h url
  sent-on_answer h what (answered (c ∷ e) url) = refl
  sent-on_answer h what (throws e) = refl

  sent-photo_upload :
      CanShare
      → (file : File) (converted : Option Text) (a : Answer)
      → sent (photo_upload env refs p file converted a) ≡ lines_of p (uploads_url file converted a)
  unfolding photo_upload add_sys
  sent-photo_upload h file none a = elim (Bool-cases (detect_heic file)) [
    | inl e ↦ rw e (sent-on_answer h (lit "Photo") a)
    | inr e ↦ rw e (sent-on_answer h (lit "Photo") a)
  ]
  sent-photo_upload h file (some e) a = elim (Bool-cases (detect_heic file)) [
    | inl k ↦ rw k (sent-on_answer h (lit "Photo") (throws e))
    | inr k ↦ rw k (sent-on_answer h (lit "Photo") a)
  ]

  -- The last thing that is shown is that the upload failed.
  abbrev pub Fails : List Out → Type 0
  Fails outs =
      (before : List Out) × (why : Text) × (outs
        ≡ before ++ note env p (lit "Photo upload failed: " ++ why) ∷ [])

  Fails-on_answer : (a : Answer) → url_of a ≡ none → Fails (on_answer env refs p (lit "Photo") a)
  unfolding on_answer lit
  Fails-on_answer (answered [] url) h = cc
  Fails-on_answer (answered (c ∷ e) url) h = ([], c ∷ e, refl)
  Fails-on_answer (throws e) h = ([], e, refl)

  Fails-behind : (o : Out) (outs : List Out) → Fails outs → Fails (o ∷ outs)
  Fails-behind o outs (before, why, e) = (o ∷ before, why, ap (λ os. o ∷ os) e)

  photo_upload-Fails :
      (file : File) (converted : Option Text) (a : Answer)
      → uploads_url file converted a ≡ none
      → Fails (photo_upload env refs p file converted a)
  unfolding photo_upload
  photo_upload-Fails file none a h = elim (Bool-cases (detect_heic file)) [
    | inl e ↦ rw e (Fails-behind _ _ (Fails-on_answer a h))
    | inr e ↦ rw e (Fails-on_answer a h)
  ]
  photo_upload-Fails file (some w) a h = elim (Bool-cases (detect_heic file)) [
    | inl e ↦ rw e (Fails-behind _ _ (Fails-on_answer (throws w) refl))
    | inr e ↦ rw e (Fails-on_answer a (rw e at h))
  ]

  -- For a ready connection, a window other than the status window, and an origin without a slash in
  -- front: an upload of a photo sends one line with its link to the window, if the conversion that it
  -- needs succeeds and the answer has no error; otherwise it sends nothing and shows that it failed.
  pub photo_upload-sent :
      CanShare
      → (file : File) (converted : Option Text) (a : Answer)
      → (sent (photo_upload env refs p file converted a)
          ≡ lines_of p (uploads_url file converted a))
        × (uploads_url file converted a ≡ none → Fails (photo_upload env refs p file converted a))
  photo_upload-sent h file converted a =
      (sent-photo_upload h file converted a, photo_upload-Fails file converted a)
