-- ===== src/Forms/Checked.antt =====
-- What the forms check before a request, and what they show after it.
use korechat.Common.{
  ◌∷◌, [], ◌≡◌, ◌≤◌, ◌<◌, refl, sym, ap, subst, Text, lit, is_empty, text_eq_sound, trim, length,
  true, false, Option, none, some, Bool-cases, inl, inr, arith,
}
use korechat.Forms.Accounts.{
  SetupForm, NewAdmin, UserForm, UserBody, Passwords, Change, setup, save_user, change_password,
}
use korechat.Forms.Networks.{
  Form, body, submit, awaited, Created, result, null, fails, on_created, add_network,
}
use korechat.Forms.{refused, requests, Page, submitted}

-- The network was added, after valid fields and an answer with an id and without an error.
pub record IsAdded (form : Form) (created : Created) (page : Page) (id : Text) : Type 0 where
  pub name : is_empty (trim form.name) ≡ false
  pub host : is_empty (trim form.host) ≡ false
  pub nick : is_empty (trim form.nick) ≡ false
  pub answer : created ≡ result [] id
  pub has_id : is_empty id ≡ false
  pub no_error : page.err ≡ []

-- Either it was added, or there is an error to read; the page waits for nothing.
abbrev pub IsSettled : Form → Created → Page × Option Text → Type 0
IsSettled form created (page, some id) = (page.busy ≡ false) × IsAdded form created page id
IsSettled form created (page, none) = (page.busy ≡ false) × (is_empty page.err ≡ false)

settle :
    (form : Form) (c : Created)
    → is_empty (trim form.name) ≡ false
    → is_empty (trim form.host) ≡ false
    → is_empty (trim form.nick) ≡ false
    → IsSettled form c (on_created c (record { busy = true; err = [] }))
unfolding on_created
settle form (result [] []) e e' e'' = (refl, unfold is_empty lit in refl)
settle form (result [] (c ∷ id)) e e' e'' = (
  refl,
  record {
    name = e;
    host = e';
    nick = e'';
    answer = refl;
    has_id = unfold is_empty in refl;
    no_error = refl;
  },
)
settle form (result (c ∷ k) id) e e' e'' = (refl, unfold is_empty in refl)
settle form null e e' e'' = (refl, unfold is_empty lit in refl)
settle form (fails message) e e' e'' = (refl, unfold is_empty lit in refl)

by_refusal :
    (form : Form) (created : Created) (page : Page) (why : Text)
    → page.busy ≡ false
    → submit form ≡ refused why
    → is_empty why ≡ false
    → IsSettled form created (add_network form created page)
unfolding add_network submitted
by_refusal form created page why h e k =
    let r : add_network form created page ≡ (record page { err = why }, none) =
      unfold awaited in ap (λ o. awaited o created page) e in
    subst (IsSettled form created) (sym r) (h, k)

by_request :
    (form : Form) (created : Created) (page : Page)
    → submit form ≡ requests (body form)
    → IsSettled form created (on_created created (record { busy = true; err = [] }))
    → IsSettled form created (add_network form created page)
unfolding add_network submitted
by_request form created page e h =
    let r : add_network form created page ≡ on_created created (record { busy = true; err = [] }) =
      unfold awaited in ap (λ o. awaited o created page) e in
    subst (IsSettled form created) (sym r) h

-- Whatever the fields and the answer are: after `submit` of the form for a new network the page does
-- not wait, if it did not before. Either `onAdded` is called with the id of the answer, there is no
-- error, and the name, the host and the nick are more than white space; or an error is shown.
pub add_network-IsSettled :
    (form : Form) (created : Created) (page : Page)
    → page.busy ≡ false
    → IsSettled form created (add_network form created page)
add_network-IsSettled form created page h = elim (Bool-cases (is_empty (trim form.name))) [
  | inl e ↦
      by_refusal form created page (lit "Network name is required.") h (unfold submit in rw e)
        (unfold is_empty lit in refl)
  | inr e ↦ elim (Bool-cases (is_empty (trim form.host))) [
    | inl e' ↦
        by_refusal form created page (lit "Server host is required.") h
          (unfold submit in rw (e, e')) (unfold is_empty lit in refl)
    | inr e' ↦ elim (Bool-cases (is_empty (trim form.nick))) [
      | inl e'' ↦
          by_refusal form created page (lit "Nickname is required.") h
            (unfold submit in rw (e, e', e'')) (unfold is_empty lit in refl)
      | inr e'' ↦
          by_request form created page (unfold submit in rw (e, e', e''))
            (settle form created e e' e'')
    ]
  ]
]

-- A password that may be set: eight characters, and twice the same.
pub record IsChecked (password repeated : Text) : Type 0 where
  pub long : 8 ≤ length password
  pub same : password ≡ repeated

setup-IsChecked :
    (f : SetupForm) (r : NewAdmin)
    → setup f ≡ requests r
    → (r.password ≡ f.password) × IsChecked f.password f.password2
unfolding setup
setup-IsChecked f r h = ground (arith, text_eq_sound f.password f.password2)

short : (s : Text) → is_empty s ≡ true → length s < 8
unfolding is_empty
short [] h = omega arith
short (c ∷ s) h = cc

save_user-IsChecked :
    (f : UserForm) (r : UserBody)
    → save_user false f ≡ requests r
    → (r.password ≡ some f.password) × IsChecked f.password f.password2
unfolding save_user
save_user-IsChecked f r h = ground (arith, short f.password, text_eq_sound f.password f.password2)

change_password-IsChecked :
    (p : Passwords) (r : Change)
    → change_password p ≡ requests r
    → (r.new_password ≡ p.new) × IsChecked p.new p.repeated
unfolding change_password
change_password-IsChecked p r h = ground (arith, text_eq_sound p.new p.repeated)

-- Every new password that is sent, in the set-up, for a new account or by its owner, has eight
-- characters at least and was entered twice.
pub new_password-IsChecked :
    (f : SetupForm) (u : UserForm) (p : Passwords)
    → ((r : NewAdmin)
        → setup f ≡ requests r
        → (r.password ≡ f.password) × IsChecked f.password f.password2)
      × (((r : UserBody)
            → save_user false u ≡ requests r
            → (r.password ≡ some u.password) × IsChecked u.password u.password2)
          × ((r : Change)
              → change_password p ≡ requests r
              → (r.new_password ≡ p.new) × IsChecked p.new p.repeated))
new_password-IsChecked f u p =
    (setup-IsChecked f, (save_user-IsChecked u, change_password-IsChecked p))
