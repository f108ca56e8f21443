-- ===== src/Sidebar/Marks.antt =====
-- What the marks of channels are after a toggle (frontend/app.jsx).
use korechat.Common.{
  ◌++◌, ◌∷◌, [], ◌≡◌, Text, text_eq, text_eq_iff, text_eq_refl, Dict, lookup, lookup-put,
  lookup-remove, set_has, set_delete, set_has-append, set_has-set_delete, List, true, false, not,
  ◌&&◌, get_or_else, if◌then◌else◌, Bool-cases, inl, inr, arith,
}
use korechat.Sidebar.{toggle, is_marked, toggle_default, is_default, same}

toggled :
    (name other : Text) (cur : List Text)
    → set_has other (if set_has name cur then set_delete name cur else cur ++ name ∷ [])
      ≡ (if text_eq name other then not (set_has name cur) else set_has other cur)
toggled name other cur = ground (
  arith,
  set_has-set_delete other name cur,
  set_has-append other name cur,
  text_eq_iff name other,
)

-- A toggle turns the mark of its channel over, and changes the mark of no other channel, in this
-- network or another.
pub is_marked-toggle :
    (net_id name other_net other : Text) (marks : Dict (List Text))
    → is_marked other_net other (toggle net_id name marks) ≡ (
        if text_eq net_id other_net && text_eq name other
        then not (is_marked net_id name marks)
        else is_marked other_net other marks)
unfolding is_marked toggle
is_marked-toggle net_id name other_net other marks = elim (Bool-cases (text_eq net_id other_net)) [
  | inl e ↦
      rw (lookup-put, e, toggled name other (get_or_else (lookup net_id marks) []))
        (ground (arith, text_eq_iff net_id other_net))
  | inr e ↦ rw (lookup-put, e)
]

-- After a toggle of a channel as its network's default, no other channel of the network is the
-- default, and the channel itself is exactly if it was not before.
pub is_default-toggle_default :
    (net_id chan other : Text) (defaults : Dict Text)
    → is_default net_id other (toggle_default net_id chan defaults)
      ≡ (text_eq chan other && not (is_default net_id chan defaults))
unfolding is_default toggle_default
is_default-toggle_default net_id chan other defaults =
    elim (Bool-cases (is_default net_id chan defaults)) [
      | inl e ↦
          let e' : same (lookup net_id defaults) chan ≡ true = e in
          rw (e', lookup-remove, text_eq_refl net_id) (ground arith)
      | inr e ↦
          let e' : same (lookup net_id defaults) chan ≡ false = e in
          rw (e', lookup-put, text_eq_refl net_id) (ground arith)
    ]
