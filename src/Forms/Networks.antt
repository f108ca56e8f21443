-- ===== src/Forms/Networks.antt =====
-- `NetworkSettingsModal` and `AddNetworkModal` of frontend/app.jsx.
use korechat.Common.{
  ℤ, pos, ℕ, zero, suc, ◌-◌, ◌++◌, ◌∷◌, [], Text, lit, text_eq, is_empty, or_text, trim, join, take,
  drop, List, length, ltb, Bool, true, false, not, Option, none, some, if◌then◌else◌,
}
use korechat.Forms.{
  Number, parse_int, show_int, show_number, port_or, channels_of, Submitted, refused, requests,
  Page, submitted,
}

-- The properties of a network that the forms send, and of the network that the settings show.
pub record Network : Type 0 where
  pub name : Text
  pub host : Text
  pub port : Number
  pub tls : Bool
  pub nick : Text
  pub alt_nick : Text
  pub username : Text
  pub realname : Text
  pub password : Text
  pub auto_join : List Text
  pub on_connect : List Text
  pub sasl_mechanism : Text
  pub sasl_username : Text
  pub sasl_password : Text

-- `form`; the form for a new network has no commands, and sends none.
pub record Form : Type 0 where
  pub name : Text
  pub host : Text
  pub port : Text
  pub tls : Bool
  pub nick : Text
  pub alt_nick : Text
  pub username : Text
  pub realname : Text
  pub password : Text
  pub auto_join : Text
  pub on_connect : List Text
  pub sasl_mechanism : Text
  pub sasl_username : Text
  pub sasl_password : Text

-- The initial form of the settings; `write` is `String` on numbers that are not safe integers.
unfoldable pub opened : (ℤ → Text) → Network → Form
opened write net = record {
  name = net.name;
  host = net.host;
  port = show_number write (port_or (some net.port));
  tls = net.tls;
  nick = net.nick;
  alt_nick = net.alt_nick;
  username = net.username;
  realname = net.realname;
  password = net.password;
  auto_join = join (lit ", ") net.auto_join;
  on_connect = net.on_connect;
  sasl_mechanism = net.sasl_mechanism;
  sasl_username = net.sasl_username;
  sasl_password = net.sasl_password;
}

-- The body of the request, of either form.
unfoldable pub body : Form → Network
unfolding parse_int channels_of
body form = record {
  name = trim form.name;
  host = trim form.host;
  port = port_or (parse_int form.port);
  tls = form.tls;
  nick = trim form.nick;
  alt_nick = or_text (trim form.alt_nick) (trim form.nick ++ lit "_");
  username = or_text (trim form.username) (trim form.nick);
  realname = or_text (trim form.realname) (trim form.nick);
  password = form.password;
  auto_join = channels_of form.auto_join;
  on_connect = form.on_connect;
  sasl_mechanism = form.sasl_mechanism;
  sasl_username = trim form.sasl_username;
  sasl_password = form.sasl_password;
}

-- The button of TLS.
unfoldable pub toggle_tls : Form → Form
toggle_tls f = record f {
  tls = not f.tls;
  port =
      if not f.tls then lit "6697" else if text_eq f.port (lit "6697") then lit "6667" else f.port;
}

-- `BLANK`
unfoldable pub blank : Form
blank = record {
  name = [];
  host = [];
  port = lit "6667";
  tls = false;
  nick = [];
  alt_nick = [];
  username = [];
  realname = [];
  password = [];
  auto_join = [];
  on_connect = [];
  sasl_mechanism = [];
  sasl_username = [];
  sasl_password = [];
}

pub record Preset : Type 0 where
  pub label : Text
  pub host : Text
  pub port : ℕ
  pub tls : Bool

-- `PRESETS`
unfoldable pub presets : List Preset
presets =
    record { label = lit "Ameth"; host = lit "irc.ameth.org"; port = 6697; tls = true }
    ∷ record { label = lit "Libera.Chat"; host = lit "irc.libera.chat"; port = 6697; tls = true }
    ∷ record { label = lit "OFTC"; host = lit "irc.oftc.net"; port = 6697; tls = true }
    ∷ record { label = lit "EFnet"; host = lit "irc.efnet.org"; port = 6667; tls = false }
    ∷ record { label = lit "Undernet"; host = lit "irc.undernet.org"; port = 6667; tls = false }
    ∷ record { label = lit "DALnet"; host = lit "irc.dal.net"; port = 6697; tls = true }
    ∷ record { label = lit "QuakeNet"; host = lit "irc.quakenet.org"; port = 6667; tls = false }
    ∷ record { label = lit "Custom"; host = []; port = 6667; tls = false }
    ∷ []

-- `applyPreset`
unfoldable pub apply_preset : Preset → Form → Form
apply_preset p f = record f {
  name = or_text f.name (if text_eq p.label (lit "Custom") then [] else p.label);
  host = p.host;
  port = show_int (pos p.port);
  tls = p.tls;
}

-- `submit` of the form for a new network, up to the request.
unfoldable pub submit : Form → Submitted Network
unfolding body
submit form =
    if is_empty (trim form.name)
    then refused (lit "Network name is required.")
    else if is_empty (trim form.host)
    then refused (lit "Server host is required.")
    else if is_empty (trim form.nick)
    then refused (lit "Nickname is required.")
    else requests (body form)

-- The answer to it: `error` and `id` of the object, or `null`.
pub data Created : Type 0 where
  result : Text → Text → Created
  null : Created
  fails : Text → Created

-- What comes after the request; `some` is the call of `onAdded`, with the id of the new network.
unfoldable pub on_created : Created → Page → Page × Option Text
on_created (result [] []) page = (
  record page { busy = false; err = lit "Unexpected response from server. Check backend logs." },
  none,
)
on_created (result [] (c ∷ id)) page = (record page { busy = false }, some (c ∷ id))
on_created (result (c ∷ e) id) page = (record page { busy = false; err = c ∷ e }, none)
on_created null page = (
  record page { busy = false; err = lit "Unexpected response from server. Check backend logs." },
  none,
)
on_created (fails message) page =
    (record page { busy = false; err = lit "Could not reach server: " ++ message }, none)

-- The commands of the settings. `onClick` of "×", of "↑" and of "↓" at a place, and the button "Add".
unfoldable pub remove_command : ℕ → List Text → List Text
remove_command i cs = take i cs ++ drop (suc i) cs

abbrev swapped : List Text → List Text
swapped (a ∷ b ∷ cs) = b ∷ a ∷ cs
swapped cs = cs

-- `[a[i], a[i+1]] = [a[i+1], a[i]]`, if both are there.
unfoldable pub swap_at : ℕ → List Text → List Text
swap_at i cs = take i cs ++ swapped (drop i cs)

unfoldable pub command_up : ℕ → List Text → List Text
unfolding swap_at
command_up zero cs = cs
command_up (suc i) cs = swap_at i cs

unfoldable pub command_down : ℕ → List Text → List Text
unfolding swap_at
command_down i cs = if ltb i (length cs - 1) then swap_at i cs else cs

unfoldable pub add_command : Text → List Text → List Text
add_command cmd cs = if is_empty (trim cmd) then cs else cs ++ trim cmd ∷ []

-- What follows the check of the fields.
unfoldable pub awaited : Submitted Network → Created → Page → Page × Option Text
unfolding submitted on_created
awaited (refused e) created page = (submitted {R = Network} (refused e) page, none)
awaited (requests r) created page = on_created created (submitted (requests r) page)

-- The whole of `submit`, with the answer that its request would get.
unfoldable pub add_network : Form → Created → Page → Page × Option Text
unfolding submit
add_network form created page = awaited (submit form) created page
