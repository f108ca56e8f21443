-- ===== src/History.antt =====
-- `loadChannelHistory` and `loadServerHistory` of frontend/app.jsx: what is asked of the server's
-- log, and what is done with the answer. `clock` stands for the built-in `Date`.
pub mod Loads
pub mod Tests
use korechat.Common.{
  ℕ, zero, suc, ◌-◌, ◌++◌, ◌∷◌, [], Text, lit, text_eq, starts_with, is_empty, Dict, lookup, put,
  set_has, set_add, set_delete, List, map, keep, Bool, true, false, not, ◌&&◌, ◌||◌, leb, ltb,
  Option, none, some, get_or_else, if◌then◌else◌, show_nat,
}
use korechat.Chat.{Clock, Message, Kind, message, system, prepend_msgs, status_chan, chan_key}
use korechat.Client.{
  Env, Refs, Out, Purpose, backfill, server_log, membership_log, dispatch, send_later, fetch_logs,
  set_loading, ensure_chan,
}

-- An entry of the log as the server sends it.
pub record Entry : Type 0 where
  pub id : Text
  pub type_ : Text
  pub nick : Text
  pub text : Text
  pub timestamp : Text

unfoldable pub is_channel : Text → Bool
is_channel chan = starts_with chan (lit "#") || starts_with chan (lit "&")

abbrev pub is_message : Kind → Bool
is_message message = true
is_message system = false

-- `Math.min(...times)` of the times that are positive; `none` is `null`.
unfoldable pub oldest_of : List ℕ → Option ℕ
oldest_of [] = none
oldest_of (zero ∷ ts) = oldest_of ts
oldest_of (suc t ∷ ts) = elim (oldest_of ts) [
  | none ↦ some (suc t)
  | some o ↦ some (if leb (suc t) o then suc t else o)
]

-- `toMsgLog`
unfoldable pub to_msg_log : Entry → Option Message
to_msg_log e =
    if text_eq e.type_ (lit "PRIVMSG") || text_eq e.type_ (lit "NOTICE")
    then some (record {
      kind = message;
      subtype = [];
      nick = some e.nick;
      text = e.text;
      time = e.timestamp;
      id = lit "log-" ++ e.id;
    })
    else none

unfoldable pub membership_types : List Text
membership_types = lit "JOIN" ∷ lit "PART" ∷ lit "QUIT" ∷ lit "KICK" ∷ lit "MODE" ∷ []

-- `toMembershipMsg`
unfoldable pub to_membership_msg : Entry → Option Message
unfolding membership_types
to_membership_msg e =
    if set_has e.type_ membership_types
    then some (record {
      kind = system;
      subtype = lit "membership";
      nick = some e.nick;
      text = e.text;
      time = e.timestamp;
      id = lit "log-" ++ e.id;
    })
    else none

-- `map(f).filter(Boolean)`
unfoldable pub convert : (Entry → Option Message) → List Entry → List Message
convert f [] = []
convert f (e ∷ es) = elim (f e) [ none ↦ convert f es | some m ↦ m ∷ convert f es ]

-- `if (force) delete; add`
abbrev mark : Text → Bool → List Text → List Text
mark key force loaded = set_add key (if force then set_delete key loaded else loaded)

module _ (clock : Clock) where
  -- `m.time ? new Date(m.time).getTime() : 0`
  abbrev time_of : Message → ℕ
  time_of m = if is_empty m.time then 0 else clock.millis m.time

  abbrev with_cutoff : Option ℕ → Dict Text → Dict Text
  with_cutoff none params = params
  with_cutoff (some o) params = put (lit "date_to_iso") (clock.iso o) params

  abbrev log_params : Text → ℕ → Dict Text
  log_params net_id limit =
      (lit "network_id", net_id) ∷ (lit "limit", show_nat limit) ∷ (lit "order", lit "desc") ∷ []

  -- The second request: membership events of the window that the messages cover, or of a day.
  unfoldable pub membership_request : Env → Text → Text → Option ℕ → Out
  membership_request env net_id chan oldest = fetch_logs membership_log net_id chan (
      (lit "network_id", net_id)
      ∷ (lit "membership_only", lit "true")
      ∷ (
        lit "since",
        clock.iso (elim oldest [ none ↦ clock.millis env.now - 86400000 | some o ↦ o - 1 ]),
      )
      ∷ (lit "order", lit "asc")
      ∷ (lit "limit", lit "500")
      ∷ (lit "channel", chan)
      ∷ [])

  unfoldable pub requests : Env → Refs → Text → Text → ℕ → List Out
  unfolding membership_request
  requests env refs net_id chan limit =
      let key = chan_key net_id chan in
      let existing = get_or_else (lookup key refs.messages) [] in
      let oldest = oldest_of (map time_of (keep (λ m. is_message m.kind) existing)) in
      set_loading key true
      ∷ fetch_logs backfill net_id chan (
          with_cutoff oldest (
            put (if is_channel chan then lit "channel" else lit "nick") chan
              (log_params net_id limit)))
      ∷ (if is_channel chan then membership_request env net_id chan oldest ∷ [] else [])

  -- The status window is left to `loadServerHistory`.
  unfoldable pub load_channel_history : Env → Refs → Text → Text → ℕ → Bool → Refs × List Out
  unfolding requests
  load_channel_history env refs net_id chan limit force =
      let key = chan_key net_id chan in
      if not force && set_has key refs.loaded_history then (refs, []) else (
        record refs { loaded_history = mark key force refs.loaded_history },
        if not (is_channel chan) && text_eq chan status_chan
            then []
            else requests env refs net_id chan limit,
      )

  abbrev gap_fill : Refs → Text → Text → Text → List Out
  gap_fill refs net_id chan newest =
      if is_channel chan && (not (is_empty newest) && set_has net_id refs.ready)
      then send_later 200 net_id
          (lit "CHATHISTORY LATEST " ++ (chan ++ (lit " timestamp=" ++ (newest ++ lit " 100"))))
        ∷ []
      else []

  -- The answer to the first request; an answer that is not `ok` has no entries.
  unfoldable pub on_backfill : Refs → Text → Text → List Entry → List Out
  on_backfill refs net_id chan [] = set_loading (chan_key net_id chan) false ∷ []
  on_backfill refs net_id chan (e ∷ es) =
      set_loading (chan_key net_id chan) false
      ∷ (ensure_chan refs net_id chan
          ++ (dispatch (prepend_msgs net_id chan (convert to_msg_log (e ∷ es)))
              ∷ gap_fill refs net_id chan e.timestamp))

  -- The answer to the second request.
  unfoldable pub on_membership : Text → Text → List Entry → List Out
  on_membership net_id chan es = elim (convert to_membership_msg es) [
    | [] ↦ []
    | m ∷ ms ↦ dispatch (prepend_msgs net_id chan (m ∷ ms)) ∷ []
  ]

  unfoldable pub server_key : Text → Text
  server_key net_id = chan_key net_id (status_chan ++ lit "::server")

  unfoldable pub load_server_log : Refs → Text → ℕ → Bool → Refs × List Out
  unfolding server_key
  load_server_log refs net_id limit force =
      let existing = get_or_else (lookup (chan_key net_id status_chan) refs.messages) [] in
      if not force && set_has (server_key net_id) refs.loaded_history then (refs, []) else (
        record refs { loaded_history = mark (server_key net_id) force refs.loaded_history },
        fetch_logs server_log net_id status_chan (
              with_cutoff (oldest_of (map time_of existing)) (
                (lit "network_id", net_id)
                ∷ (lit "server_only", lit "true")
                ∷ (lit "limit", show_nat limit)
                ∷ (lit "order", lit "desc")
                ∷ []))
            ∷ [],
      )

  abbrev server_message : Entry → Message
  server_message e = record {
    kind = message;
    subtype = [];
    nick = some e.nick;
    text = e.text;
    time = e.timestamp;
    id = lit "log-" ++ e.id;
  }

  unfoldable pub on_server_log : Refs → Text → List Entry → List Out
  on_server_log refs net_id [] = []
  on_server_log refs net_id (e ∷ es) =
      ensure_chan refs net_id status_chan
      ++ dispatch (prepend_msgs net_id status_chan (map server_message (e ∷ es))) ∷ []
