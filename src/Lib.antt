-- ===== src/Lib.antt =====
-- KoreChat's web client: the state of the chat, the lines of IRC that it reads and writes, and the
-- connection that carries them, in frontend/app.jsx; the lines that the client parses are written by
-- pkg/ircv3/message.go, whose `Format` is modelled beside the parser. Beside it stand the older client,
-- KoreChat.jsx, and the service worker, frontend/sw.js.
--
-- The parts, and how they meet:
--   Common       Texts as lists of UTF-16 code units, objects and sets of JavaScript as lists,
--                the string and array functions that the source uses, and stable sorting.
--   Chat         `INIT` and `reducer`. State is the state of the store, Action its actions, and each
--                case of the `switch` is one function: Chat.Networks, Chat.Channels, Chat.Messages;
--                Chat.Reducer.reducer puts them together. Chat.Keys is `CHAN_KEY` and `split("::")`.
--                Chat.Roster is the abstract view of it: who is in which channel.
--   Irc          `parseIRC` and `nickOf`; Irc.Format is `Format` and `escapeTagValue`.
--   Socket       `openWS`: one handle that reconnects by itself. What the browser or the owner does
--                is an Event; `step` gives the next handle and the effects in order.
--   Client       `addSys`, `ensureChan`, and the refs that the handlers read and write.
--   Line         `handleLine`: one function for each case of its `switch`, in Line.Members, Names,
--                Modes, Replies, Control and Privmsg; Line.Handle.handle_line is the `switch`. It
--                takes the refs and a raw line, and gives the new refs and the effects in order,
--                among them the actions that are dispatched to `reducer`.
--   Command      `handleSend`: the slash commands, in the same way; Command.Menu is `UserMenuPopup`, the
--                menu of a member, whose rows hand their commands to `handleSend`.
--   History      `loadChannelHistory`, `loadServerHistory`, and what is done with the answers.
--   Connections  `connectNetwork`, `reconnectNetwork`, `disconnectNetwork`, and the callbacks that
--                tie a handle to `handleLine`; Connections.Watchdog is the watchdog, and
--                Connections.Managed the first load, and what follows the forms of a network.
--   Input        `InputBar`: the history and the suggestions of the input line; Input.Uploads is the
--                upload of photos and code, whose links go through `handleSend`.
--   Sidebar      `toggleStar`, `toggleMute`, `toggleDefault`, and the list of `QuickSwitcherModal`;
--                Sidebar.Order is the saved order of the networks and the drop of one on another,
--                Sidebar.Sections what the sections of a network show. Sidebar.Sorts sorts the channels,
--                Sidebar.Manual is the order that the user makes; Sidebar.Cursor is the cursor of the
--                switcher, Sidebar.Windows `goTo` and the rows of the menus, Sidebar.Savers the effects
--                that save the choices to the profile after a while.
--   Screen       What is shown of the state: `activeMsgs`, the groups of the member list, the
--                summaries of membership messages, `nickColor`; Screen.Codes is the removal of control
--                codes in `renderText`, Screen.Pieces the rest of it: links, pictures, snippets and
--                mentions. Screen.Rows are the rows of the message list, Screen.Avatars is `useAvatar`,
--                and Screen.Scroll the scroll position and its badge.
--   Forms        What the fields of the forms are read as, and the page around a request; Forms.Networks
--                is `AddNetworkModal` and `NetworkSettingsModal`, Forms.Accounts the forms for accounts.
--   Root         `App`: which view is shown to whom, and the theme.
--   Logs         The log browser: filters, searches and pages.
--   Worker       The listeners of frontend/sw.js.
--   Legacy       KoreChat.jsx: `parseIRCMessage` (Legacy.Parser), `reducer` (Legacy.Cases, Reducer),
--                the buffer of a replay (Legacy.Replay), `handleLine` (Legacy.Events, Privmsg, Handle),
--                `handleSend` (Legacy.Send), `createIRCConnection` and `connectNetwork`
--                (Legacy.Connection), `InputBar` (Legacy.Input) and `renderText` (Legacy.Marks). A case of `handleLine` is a list
--                of steps on the buffers, each of which gives the actions that it dispatches.
--
-- Fuel: the loops over the parameters in `parseIRC` and `parseIRCMessage` and over the matches in
-- both versions of `renderText` have one unit for each character that is left, and each turn takes at
-- least one character; the loop over the rows has one for each item, and each turn takes at least one.
--
-- What stands for code that is not here: the built-in `Date` is the record Clock, for texts that are
-- valid times. The time of the call, the random ids and the settings of the browser are the record
-- Env. The built-in `sort` with a comparison of names and the parser of URLs are parameters of
-- Sidebar.Sections and Worker; so are `localeCompare` in Sidebar.Sorts, `toLocaleDateString` in
-- Screen.Rows, `new URL` in Screen.Pieces, and the conversion of pictures and the answers of the server
-- in Input.Uploads and Forms. A network id is a text, and where its form matters the theorem says so.
--
-- Simplifications: an absent text field is "", since the code only tests whether it is truthy; an
-- object has its own properties only, and its keys stand in the order in which they were added;
-- upper and lower case are those of ASCII; `handleSend` is run with a network selected. A number that a
-- form reads is an exact integer below 2^53 in absolute value; the double that the built-in gives beyond
-- is a value of its own, and what it is written as is a parameter (Forms.show_number). A PATCH that
-- saves a choice of the sidebar is an effect, and whether the server takes it has no part in the model.
--
-- Not modelled: effects are values, and what the browser does with them is left out, as are the React
-- elements and styles, the palettes, the browsers of snippets and photos, the second factor, the pages
-- of the administration but for the form of a user, and the calls of `fetch`. Of the backend, in Go,
-- only `Format` is modelled.
pub mod Common
pub mod Chat
pub mod Irc
pub mod Socket
pub mod Client
pub mod Legacy
pub mod Line
pub mod Command
pub mod Forms
pub mod History
pub mod Sidebar
pub mod Logs
pub mod Root
pub mod Screen
pub mod Worker
pub mod Connections
pub mod Input
