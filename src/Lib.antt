-- ===== src/Lib.antt =====
-- AltKeeper keeps the apps that were side-loaded on an iPhone from expiring: it renews their
-- provisioning profiles, by itself, from a web page, or as the AltServer that the app AltStore on the
-- phone looks for.
--
-- The program is one Rust crate. `src/main.rs` reads the arguments and starts the parts. The
-- AltServer (`src/altserver.rs`) answers AltStore's requests over TCP and acts on the phone
-- (`src/phone.rs`); it decodes the profiles with the web page's base64 reader and reads them with
-- `src/profile.rs`. The DNS responder (`src/dnssd.rs`) lets AltStore find that server without
-- multicast. The web page (`src/web.rs`) shows the apps and starts renewals behind a PIN. Apple's
-- services are reached through `src/apple.rs` and the crate isideload.
--
-- Base holds what the parts share: bytes and text (`Str` is the list of the bytes of a string in
-- UTF-8), lists measured by native numbers, `Outcome` (a value, a `None` or `Err` passed up by `?`, a
-- panic, or a loop of the model without fuel) and the laws of the bit operations. The components:
-- * Dnssd models `src/dnssd.rs`. Dnssd.Name is `read_name` and `write_name`, Dnssd.Zone is `Zone`
--   with `new`, `answer` and `covers_reverse`, Dnssd.Message is `parse_query`, `build_reply`,
--   `write_record`, `handle` and the loop of `start`, Dnssd.Listen `start` itself. `read_name` refuses
--   a 33rd label, so 34 rounds of its loop are enough, for any datagram.
-- * Altserver models `src/altserver.rs`. Altserver.Frame is `read_frame` and `write_frame` on a stream
--   of bytes with what ends it; Altserver.Handlers the handlers of the requests and the cache of
--   anisette data; Altserver.Connection `receive_and_install` and `handle_connection`, whose loop has
--   one round of fuel more than the bytes that arrive, since a frame takes at least five.
--   Altserver.Session says what a client sees of a connection: messages, each performed in turn, with
--   the stream and the loop left out. Altserver.Identity is `server_id` and `hostname`,
--   Altserver.Startup `start`, `register_bonjour` and `stop`, with `mdns` of `src/phone.rs`, and
--   Altserver.Link `phone_link`.
--   Altserver.Services is the interface to other code: `serde_json`, the socket, the phone
--   (`connect_auto` of `src/phone.rs` and the services behind it) and `anisette_for_altstore` of
--   `src/apple.rs`, each call a function from a state of the world to the next. An error or a timeout
--   of the stream is taken to last. A handler that panics leaves no world: what it did
--   before that is not followed.
-- * Profile models `src/profile.rs`. Profile.Parse is `parse`, over an interface to the crate plist;
--   Profile.Latest is `latest_by_bundle` and `days_left`.
-- * Phone models `src/phone.rs`. Phone.Discover is `discover`, `subnet_hosts` and `scan_lan`,
--   Phone.Address the file of the last address, Phone.Connect `connect_auto`, whose loop runs three
--   rounds. The network is an interface: what Bonjour resolves, which addresses accept a connection
--   and what an attempt comes to. Phone.Link is `connect` and `ask_pin`, whose loop has 120 rounds,
--   and Phone.Usb `pair_usb`, over interfaces to the crate idevice.
-- * Apple models `src/apple.rs`. Apple.Account is the account file and `anisette_url`, Apple.Session
--   `open_session`, Apple.Team `pick_team`, and Apple.Code the `TfaChannel` by which the handlers
--   `login_code` and `login_resend` of `src/web.rs` answer a login; Apple.Clock is `iso8601_utc`, whose
--   numbers of 64 bits have at most the 20 digits that are written. Apple.Anisette is
--   `anisette_for_altstore`. The crate isideload is an interface.
-- * Commands models `src/main.rs`. Commands.Renew is `cmd_renew`, Commands.Profiles
--   `cmd_profile_remove` and `cmd_profile_restore`, Commands.Phone `open_phone` and `phone_profiles`,
--   Commands.Arguments the parsers of arguments, `start_dnssd`, and `var` of `src/env.rs`,
--   Commands.Account `cmd_phone`, `cmd_login` and `cmd_apps`, and Commands.Main `main`, from the
--   arguments on, with the commands `serve` and `altserver`. A command is
--   an `Action` of Base.Action: a function from the world to what the call ends with and the world
--   after it.
-- * Web models `src/web.rs`. Web.Access is `guard`, `host_is_local`,
--   `basic_password_ok` and `check_options`, Web.Compare `ct_eq`, Web.Base64 `b64_decode`.
--   Web.Jobs is the flag `busy`, the log of a job, and the handlers `check`, `renew`, `login` and the
--   refresh in `state`; Web.Jobs.Reach is the system that they and the threads of `spawn_job` make.
--   Web.Work is the bodies `run_check`, `run_renew` and `run_login`, Web.State the handler `state`,
--   Web.Server `serve` and its routes, Web.Views is `app_views`, Web.Texts the messages made of errors,
--   Web.History `parse_history` and `append_log`.
-- A `u8`, `u16` or `u32` is a number with the wrap-around of its casts written out; an index or a
-- slice that Rust would refuse is `panic`.
--
-- Not modelled: waiting, the bytes of JSON, threads and the mutex on the phone (a handler runs
-- without interruption; the thread that accepts connections is a call), the set-up of the libraries
-- at the start of `main`, the page itself, and what the crates axum, mdns_sd, idevice, plist,
-- serde_json and isideload do, the last of which is vendored in `vendor/isideload`: each is an
-- interface that the models take as a parameter. The table of lower case letters of
-- the standard library and the text of a date are parameters.
pub mod Apple
pub mod Base
pub mod Commands
pub mod Altserver
pub mod Dnssd
pub mod Phone
pub mod Profile
pub mod Web
