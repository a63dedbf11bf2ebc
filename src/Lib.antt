-- ===== src/Lib.antt =====
-- Verification of stmp2log, an SMTP server that receives alert mail, sorts it into groups, keeps it and
-- passes it on to notification channels or to another instance.
--
-- The parts. A client talks to a session (crates/s2l-smtp), which hands accepted mail to the pipeline
-- (crates/stmp2log/src/pipeline.rs). The pipeline asks the matchers (crates/s2l-store/src/match_.rs)
-- through the access list, the groups and the rules (crates/stmp2log/src/state.rs) what to do with a
-- mail, delivers notifications (crates/s2l-notify) and puts those that fail into the retry queue
-- (crates/stmp2log/src/retry.rs). The web interface lets in who proves the password
-- (crates/s2l-web/src/auth.rs).
--
-- Prelude and its children are the shared types and lemmas: lists, texts as lists of code points or
-- bytes, integers, and maps with texts as keys.
--
-- Smtp models crates/s2l-smtp. `Smtp.Config`, `AuthPolicy`, `Creds` and `Delivered` are the types of
-- lib.rs and session.rs, `credentials_ok` and `offer_starttls` the functions of these names. `Smtp.Line`
-- has the functions on lines, `Smtp.Io` the state of a session with the actions that a handler is
-- made of, `Smtp.Message` is `read_data`, `Smtp.Auth` is `handle_auth`, and `Smtp.Session` has one
-- function per command of `run` and its loop. The input is a list of reads, each of them a line, a
-- timeout or a failure. The loop runs on fuel: the number of reads and two. `Smtp.Moves` is a step
-- relation that says what a session may do, with `Carried` and `Offered` for the credentials that are
-- in what the client sends, and its children prove that the handlers keep to it;
-- `Smtp.Safe` draws the conclusions for the mail that is handed over. Base64, the lossy reading of
-- UTF-8, the clock and the channel to the pipeline are fields of `Env`. The trace and the limits on line
-- buffers outside of AUTH and the command line are left out, as is TLS.
--
-- Store models crates/s2l-store. `Store.Glob` is `glob` of match_.rs, with `Store.Glob.Reference` the
-- meaning of a pattern, and `Store.Matcher` has the conditions and the matchers. `glob` runs on fuel
-- that covers every pair of positions in the text and in the pattern. `str::to_lowercase` is a
-- parameter. `Store.Query` has the conditions of a search, from query.rs, `Store.Record` the records of
-- the log, from rec.rs, and Mail the parsed mail they are made from. `Store.Segments` is seg.rs: a
-- segment is a list of meta lines and two lists of bytes, an operation gives the segments after it, and
-- `none` where `ensure_open` does not return; it calls itself once at most where it returns, so its
-- fuel is two calls. `Store.Log` is the store of lib.rs: `Inner` is its state, and
-- `Store.Log.Search` and `Store.Log.Stats` have what only reads it. A step relation (`Store.Log.Steps`)
-- and its runs (`Store.Log.History`) say what any operations keep, `Later` of
-- Store/Segments/ReadBack.antt what may happen to the files between a write and a read.
-- The lock makes the operations follow one another. JSON, base64 and the clock are parameters. The
-- file system does what it is asked: errors of it, and what a crash leaves, are not modelled, nor are
-- bounds on the sizes of files.
--
-- Notify has the channels of crates/s2l-notify/src/providers.rs, and Notify.Deliver the loop of `deliver`
-- in lib.rs over the attempts of a delivery, where what one attempt does is a parameter. Push models
-- crates/stmp2log/src/push.rs; the cipher, JSON and the HTTP client are fields of `Push.Calls`, and
-- `open` is `open_sealed`. Retry models crates/stmp2log/src/retry.rs, one function per method; a wake-up is
-- an entry in a list. State models crates/stmp2log/src/state.rs but for its file. Pipeline models the
-- notifications and the forwarding in crates/stmp2log/src/pipeline.rs, Pipeline.Intake the way of a mail
-- into the store (`ingest_from`, `accept_push` and the loop `run`), where an error of the store is an
-- argument and `parse_with` a parameter, and Pipeline.Resend the passes over the queue; the
-- deliveries, the clocks and the settings are fields of `World`, and a pass has the length of the queue
-- and one as its fuel. Each of its calls runs alone; what other tasks push during a pass, while the
-- queue is unlocked, is not modelled. `State.Listed` says what the access list lets in.
--
-- Web.Auth models crates/s2l-web/src/auth.rs, one function per method; every call is given the readings
-- of its clock. SHA-256 is a parameter and what the random source returns an argument.
--
-- Mail has the types of what crates/s2l-mail/src/lib.rs finds in a mail, and Mail.Qp models qp.rs, where each
-- turn of the loop reads a byte at least, so the length of the text is enough fuel. Mail.Date
-- is `days_from_civil` of date.rs.
--
-- Not modelled: the rest of the parser of mail (crates/s2l-mail), the clients for HTTP and SMTP,
-- the web server, the configuration, the API and the start-up of the program.
pub mod Prelude
pub mod Mail
pub mod Notify
pub mod Push
pub mod Retry
pub mod Smtp
pub mod Store
pub mod Web
pub mod State
pub mod Pipeline
mod Tests
