-- ===== src/Lib.antt =====
-- Verification of the web client of finance_next (client/ of the repository; the gateway and the
-- quant worker are other programs, in other languages).
--
-- Base holds what the modules share: tests, lists over the native numbers, and JavaScript's Set
-- and Map as lists in insertion order. Json is the type of parsed values.
--
-- Hub models class HubClient of client/data/ws-client.ts. Hub/State.antt has its fields with the
-- sockets and the timers that it drives; Hub/Operations.antt has connect (and the handlers that it
-- installs: on_open, on_close, which is `reconnect`, on_error, and on_timer for the callback of
-- setTimeout), send, subscribe, the closure that subscribe returns (unsubscribe) and shutdown;
-- Hub/Messages.antt has the "message" handler. Sockets are named by their place in the list of all
-- that were made. Hub/Steps.antt has the runs: calls of the users and events of the browser in any
-- order that the browser allows. The proofs are in Registry (the three registries), Transport and
-- Synced (what the gateway knows over a socket), Unsent, Backoff, Delivery and Leaks.
--
-- Streams models the listeners of useAccountStream, useBacktestStream, useStrategyStream and
-- useOptimizationStream in the same source file. The numbers of payloads are a type parameter.
--
-- Activity models client/data/use-activity-center.tsx: the provider's state together with the two
-- entries of localStorage, its operations and withActivity. JSON.stringify and JSON.parse, the
-- clock and the random part of ids are arguments; Activity/Storage.antt names what is assumed of
-- JSON (IsJson). Sequences of operations are lists, Activity/Ring.antt.
--
-- Recent models client/data/use-recent-resources.ts: the filter on what is read back, the list that
-- pushRecent writes, and the mounted hooks of a tab, with what other tabs write. Recent/Mru.antt has
-- the reference for the list (the latest visits), Recent/Views.antt the runs.
--
-- Auth models client/data/auth-redirect.mjs and client/middleware.ts. The platform's URL and
-- URLSearchParams are a record of functions (Platform), and Auth/Safety.antt names what is assumed of
-- them (IsPlatform). Auth/Return.antt follows a visitor to the login page and back,
-- Auth/Circles.antt follows redirects until a page loads.
--
-- Api models the calls to the gateway: apiFetch, jsonOrThrow and the errors of
-- client/data/api-client.ts, apiUrl of client/data/api-base.mjs on a given base URL, and in
-- Api/Auth.antt all calls of client/data/auth-client.ts; Api/Session.antt has getMeServer of
-- client/data/auth-server.ts. The host (Host) holds what the code finds
-- around it: the browser, localStorage, cookies, JSON.parse and the gateway, whose answer to a request
-- is an argument. Api/Headers.antt is about what is sent, Api/Answers.antt about how the calls of
-- auth-client.ts end.
--
-- Api/Calls.antt and its children have every endpoint function of client/data/api-client.ts, as the
-- request that it makes and the way it ends; Api/Gateway.antt has the routes that the gateway registers
-- (gateway/internal/http), Api/Gateway/Table.antt the calls beside the handlers that they are meant for,
-- and Api/Gateway/Contract.antt compares the two. Api/Unchecked.antt is about getOptions.
--
-- Palette models client/components/command-palette.tsx: the search, the groups (Palette/Groups.antt)
-- and the inputs that move and run the active entry (Palette/Keys.antt), over a fixed list of items.
-- toLowerCase is an argument. Palette/Catalogue.antt has the entries, client/data/use-palette-items.ts
-- and client/components/command-palette/items.ts.
--
-- Preset models the parameters that the AI goal hands to a strategy's form, in
-- client/data/ai-goal-preset.mjs: parseStrategyPreset and what it is made of in Preset.antt,
-- strategyPresetFromDraft and backtestRequestFromDraft in Preset/Draft.antt. Numbers has JavaScript's
-- finite numbers as a record of functions, with the laws that the proofs use (IsOrdered).
-- Validation models the ranking of backtests and the choice of the candidate for paper in the same
-- source file (rankBacktestValidation and validationRunsNeedPolling; paperCandidateFromValidation in
-- Validation/Pick.antt).
--
-- Decision models nextAIGoalDecision of that file, with what it reads of the stored actions and of
-- the sentiment compass in Decision/Evidence.antt and Decision/Compass.antt; the texts of a decision are not modelled.
-- Decision/Transition.antt models manualActionTransition, and Decision/Completion.antt names what is
-- assumed of toLowerCase (KeepsWords).
--
-- Goal models the form of an AI goal and the request that is made of it, in client/data/
-- ai-goal-preset.mjs: the cleaning of lists and texts (Goal/Texts.antt), the goal that is filled in,
-- and the forms of a stored run, of a template and of the daily radar.
--
-- Money models client/app/(dashboard)/ai-money/client.tsx. Money/State.antt has the state of the page
-- and its programs: a handler is a function on the page that gives a value or throws, with try and
-- finally as functions on such programs, and the gateway answers a request by the requests before it.
-- Money/Scans/Parts.antt, Money/Scans.antt and Money/Actions.antt have the handlers; Money/Provider.antt,
-- Money/Plan.antt, Money/Handoff.antt and Money/Preview.antt what they take from
-- client/data/ai-goal-preset.mjs. Money/Logic.antt has the rules for what programs keep and for programs
-- that return; Sound, Kept, Resting and Acting apply them to the handlers, Commands and Returned to
-- sequences of commands. A handler runs alone, from its start to its end; the effects that load and poll
-- are not modelled, so that a run starts from a page that is loaded. Money/Auto.antt has the two effects
-- that start a scan by themselves, over what each rendering sees.
--
-- No fuel is used: every loop of the modelled code runs over a list or a text.
--
-- Not modelled: rendering and React's scheduling (a state update is taken to happen when it is
-- called), the network, exceptions of localStorage on a read, and a WebSocket constructor that
-- throws. A listener does not call back into the hub, since those of the program only set state.
-- Where a text is printed from a value that the client's types require, the value is taken to be there.
mod Base
pub mod Json
pub mod Numbers
pub mod Preset
pub mod Validation
pub mod Decision
pub mod Goal
pub mod Money
pub mod Hub
pub mod Streams
pub mod Activity
pub mod Recent
pub mod Auth
pub mod Api
pub mod Palette
mod Tests
