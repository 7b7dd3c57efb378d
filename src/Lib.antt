-- ===== src/Lib.antt =====
-- The parts of rstream-go that decide: which transport a tunnel uses, which tunnels run, how an upload
-- becomes durable, when a conditional request is answered, and how layers of configuration combine.
--
-- Base passes the libraries' names on and holds the Boolean tests on native numbers, lists measured by
-- native numbers, texts (lists of code points), `strings.TrimSpace`, dictionaries and numbered slots.
--
-- Filesystem/Preconditions models filesystem/preconditions.go: `match_revision` is `matchRevision`, with its
-- loop on fuel (the length of the text, each round drops a byte), and `check_revision_conditions` is
-- `checkRevisionConditions`, whose `loadRevision` is a parameter and whose result counts its calls.
-- Grammar states what a list of entity tags is, and Loop that the loop computes it.
--
-- Filesystem/Upload models filesystem/receipts.go (`complete_receipt`, `recover_receipt`) and
-- filesystem/atomic_upload.go (`validate`, `close` for `atomicUpload.Close`). The exported tree and the
-- receipt journal are maps; every call of the operating system is a `Site`, and a function `fails` says
-- which of them fail. Each operation returns the states of the disk that it passes, so a crash is the choice
-- of one of them. Stream defines `Read`, `Write` and
-- `validUploadID`. Stages says which states `Close` can leave, Recover what recovery makes of each.
-- Not modelled there: the loss of writes that were not yet synchronised, and two uploads at once, which
-- the lock of the name space excludes.
--
-- Run models the reconciler of the command: Run/Model is cmd/rstream/internal/runmodel/types.go
-- (`equal_desired`), Run/Reconciler is cmd/rstream/internal/reconciler/reconciler.go (`reconcile`, `stop`, `run`,
-- `check_names`). It takes the operations on desired tunnels as the record `DesiredOps`, which Run/Model
-- fills; Run/Labels defines forward targets, managed labels and names. The order in which Go visits a map is the parameter `Order`. The starter and the handles answer
-- through `Runtime`, which sees the number of the call, and every call is logged.
--
-- Transport/Auto models auto_transport.go. Each critical section of `Dial` and `Close` is a function on the
-- fields of `AutoTransport`; a thread's `Place` says what it does next, and a `System` takes a list of actions
-- of any number of threads in any order. Channels are numbers. Race is `selectTransport`, whose `select`
-- receives a list of events.
--
-- Config/Transport models `MergeTransport` and `transportMode` of config/transport.go.
--
-- Cors models httpcors/cors.go: Cors itself `Normalize`, Cors/Response `WriteHeader` and `addVary`, Cors/Origins
-- `New`, `Prepare` and `Preflight`. `url.Parse` and the tables of Unicode and of header names are the fields of
-- `Runes`. Limits, Owned and Admission hold the proofs. Cors/Wrap
-- defines `Wrap`, `Finish` and the other methods of the writer.
--
-- Tunnel models tunnel_properties.go: `normalize_create` is `normalizeCreateTunnelProperties`, over the
-- `normalize` of Cors.
--
-- Webhook models webhook.go: which events are delivered, their signature and their headers. The keyed hash
-- is a parameter.
--
-- Session models cmd/rstream/internal/sessiongroup/group.go as steps on the group in any order; `Close` closes
-- its copies one at a time.
--
-- Control models client.go and tunnel.go: the record `Control` is `controlChannelImpl` with its tunnels, which stand
-- in a store because the map of the channel and the callers share them. Each critical section is a
-- function: `request_tunnel` and `withdraw` for `CreateTunnel`, `handle_open_rsp` and `handle_close_rsp`, `begin_close`,
-- `detach_cleanup` for `detachCleanupLocked`, and `run_cleanup` for `controlChannelCleanup.run`, which comes later.
-- Heartbeats is the liveness of the channel, Channels its QUIC datagram channels, Proxy the queues of proxy
-- requests, Connect is `Connect`, with the handshake as a function, and Messages is `handleMessage` and `readLoop`,
-- with all steps in any order as the relation `Reach`. Replies, Tunnels, Proxy/Balance, Proxy/Held, Proxy/Counters
-- and Proxy/Limits hold the accounts, Soundness and Runs put them together. Draining models `drainingProxyTransport`.
-- Not modelled there: the dial of an engine and of a tunnel, the writer's lock, and the time that `Close` waits.
--
-- Client models the pending dials, the default transport and the `Close` of a client in client.go, where `Close` cancels the
-- dials one by one and the end of a dial is two steps; Dials, Kept and Shutdown hold the proofs.
--
-- Socks models socks5_proxy.go: Socks itself the addresses, over the functions of Go's `net` in the record `Net`,
-- Client the configuration and the handshake on a connection whose input, output and failing writes are
-- explicit, Relay UDP. Wire, Transcript, Secrecy and Credentials hold the proofs. A string is the list of its
-- bytes there.
--
-- Dns models dns_resolution.go: `resolve_dial_addresses` with the lookups as fields of `Env`. Rounds and Alternation
-- hold the proofs.
--
-- Turn models turn.go with parts of turn_client.go and turn_app.go: `create_pat` is `createPATTURNCredentialsAt`, `derive_app`
-- the end of `deriveAPPTURNCredentials`, over a keyed hash; lifetimes wrap as in 64 bits. Lifetime and Usernames hold
-- the proofs.
--
-- Not modelled: the API and control plane clients, the dialers over QUIC and HTTP proxies, terminal sharing and its
-- cryptography, WebDAV and WebRTC, the command line and its terminal interface, and the generated protocol
-- code. They are mostly input and output over other packages.
pub mod Base
pub mod Client
pub mod Config
pub mod Control
pub mod Cors
pub mod Dns
pub mod Filesystem
pub mod Run
pub mod Session
pub mod Socks
pub mod Transport
pub mod Tunnel
pub mod Turn
pub mod Webhook
