-- ===== src/Lib.antt =====
-- wg-access-server, a WireGuard VPN server with a web UI: the storage of devices, users and secrets,
-- the device manager that hands out addresses and keeps the peers in step with the storage, the
-- sign-in with passwords, second factors, passkeys, browser sessions and API tokens, and the services
-- of the API.
--
-- The parts, and how they interact. A request is signed in by a session (Websessions) or a token
-- (Apitokens), and a service of the API (Api) checks who asks and calls the managers; the device
-- manager (Devices) changes the stored devices under the allocation lock, the storage (Storage)
-- tells the watchers, and each change reaches the peers of the WireGuard interface (Devices.Sync)
-- and what the firewall is built from (Devices.Firewall). The users' passwords and second factors
-- (Users) are kept in the same storage.
--
-- Files and sources:
--   Prelude: strings as code points (Text), maps as lists of entries (GoMap), results with errors
--   Netip: the types of net/netip, as far as they compute; Netip/Codec their text forms, an interface
--   Storage: internal/storage/contracts.go and the types of sessions.go, tokens.go, passkeys.go; a
--     time is the number of nanoseconds since some start
--   Storage/Keys: internal/storage/utils.go (keyStr)
--   Storage/Memory: internal/storage/inmemory.go; Users its users, Sessions, Tokens and Passkeys the
--     in-memory methods of the files of those names; Wellformed the invariant of the devices
--   Network: SplitAddresses and ParseAddresses of internal/network/network.go; Network/Nftables: the
--     rules of internal/network/nftables.go as data
--   Devices/Validation, Allocation, Manager, Sync: internal/devices/devices.go, with
--     removeBlockedPeers of access.go in Sync; Sync/Stored: the peers against what is stored
--   Devices/Sync/Rotation: RotateDeviceKey with the peers; Devices/Requests: the requests that the
--     device manager serves, in any order
--   Devices/Routes, Firewall: internal/devices/routes.go; Devices/Traffic: internal/devices/metadata.go,
--     Traffic/Recorded: what its passes leave in the storage
--   Users/Totp, TwoFactor, Passwords: internal/users/totp.go, twofactor.go, passwords.go; Users/Limit
--     the counter of wrong passwords there
--   Authnz: internal/authnz/authsession/claims.go, identity.go and PendingLogin of session.go
--   Authnz/Throttle: internal/authnz/authconfig/throttle.go
--   Websessions: internal/websessions/websessions.go; Apitokens: internal/apitokens/apitokens.go
--   Api/Bearer: internal/apitokens/middleware.go; Api/Calls/Bearing: a request with a token, through it
--     and into the API
--   Users/Passkeys: internal/users/passkeys.go; Devices/People: ListUsers of devices.go
--   Api: what the services of internal/api share; Api/Devices, Tokens, Sessions: device_service.go,
--     token_service.go, session_service.go; Api/Account, Passkeys, Admin: user_service.go; Api/Calls:
--     every call of the API, with who is refused (Access) and what a call spares (Isolation, on
--     Api/Spares); Api/Admin/Revoked: what is left of somebody whose access was revoked
--   Signin/Cookies: GetSession, SetSession and ClearSession of session.go; Signin/Login: checkLogin and
--     recordLogin of cmd/serve/http.go with SetSession of internal/authnz/authruntime/runtime.go;
--     Signin/Form: the password form of internal/authnz/authconfig/simple.go, with checkCreds of
--     basic.go; Form/Histories: every history of posted forms
--   Devices/Inactive: internal/devices/inactive.go; Web: internal/web/clientaddr.go
--   Examples: concrete runs
--
-- State and operations. A Go map is a list of entries in the order of one iteration over it. An
-- operation on the storage takes the store and gives the store after it with the events that it
-- emits, or an error, and then nothing has changed. A handler of the API takes the storage and the
-- counters of wrong passwords and gives both afterwards, with the response or the error of the
-- client. What runs under a lock is one step. What comes from random sources, from the clock, from
-- bcrypt, SHA-256, HMAC, base32, JSON and WebAuthn, from the network interfaces of the host and
-- from the WireGuard interface is an argument; where a theorem needs what these promise, it says so
-- in a hypothesis.
--
-- Bounds. The walk through a subnet (Devices.Allocation.first_free) has as fuel the number of
-- addresses of the subnet, and Devices.Allocation.Scan shows that a walk that ends without an
-- address has passed all of them. The steps of one-time codes wrap in 64 bits. Times are natural
-- numbers, and differences of times that Go would give as negative are 0, which every test treats
-- alike. Byte counters that are added to a device wrap in 64 bits. Text is a list of code points; a
-- byte b of a character that is cut in two stands as 0x110000 + b.
--
-- Not modelled: the SQL backends and their watchers, since what they do is the database's; the HTTP
-- handlers outside of the API and the password form, the OAuth providers, the DNS proxy, the
-- configuration and the firewall commands, which are calls of libraries; loops that only wait.
-- Values are copied, so what a caller does to a device that the in-memory storage holds by pointer
-- is not followed. In keys, runes past ASCII stand as they are, where Go's quoting escapes those
-- that cannot be printed.
pub mod Prelude
pub mod Netip
pub mod Storage
pub mod Network
pub mod Devices
pub mod Users
pub mod Authnz
pub mod Websessions
pub mod Apitokens
pub mod Api
pub mod Examples
pub mod Signin
pub mod Web
