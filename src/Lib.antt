-- ===== src/Lib.antt =====
-- Kinetic: a naming network whose names are paid for with verifiable delay functions (VDFs), kept
-- alive with heartbeats, and stored in a DHT whose nodes check every record themselves.
--
-- The parts and how they interact. A kyn is the unit of network time, taken from a randomness beacon
-- (kinetic-kyn). A user commits to a name, computes a VDF of a length that the physics of the network
-- set for it (kinetic-core/src/physics.rs), and publishes a reveal (kinetic-types/src/vdf.rs) that is
-- signed by the owner's key or by a delegate (kinetic-verify/src/signatures.rs). The record store
-- (kinetic-network/src/store) checks a reveal (verification.rs) and decides between it and the record
-- it holds (handlers.rs). Names point to identity documents and manifests (kinetic-kid,
-- kinetic-types/src/identity.rs). A sovereign key can halt and resume the network by signed actions
-- (kinetic-action, kinetic-types/src/action.rs), and the time of a halt does not count in the age of
-- records. Peers prove work for their identity (kinetic-network/src/challenge.rs). A DNS server answers
-- queries from the zones that records embed (kinetic-nrs/src/records.rs).
--
-- Which file models which part:
--   Prelude and its children: Boolean tests, lists, byte strings, machine words, maps by byte strings.
--   Config: the constants that a build generates from network.json, and the third-party functions.
--   Kyn: kinetic-kyn/src/types.rs and math.rs; Kyn/Beacon: beacon.rs; Kyn/Calendar: its laws.
--   Names: kinetic-core/src/types/names.rs; Names/Split, Names/Label, Names/Normal, Names/Apex:
--     its laws.
--   Physics: kinetic-core/src/physics.rs; Physics/Takeover, Physics/Curve: its laws.
--   Action: the types of kinetic-types/src/action.rs, and kinetic-action/src/types.rs and logic.rs;
--     Action/Codec: NetworkAction::parse_payload; Action/Engine: kinetic-action/src/engine and
--     process_action_message; Action/Atomic, Action/Replay, Action/Timeline, Action/Pause: laws.
--   Challenge: kinetic-network/src/challenge.rs; Challenge/Lifetime: its laws.
--   Kid: kinetic-kid/src/document.rs and manifest.rs; Kid/DocumentCheck: Document::verify,
--     verify_genesis and is_authorized; Kid/ManifestCheck: Manifest::verify_at_time; Kid/Authority,
--     Kid/Genesis: their laws.
--   Identity: kinetic-types/src/identity.rs. NameRecord: kinetic-types/src/name_record.rs.
--   Vdf: kinetic-types/src/vdf.rs; Vdf/Validate: kinetic-core/src/types/vdf.rs; Vdf/Signable,
--     NameRecord/Domains, NameRecord/Keys: laws of the signed bytes and of the DHT keys.
--   Signature: kinetic-verify/src/signatures.rs; Signature/Delegation: its laws.
--   Store: kinetic-network/src/error.rs and store/constants.rs; Store/RevealCheck and
--     Store/IdentityCheck: store/verification.rs; Store/State: store/kademlia.rs (the state and
--     get_fallback); Store/Conflict and Store/Handlers: store/handlers.rs; Store/Reveals,
--     Store/Identities, Store/TieBreak, Store/RateLimit, Store/Rejection,
--     Store/Ownership, Store/Liveness: their laws. Store/Kademlia: put_record_internal of
--     store/kademlia.rs; Store/Prune: prune; Store/Restore: KineticRecordStore::new; the children of
--     each: its laws. Store/Run: runs of the store's operations and background tasks; Store/Run/Abstract:
--     the map of records that they refine; Store/Run/Deletions: what `prune` may delete.
--   TieBreaker: xor_tie_breaker of kinetic-network/src/event_loop/utils.rs; TieBreaker/Sorted,
--     TieBreaker/Agreement, TieBreaker/Members, TieBreaker/Work, TieBreaker/Winner: its laws.
--   PeerRegistry: kinetic-network/src/peer_registry.rs; PeerRegistry/Ranges, PeerRegistry/Public,
--     PeerRegistry/Reload: its laws.
--   HostRoute: HostRoute of kinetic-types/src/nrs.rs and verify_host_routing_record of
--     kinetic-network/src/store/verification.rs; HostRoute/Digest: its laws.
--   Net: kinetic-core/src/net.rs; Net/Blocks: the IPv4 check as a table of blocks. Zone: the zones of
--     kinetic-types/src/nrs.rs and kinetic-core/src/types/nrs.rs; Zone/Labels, Zone/Valid: their laws.
--   Resolver: kinetic-nrs/src/records.rs; Resolver/Safe, Resolver/Signed, Resolver/Dotted: its laws.
--   Examples and its children: concrete inputs.
--
-- Conventions. Strings, keys, signatures and hashes are lists of bytes; a string is its UTF-8 bytes.
-- A u64 is a native natural number; sums that the code does not saturate are taken modulo 2 ^ 64
-- (add64), as in a release build. Subtraction on the naturals stops at 0, which is saturating_sub.
-- Result<(), E> is an option, none for Ok(()); other results are data types of the module. A loop that
-- returns early is structural recursion or `any`. Log lines and the texts of errors are left out. A
-- HashMap is an association list. Functions of other crates (SHA-256, ML-DSA-65, hex, base64url, JCS,
-- Argon2id, the BLS check, the VDF engine, Unicode lower-casing, the LRU cache, JSON, the memory store
-- and the peer ids of libp2p) are parameters;
-- what is assumed of them stands among the hypotheses. A lock on the global action state is an option.
-- The storage engine is a map whose operations succeed; writes and deletions that run in the
-- background are lists in the state, which steps of their own carry out. Key generation is a list of peers, so mining recurs on it; no definition takes fuel.
--
-- Not modelled: signing helpers, the upstream DNS resolvers, the event loop but for its tie-breaker, clients, storage files, the VDF
-- arithmetic, RPC, daemon, node, host, CLI and PAC programs, which are glue, input and output, or
-- arithmetic of other crates, or are left for a later extension.
pub mod Prelude
pub mod Config
pub mod Kyn
pub mod Names
pub mod Physics
pub mod Action
pub mod Challenge
pub mod Kid
pub mod Identity
pub mod Vdf
pub mod NameRecord
pub mod Signature
pub mod Store
pub mod HostRoute
pub mod Net
pub mod Zone
pub mod Resolver
pub mod TieBreaker
pub mod PeerRegistry
pub mod Examples
