-- ===== src/Lib.antt =====
-- GrokingClawID gives software agents an identity, and GrokingClaw runs them under it. The
-- core crate (crates/grokingclawid-core) has the agent cards, signatures, the audit chain,
-- challenges between agents and the registry of revoked cards; the command line
-- (crates/grokingclawid-cli) issues, checks and delegates cards; the daemon
-- (crates/grokingclaw-daemon) supervises the agents' processes and anchors their audit logs
-- as Merkle roots; the proxy (crates/grokingclaw-proxy) stands between an agent and the
-- network and lets through what its scope allows.
--
-- How the parts meet: the supervisor starts an agent with a proxy whose ScopeConfig comes
-- from the agent's configuration; every use of a card is recorded in the audit log, whose
-- hashes the anchoring worker reads; cards, challenges and revocations are signed and
-- verified by the functions of crypto.rs; verify asks the registry of revocations, and so
-- does the guard, which stands between an agent and an MCP server; the supervisor fills the
-- token cache of a proxy from the OAuth store of its agent, and the A2A endpoint asks the
-- supervisor for its agents.
--
-- Which file models what (the children of a file hold its lemmas, Tests the runs on concrete
-- data):
--
-- License. crates/grokingclawid-core/src/license.rs, the tiers and their limits,
-- load_license, activate_license, check_limit and check_feature.
--
-- Models. crates/grokingclawid-core/src/models.rs, the records AgentCard, DelegationToken and
-- AuditEntry with their enumerations. The field agent_type is called kind.
--
-- Crypto. crates/grokingclawid-core/src/crypto.rs. sign, verify, mldsa_sign, mldsa_verify,
-- hybrid_sign, hybrid_verify, the encodings of public keys, sha256_hex and
-- compute_chain_hash. The crates base64, hex, sha2, ed25519-dalek and fips204 are the record
-- Primitives, an argument of everything that uses them; Crypto.Signatures.Lawful states their
-- documented behaviour, and Crypto.Toy is an instance that meets it.
--
-- Audit. crates/grokingclawid-core/src/audit.rs (record_entry, get_last_hash, query_entries)
-- and, from crates/grokingclaw-daemon/src/daemon.rs, verify_chain and query_audit. The SQLite
-- table is the list of its rows.
--
-- Anchor. crates/grokingclaw-daemon/src/anchor.rs, compute_merkle_root in Anchor.Merkle and
-- anchor_cycle as anchor_new up to the submission, and submit_pending in Anchor.Submit. The
-- loop over the levels of a tree runs on fuel, the number of leaves, which is enough since
-- each level that has two hashes or more is halved.
--
-- Httpsig. crates/grokingclawid-core/src/httpsig.rs, build_signature_base, sign_request,
-- sign_request_hybrid; Httpsig.Parse is parse_signature_input and parse_signature,
-- Httpsig.Verify verify_request and verify_request_hybrid, Httpsig.Messages sign_ws_message
-- and verify_ws_message.
--
-- Challenge. crates/grokingclawid-core/src/challenge.rs, create_challenge,
-- challenge_to_sign_bytes, respond_to_challenge, and verify_response with its seven checks.
--
-- Cards. crates/grokingclawid-cli/src/commands/issue.rs, verify.rs and delegate.rs: the
-- bodies of execute as issue, verify_card and delegate, over keys that are decoded and
-- arguments that are parsed.
--
-- Revocation. crates/grokingclawid-core/src/revocation.rs, revoke, revoke_hybrid, is_revoked,
-- get_revocation, list_revocations, verify_revocation and verify_revocation_hybrid.
--
-- Scope. crates/grokingclaw-proxy/src/scope.rs, check_rate_limit, check_url and
-- check_connect. Url::parse is an argument.
--
-- Supervisor. crates/grokingclaw-daemon/src/supervisor.rs. The state, init, register and the
-- queries are in Supervisor, start_agent, stop_agent, check_health, delete_agent and stop_all
-- in Supervisor.Process; Supervisor.Reach has the relation of a call and the states that
-- calls reach.
--
-- A2a. crates/grokingclaw-daemon/src/a2a.rs, handle_a2a_rpc with its methods over the map of
-- tasks; A2a.Signed is verify_request_signature and handle_control_revoke, A2a.Signer what a
-- signed request is.
--
-- Guard. crates/grokingclawid-cli/src/commands/guard.rs, the loop of execute over the lines
-- of an agent as run, handle_authenticate and check_scope.
--
-- OAuth. crates/grokingclaw-daemon/src/oauth_store.rs and the OAuth methods of
-- crates/grokingclaw-daemon/src/daemon.rs. cascade_remove takes fuel, for it need not return;
-- OAuth.Cyclic says how much is enough. OAuth.Sealed is the encrypted file, OAuth.Flow what
-- crates/grokingclaw-daemon/src/oauth_flow.rs makes of a provider's answer.
--
-- TokenCache. crates/grokingclaw-proxy/src/oauth.rs, the tokens that a proxy injects, and the
-- functions of oauth_store.rs that fill it.
--
-- Mesh. crates/grokingclaw-daemon/src/mesh.rs, the methods of MeshClient over the answers of
-- its transport; Mesh.Machine has the states that its calls reach when they interleave. A
-- call of connect gives up the lock while it waits for the server, so it is two steps there.
--
-- Updates. crates/grokingclaw-daemon/src/updates.rs, check and apply_template_updates over
-- the answers of the registry and of the installer.
--
-- Common. numbers, texts, lists, maps and results that the others share, and their lemmas.
--
-- State is passed explicitly: an operation that changes a shared object takes the state and
-- returns the next one, with a Result where the code may fail. The clock is an argument, read
-- once in a call, and once more where a task of the A2A endpoint is done; an instant is its
-- nanoseconds since 1970, a text its UTF-8 bytes, a byte array its bytes. Numbers of 32 and
-- 64 bits keep their wrap-around where the code can reach it. Every loop is structural
-- recursion, apart from the two on fuel that are named above.
--
-- Not modelled: sockets, files, SQLite and toml failing, printing, logging, the generation of
-- keys and nonces, and PEM files; concurrent calls outside Mesh, each of which is one step.
-- Of the crates, the signed upgrade of a web socket, the IOTA client, the transport of the
-- mesh, birth, templates, and the remaining commands are left out so far.
pub mod A2a
pub mod Anchor
pub mod Audit
pub mod Cards
pub mod Challenge
pub mod Common
pub mod Crypto
pub mod Guard
pub mod Httpsig
pub mod License
pub mod Mesh
pub mod Models
pub mod OAuth
pub mod Revocation
pub mod Scope
pub mod Supervisor
pub mod TokenCache
pub mod Updates
