-- ===== src/Mesh.antt =====
-- crates/grokingclaw-daemon/src/mesh.rs: the states of the mesh client and its methods. What the
-- transport answers is an argument, as are the card and the key that the daemon's files hold, read
-- and decoded. WireGuard, whose failures the code ignores, is left out.
pub mod Grant
pub mod Machine
mod Tests
use grokingclawid.Common.{
  Bool, Bytes, List, Option, Result, Text, [], ascii, auth_rejected, ensure, err, false,
  if◌then◌else◌, no_mesh_ip, none, ok, ok_or, some, true, unwrap_or, ℕ, ℤ, ◌>>=◌, ◌>>◌,
}
use grokingclawid.Crypto.{Primitives, sign}
use grokingclawid.License.{LicenseState, check_feature, mesh}

pub record MeshPeer : Type 0 where
  pub name : Text
  pub did : Text
  pub mesh_ip : Text
  pub last_seen : ℤ
  pub agent_count : ℕ

pub data MeshState : Type 0 where
  disconnected connecting : MeshState
  connected : (mesh_ip : Text) (peers : List MeshPeer) (connected_at : ℤ) → MeshState

unfoldable pub is_connected : MeshState → Bool
is_connected disconnected = false
is_connected connecting = false
is_connected (connected mesh_ip peers connected_at) = true

pub record AuthResult : Type 0 where
  pub success : Bool
  pub mesh_ip : Option Text
  pub token : Option Text
  pub error : Option Text

pub record PingResult : Type 0 where
  pub peer_did : Text
  pub reachable : Bool
  pub latency_ms : Option ℕ
  pub error : Option Text

-- The files at `daemon_card_path` and `daemon_key_path`, the key decoded.
pub record Identity : Type 0 where
  pub daemon_card : Result Bytes
  pub daemon_key : Result Bytes

-- `connect` up to the first `await`: the state that it writes.
unfoldable pub begin_connect : LicenseState → Result MeshState
begin_connect lic = check_feature mesh lic >> ok connecting

-- The state that `do_connect` writes. `authenticate` and `listed` are the transport's answers.
unfoldable pub do_connect :
    Primitives
    → (Bytes → Text → Result AuthResult)
    → Result (List MeshPeer)
    → ℤ
    → Identity
    → Result MeshState
do_connect P authenticate listed now files = do
  card_bytes ← files.daemon_card
  signing_key ← files.daemon_key
  auth ← authenticate card_bytes (sign P signing_key card_bytes)
  ensure auth.success auth_rejected
  mesh_ip ← ok_or auth.mesh_ip no_mesh_ip
  ok (connected mesh_ip (unwrap_or listed []) now)

-- `connect` from the answer of `do_connect` on.
unfoldable pub end_connect : Result MeshState → MeshState × Result (Unit {0})
end_connect (err why) = (disconnected, err why)
end_connect (ok state) = (state, ok tt)

unfoldable pub connect_from :
    Result MeshState → Result MeshState → MeshState → MeshState × Result (Unit {0})
connect_from (err why) result state = (state, err why)
connect_from (ok begun) result state = end_connect result

-- `connect`, with no other call between its steps.
unfoldable pub connect : LicenseState → Result MeshState → MeshState → MeshState × Result (Unit {0})
connect lic result state = connect_from (begin_connect lic) result state

unfoldable pub disconnect : MeshState → MeshState × Result (Unit {0})
disconnect state = (disconnected, ok tt)

unfoldable pub register_agent : Result (Unit {0}) → MeshState → Result (Unit {0})
register_agent answer state = if is_connected state then answer else ok tt

unfoldable pub deregister_agent : Result (Unit {0}) → MeshState → Result (Unit {0})
deregister_agent answer state = if is_connected state then answer else ok tt

-- The write at the end of `list_peers`.
unfoldable pub cache_peers : List MeshPeer → MeshState → MeshState
cache_peers fresh disconnected = disconnected
cache_peers fresh connecting = connecting
cache_peers fresh (connected mesh_ip peers connected_at) = connected mesh_ip fresh connected_at

unfoldable pub peers_listed :
    Result (List MeshPeer) → MeshState → MeshState × Result (List MeshPeer)
peers_listed (err why) state = (state, err why)
peers_listed (ok fresh) state = (cache_peers fresh state, ok fresh)

unfoldable pub list_peers : Result (List MeshPeer) → MeshState → MeshState × Result (List MeshPeer)
list_peers answer state = if is_connected state then peers_listed answer state else (state, ok [])

unfoldable pub ping : Result PingResult → Text → MeshState → Result PingResult
ping answer did state =
    if is_connected state
    then answer
    else ok record {
      peer_did = did;
      reachable = false;
      latency_ms = none;
      error = some (ascii "Not connected to mesh");
    }
