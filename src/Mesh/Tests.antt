-- ===== src/Mesh/Tests.antt =====
-- Runs of the mesh client on concrete data.
use grokingclawid.Common.{
  Bytes, Result, Text, [], any, ascii, err, none, ok, pos, refl, request_failed, some, true, ◌∷◌,
  ◌≡◌,
}
use grokingclawid.Crypto.Toy.{toy}
use grokingclawid.License.{check_feature, feature_index, for_tier, has_feature, indie}
use grokingclawid.License.Tiers.{at_tier}
use grokingclawid.Mesh.{
  AuthResult, Identity, MeshState, begin_connect, connect, connect_from, connected, connecting,
  disconnect, disconnected, do_connect, end_connect, is_connected, register_agent,
}
use grokingclawid.Mesh.Machine.{
  Event, IsBacked, Reachable, Reachable-IsBacked, begins, begun, created, disconnects, ended, ends,
  taken_down,
}

abbrev files : Identity
files = record { daemon_card = ok (1 ∷ []); daemon_key = ok (2 ∷ []) }

abbrev server : Bytes → Text → Result AuthResult
server card response =
    ok record { success = true; mesh_ip = some (ascii "10.0.0.1"); token = none; error = none }

abbrev joined : MeshState
joined = connected (ascii "10.0.0.1") [] (pos 5)

begins_now : begin_connect (at_tier indie) ≡ ok connecting
unfolding begin_connect check_feature has_feature any for_tier feature_index
begins_now = refl

joins : end_connect (do_connect toy server (err request_failed) (pos 5) files) ≡ (joined, ok tt)
unfolding end_connect do_connect
joins = refl

abbrev refused : Bytes → Text → Result AuthResult
refused card response = err request_failed

fails :
    end_connect (do_connect toy refused (ok []) (pos 4) files) ≡ (disconnected, err request_failed)
unfolding end_connect do_connect
fails = refl

abbrev asked : Event
asked = begins (at_tier indie)

abbrev first : Event
first = ends files refused (ok []) (pos 4)

abbrev second : Event
second = ends files server (err request_failed) (pos 5)

-- A call of `connect` that the server refuses, and one that it does not.
run : Reachable toy (second ∷ asked ∷ first ∷ asked ∷ []) joined 0
run =
    ended files server (err request_failed) (pos 5) (ok tt)
      (begun (at_tier indie)
        (ended files refused (ok []) (pos 4) (err request_failed)
          (begun (at_tier indie) created begins_now) fails)
        begins_now)
      joins

-- `disconnect` while a call of `connect` waits for the server: the client ends up connected.
undone : Reachable toy (second ∷ disconnects ∷ asked ∷ []) joined 0
unfolding disconnect
undone =
    ended files server (err request_failed) (pos 5) (ok tt)
      (taken_down {t = disconnected} (ok tt) (begun (at_tier indie) created begins_now) refl) joins

-- A call of `connect` that fails takes down a connection that was there.
connection_lost :
    connect
      (at_tier indie)
      (do_connect toy server
        (ok [])
        (pos 5)
        record { daemon_card = err request_failed; daemon_key = ok [] })
      joined
    ≡ (disconnected, err request_failed)
unfolding connect connect_from begin_connect check_feature end_connect do_connect has_feature any
    for_tier feature_index
connection_lost = refl

idle : register_agent (err request_failed) connecting ≡ ok tt
unfolding register_agent is_connected
idle = refl

Reachable-IsBacked_example : IsBacked toy (second ∷ asked ∷ first ∷ asked ∷ []) joined 0
Reachable-IsBacked_example =
    Reachable-IsBacked toy (second ∷ asked ∷ first ∷ asked ∷ []) joined 0 run
