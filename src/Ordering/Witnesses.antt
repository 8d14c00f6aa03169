-- ===== src/Ordering/Witnesses.antt =====
-- Four workers, and three.
use stovacore.Prelude.{◌≤◌, ◌≡◌, refl, String, List, [], ◌∷◌, length}
use stovacore.Prelude.Result.{ok, err, value_error}
use stovacore.Ordering.{
  WorkerNode, RpcClient, get_masternode_ordering, get_masternode_ordering-length,
}

abbrev worker : String → WorkerNode
worker key = record { ext_key = key; address_parts = "10.0.0.1" ∷ "4444" ∷ [] }

abbrev client : String → RpcClient
client key = record { remote_pastelid = key; ip = "10.0.0.1"; py_rpc_port = "4444" }

abbrev four : List WorkerNode
four = worker "a" ∷ worker "b" ∷ worker "c" ∷ worker "d" ∷ []

three_test : get_masternode_ordering (worker "a" ∷ worker "b" ∷ worker "c" ∷ []) ≡ err value_error
unfolding get_masternode_ordering
three_test = refl

four_test : get_masternode_ordering four ≡ ok (client "a" ∷ client "b" ∷ client "c" ∷ [])
unfolding get_masternode_ordering
four_test = refl

get_masternode_ordering-length_example :
    (length (client "a" ∷ client "b" ∷ client "c" ∷ []) ≡ 3) × (4 ≤ length four)
get_masternode_ordering-length_example =
    get_masternode_ordering-length four (client "a" ∷ client "b" ∷ client "c" ∷ []) four_test
