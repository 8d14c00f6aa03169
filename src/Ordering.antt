-- ===== src/Ordering.antt =====
-- utils/mn_ordering.py: the three masternodes that process a registration.
--
-- `masternode_top` of cNode is a parameter: the list of its nodes, each with the parts that
-- `extAddress.split(':')` gives. A client is what its constructor is given.
mod Witnesses
use stovacore.Prelude.{
  ℕ, zero, suc, ◌+◌, ◌≤◌, ◌<◌, ◌≡◌, refl, ap, inl, inr, String, str_eq, Bool, true, false, ◌||◌,
  List, [], ◌∷◌, arith, length, Bool-cases, if◌then◌else◌,
}
use stovacore.Prelude.Result.{
  Result, Error, ok, err, value_error, index_error, Result-cases, ◌>>=◌, >>=-eq-ok, ok_inj,
}

pub record WorkerNode : Type 0 where
  pub ext_key : String
  pub address_parts : List String

pub record RpcClient : Type 0 where
  pub remote_pastelid : String
  pub ip : String
  pub py_rpc_port : String

-- `ip, py_rpc_port = ...`
unfoldable pub two_parts : List String → Result (String × String)
two_parts (ip ∷ port ∷ []) = ok (ip, port)
two_parts [] = err value_error
two_parts (ip ∷ []) = err value_error
two_parts (ip ∷ port ∷ p ∷ parts) = err value_error

-- the loop, with `missing` clients to find among the nodes from `index` on
unfoldable pub find_clients : ℕ → List WorkerNode → Result (List RpcClient)
unfolding two_parts
find_clients zero workers = ok []
find_clients (suc missing) [] = err index_error
find_clients (suc missing) (node ∷ []) = err value_error
find_clients (suc missing) (node ∷ next ∷ workers) = do
  (ip, port) ← two_parts node.address_parts
  let client : RpcClient = record { remote_pastelid = node.ext_key; ip = ip; py_rpc_port = port }
  let skipped = find_clients (suc missing) (next ∷ workers)
  let taken = find_clients missing (next ∷ workers)
  if str_eq node.ext_key "" || (str_eq ip "" || str_eq port "")
      then skipped
      else (do clients ← taken; ok (client ∷ clients))

unfoldable pub get_masternode_ordering : List WorkerNode → Result (List RpcClient)
unfolding find_clients
get_masternode_ordering workers = find_clients 3 workers

find_clients-length :
    (missing : ℕ) (workers : List WorkerNode) (clients : List RpcClient)
    → find_clients missing workers ≡ ok clients
    → 0 < length workers
    → (length clients ≡ missing) × (missing + 1 ≤ length workers)
unfolding find_clients
find_clients-length zero workers clients e p = (rw (← ok_inj e) refl, omega (arith, p))
find_clients-length (suc missing) [] clients e p = cc
find_clients-length (suc missing) (node ∷ []) clients e p = cc
find_clients-length (suc missing) (node ∷ next ∷ workers) clients e p =
    let ((ip, port), parts, e₁) = >>=-eq-ok (two_parts node.address_parts) _ e in
    elim (Bool-cases (str_eq node.ext_key "" || (str_eq ip "" || str_eq port ""))) [
      | inl skips ↦
          let t =
            find_clients-length (suc missing) (next ∷ workers) clients (rw skips at e₁)
              (omega arith) in
          (t.0, omega (arith, t.1))
      | inr takes ↦
          let (found, more, e₂) =
            >>=-eq-ok (find_clients missing (next ∷ workers)) _ (rw takes at e₁) in
          let t = find_clients-length missing (next ∷ workers) found more (omega arith) in
          (rw (← ok_inj e₂) (ap suc t.0), omega (arith, t.1))
    ]

-- If `get_masternode_ordering` returns, it returns three clients, and cNode listed four nodes or
-- more: three nodes are never enough, though all of them be valid.
pub get_masternode_ordering-length :
    (workers : List WorkerNode) (clients : List RpcClient)
    → get_masternode_ordering workers ≡ ok clients
    → (length clients ≡ 3) × (4 ≤ length workers)
unfolding get_masternode_ordering
get_masternode_ordering-length [] clients e = absurd (refused e)
  where
    refused : err index_error ≡ ok clients → ⊥
    refused h = cc
get_masternode_ordering-length (node ∷ workers) clients e =
    find_clients-length 3 (node ∷ workers) clients e (omega arith)
