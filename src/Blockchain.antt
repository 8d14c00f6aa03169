-- ===== src/Blockchain.antt =====
-- core_modules/blockchain.py: the calls of cNode, with the reconnecting.
--
-- The network is a parameter: the reply to a request, by the number of the request, so that it can
-- answer later what it could not at first. Sleeping has no effect here. Both loops run on fuel, one
-- unit a request. A JSON value is an object of the module Rpc.
pub mod Methods
pub mod Connection
pub mod Reconnect
mod Witnesses
use stovacore.Prelude.{
  ℕ, zero, suc, ◌+◌, Bool, true, false, List, [], ◌∷◌, String, ◌==◌, if◌then◌else◌,
}
use stovacore.Prelude.Result.{
  Result, Error, ok, err, connection_error, disconnected, json_rpc_exception, out_of_fuel,
}
use stovacore.Prelude.Run.{Run, ◌>>=◌}
use stovacore.Validators.{ℤ, pos, negsuc}
use stovacore.Rpc.{Obj}

-- A method of cNode and its parameters.
pub record Request (F : Type 0) : Type 0 where
  pub method : String
  pub params : List (Obj F)

-- What a request ends with: a value, ConnectionRefusedError, JSONRPCException with its code, one of
-- BrokenPipeError, CannotSendRequest and RemoteDisconnected, or another exception.
pub data Reply (F : Type 0) : Type 0 where
  value : Obj F → Reply F
  refused : Reply F
  rpc_error : ℤ → Reply F
  broken : Reply F
  other : Error → Reply F

abbrev pub Network : Type 0 → Type 0
Network F = ℕ → Request F → Reply F

abbrev pub getwalletinfo_request : {F : Type 0} → Request F
getwalletinfo_request = record { method = "getwalletinfo"; params = [] }

-- `exc.code == -28`: cNode is still starting
unfoldable pub is_warming_up : ℤ → Bool
is_warming_up (pos n) = false
is_warming_up (negsuc n) = n == 27

module _ {F : Type 0} (net : Network F) where
  -- `__reconnect`; the state is the number of requests made before
  unfoldable pub reconnect : ℕ → Run ℕ (Unit {0})
  unfolding is_warming_up
  reconnect zero t = (t, err out_of_fuel)
  reconnect (suc fuel) t =
      let again = reconnect fuel (suc t) in
      elim (net t getwalletinfo_request) [
        | value v ↦ (suc t, ok tt)
        | refused ↦ again
        | rpc_error code ↦ if is_warming_up code then again else (suc t, err json_rpc_exception)
        | broken ↦ (suc t, err disconnected)
        | other e ↦ (suc t, err e)
      ]

  -- `__call_jsonrpc`
  unfoldable pub call_jsonrpc : ℕ → ℕ → Request F → Run ℕ (Obj F)
  unfolding reconnect
  call_jsonrpc zero waiting request t = (t, err out_of_fuel)
  call_jsonrpc (suc fuel) waiting request t = elim (net t request) [
    | value v ↦ (suc t, ok v)
    | refused ↦ (suc t, err connection_error)
    | rpc_error code ↦ (suc t, err json_rpc_exception)
    | broken ↦ (reconnect waiting >>= λ done. call_jsonrpc fuel waiting request) (suc t)
    | other e ↦ (suc t, err e)
  ]
