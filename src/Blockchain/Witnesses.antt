-- ===== src/Blockchain/Witnesses.antt =====
-- A cNode whose connection breaks, and the theorems applied to it.
use stovacore.Prelude.{ℕ, zero, suc, ◌+◌, ◌<◌, ◌≡◌, refl, [], ◌==◌, arith, if◌then◌else◌}
use stovacore.Prelude.Result.{ok}
use stovacore.Validators.{pos, negsuc}
use stovacore.Rpc.{int_obj}
use stovacore.Blockchain.{Request, Reply, value, refused, rpc_error, broken, Network, call_jsonrpc}
use stovacore.Blockchain.Methods.{getblockcount}
use stovacore.Blockchain.Reconnect.{answered, reconnected, call_jsonrpc-Recovers, IsWaiting}

-- The first request finds the connection broken, the next are refused and too early.
abbrev flaky : Network (Unit {0})
flaky t request =
    if t == 0
    then broken
    else (if t == 1
        then refused
        else (if t == 2 then rpc_error (negsuc 27) else value (int_obj (pos 7))))

abbrev getblockcount_request : Request (Unit {0})
getblockcount_request = record { method = "getblockcount"; params = [] }

waits : (i : ℕ) → i < 2 → IsWaiting (flaky (1 + i) getblockcount_request)
unfolding stovacore.Blockchain.is_warming_up
waits zero l = tt
waits (suc zero) l = refl
waits (suc (suc i)) l = absurd (omega (arith, l))

call_jsonrpc-Recovers_example :
    call_jsonrpc flaky 2 5 getblockcount_request 0 ≡ (5, ok (int_obj (pos 7)))
call_jsonrpc-Recovers_example =
    call_jsonrpc-Recovers flaky 2 5 1 0 5 getblockcount_request (int_obj (pos 7)) (omega arith)
      (reconnected 2 0 (int_obj (pos 7)) (omega arith) refl waits refl (answered 4 refl))

count_test : getblockcount flaky 2 5 0 ≡ (5, ok (pos 7))
unfolding getblockcount call_jsonrpc
count_test = refl
