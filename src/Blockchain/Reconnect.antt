-- ===== src/Blockchain/Reconnect.antt =====
-- A call of cNode after a lost connection.
use stovacore.Prelude.{ℕ, zero, suc, ◌+◌, ◌<◌, ◌≡◌, refl, true, arith}
use stovacore.Prelude.Result.{ok}
use stovacore.Rpc.{Obj}
use stovacore.Blockchain.{
  Request, Reply, value, refused, rpc_error, broken, other, Network, getwalletinfo_request,
  is_warming_up, reconnect, call_jsonrpc,
}

-- A reply that the reconnecting waits after.
abbrev pub IsWaiting : {F : Type 0} → Reply F → Type 0
IsWaiting refused = Unit
IsWaiting (rpc_error code) = is_warming_up code ≡ true
IsWaiting (value v) = ⊥
IsWaiting broken = ⊥
IsWaiting (other e) = ⊥

shift : (a k : ℕ) → suc a + k ≡ a + suc k
shift a k = omega arith

at_zero : (a : ℕ) → a + 0 ≡ a
at_zero a = omega arith

module _ {F : Type 0} (net : Network F) where
  -- If cNode refuses or is starting for `k` requests and then answers, the reconnecting ends after
  -- these requests.
  pub reconnect-answer :
      (fuel k t : ℕ) (v : Obj F)
      → k < fuel
      → ((i : ℕ) → i < k → IsWaiting (net (t + i) getwalletinfo_request))
      → net (t + k) getwalletinfo_request ≡ value v
      → reconnect net fuel t ≡ (suc (t + k), ok tt)
  unfolding reconnect
  reconnect-answer zero k t v l waits e = absurd (omega (arith, l))
  reconnect-answer (suc fuel) zero t v l waits e =
      let now : net t getwalletinfo_request ≡ value v = rw (at_zero t) at e in
      rw (now, reconnect, at_zero t) refl
  reconnect-answer (suc fuel) (suc k) t v l waits e =
      again (net t getwalletinfo_request) refl
        (let w = waits 0 (omega arith) in rw (at_zero t) at w)
        (rw (← shift t k) (
          reconnect-answer fuel k (suc t) v (omega (arith, l))
            (λ i j. rw (shift t i) (waits (suc i) (omega (arith, j)))) (rw (shift t k) e)))
    where
      again :
          (r : Reply F)
          → net t getwalletinfo_request ≡ r
          → IsWaiting r
          → reconnect net fuel (suc t) ≡ (suc (t + suc k), ok tt)
          → reconnect net (suc fuel) t ≡ (suc (t + suc k), ok tt)
      again refused q w h = rw (q, reconnect) h
      again (rpc_error code) q w h = rw (q, w, reconnect) h
      again (value x) q w h = absurd w
      again broken q w h = absurd w
      again (other x) q w h = absurd w

  -- A call that finds the connection broken `rounds` times, each time reconnects, and is then
  -- answered: it returns the answer.
  pub data Recovers (request : Request F) (v : Obj F) : ℕ → ℕ → ℕ → ℕ → Type 0 where
    answered :
        (t : ℕ) {waiting : ℕ} → net t request ≡ value v → Recovers request v waiting 0 t (suc t)
    reconnected :
        (k t : ℕ) {waiting rounds end : ℕ} (info : Obj F)
        → k < waiting
        → net t request ≡ broken
        → ((i : ℕ) → i < k → IsWaiting (net (suc t + i) getwalletinfo_request))
        → net (suc t + k) getwalletinfo_request ≡ value info
        → Recovers request v waiting rounds (suc (suc t + k)) end
        → Recovers request v waiting (suc rounds) t end

  -- A call of cNode whose connection is broken any number of times, and whose reconnecting is
  -- answered each time, returns the answer, with fuel for each time.
  pub call_jsonrpc-Recovers :
      (fuel waiting rounds t end : ℕ) (request : Request F) (v : Obj F)
      → rounds < fuel
      → Recovers request v waiting rounds t end
      → call_jsonrpc net fuel waiting request t ≡ (end, ok v)
  unfolding call_jsonrpc
  call_jsonrpc-Recovers zero waiting rounds t end request v l r = absurd (omega (arith, l))
  call_jsonrpc-Recovers (suc fuel) waiting zero _ _ request v l (answered t e) =
      rw (e, call_jsonrpc) refl
  call_jsonrpc-Recovers (suc fuel) waiting (suc rounds) _ end request v l
        (reconnected k t info small e waits back rest) =
      rw (e, call_jsonrpc, reconnect-answer waiting k (suc t) info small waits back)
        (call_jsonrpc-Recovers fuel waiting rounds (suc (suc t + k)) end request v
          (omega (arith, l)) rest)
