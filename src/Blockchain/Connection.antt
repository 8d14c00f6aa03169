-- ===== src/Blockchain/Connection.antt =====
-- cnode_connection.py: connecting to cNode, and the connection that all calls share.
--
-- The environment variables are parameters, empty if they are not set.
use mathlib.Core.Path.{Path}
use stovacore.Prelude.{
  ℕ, zero, suc, ◌≡◌, sym, ap, ◌∙◌, some_inj, Bool, true, false, not, ◌&&◌, Option, none, some,
  String, str_eq, if◌then◌else◌,
}
use stovacore.Prelude.Result.{
  Result, Error, ok, err, connection_error, json_rpc_exception, out_of_fuel, ok_inj,
}
use stovacore.Prelude.Run.{Run, ◌>>=◌}
use stovacore.Rpc.{Obj}
use stovacore.Blockchain.{Network}
use stovacore.Blockchain.Methods.{Account, getwalletinfo, new_blockchain}

-- the number of requests made, and the global `_blockchain`
pub record Session : Type 0 where
  pub requests : ℕ
  pub blockchain : Option Account

module _ {F : Type 0} (net : Network F) (fuel waiting : ℕ)
    (default env_pastelid env_passphrase : String) where
  -- a wallet has both variables set, a masternode not
  unfoldable pub create_blockchain : Run ℕ Account
  create_blockchain =
      if not (str_eq env_pastelid "") && not (str_eq env_passphrase "")
      then new_blockchain net fuel waiting default env_pastelid env_passphrase
      else new_blockchain net fuel waiting default "" ""

  -- the exceptions after which the loop tries again
  unfoldable pub is_retried : Error → Bool
  is_retried connection_error = true
  is_retried json_rpc_exception = true
  is_retried e = false

  -- after `getwalletinfo`: the connection, or another round
  unfoldable pub connected : Account → Run ℕ Account → ℕ × Result (Obj F) → ℕ × Result Account
  unfolding is_retried
  connected account again (t, ok info) = (t, ok account)
  connected account again (t, err e) =
      let next = again t in if is_retried e then next else (t, err e)

  -- `connect_to_blockchain_daemon`, `rounds` times at most
  unfoldable pub connect_to_blockchain_daemon : ℕ → Run ℕ Account
  unfolding create_blockchain connected
  connect_to_blockchain_daemon zero t = (t, err out_of_fuel)
  connect_to_blockchain_daemon (suc rounds) t =
      (create_blockchain >>= λ account t'.
      connected account (connect_to_blockchain_daemon rounds) (getwalletinfo net fuel waiting t'))
        t

  unfoldable pub keep_connection : ℕ × Result Account → Session × Result Account
  keep_connection (t, ok account) = (record { requests = t; blockchain = some account }, ok account)
  keep_connection (t, err e) = (record { requests = t; blockchain = none }, err e)

  unfoldable pub lazily : ℕ → Option Account → ℕ → Session × Result Account
  unfolding keep_connection
  lazily rounds (some account) t = (record { requests = t; blockchain = some account }, ok account)
  lazily rounds none t = keep_connection (connect_to_blockchain_daemon rounds t)

  unfoldable pub get_blockchain_connection : ℕ → Run Session Account
  unfolding lazily
  get_blockchain_connection rounds s = lazily rounds s.blockchain s.requests

  unfoldable pub reset_blockchain_connection : Session → Session
  reset_blockchain_connection s = record s { blockchain = none }

  kept :
      (p : ℕ × Result Account) (s' : Session) (account : Account)
      → keep_connection p ≡ (s', ok account)
      → s'.blockchain ≡ some account
  unfolding keep_connection
  kept (t, err e) s' account h = absurd (refused (ap (λ x. x.1) h))
    where
      refused : Path (Result Account) (err e) (ok account) → ⊥
      refused k = cc
  kept (t, ok own) s' account h =
      ap (λ x. x.0.blockchain) (sym h) ∙ ap some (ok_inj (ap (λ x. x.1) h))

  has_connection :
      (rounds t : ℕ) (old : Option Account) (s' : Session) (account : Account)
      → lazily rounds old t ≡ (s', ok account)
      → s'.blockchain ≡ some account
  unfolding lazily
  has_connection rounds t none s' account h =
      kept (connect_to_blockchain_daemon rounds t) s' account h
  has_connection rounds t (some own) s' account h =
      ap (λ x. x.0.blockchain) (sym h) ∙ ap some (ok_inj (ap (λ x. x.1) h))

  -- After a connection was given, it is given again with no request and no change, whatever the
  -- bound on the rounds.
  pub get_blockchain_connection-again :
      (rounds more : ℕ) (s s' : Session) (account : Account)
      → get_blockchain_connection rounds s ≡ (s', ok account)
      → get_blockchain_connection more s' ≡ (s', ok account)
  unfolding get_blockchain_connection lazily
  get_blockchain_connection-again rounds more s s' account h =
      let e = has_connection rounds s.requests s.blockchain s' account h in again s'.blockchain e
    where
      again :
          (b : Option Account)
          → b ≡ some account
          → lazily more b s'.requests
            ≡ (record { requests = s'.requests; blockchain = b }, ok account)
      again none e = cc
      again (some own) e =
          ap (λ a. (record { requests = s'.requests; blockchain = some own }, ok a)) (some_inj e)
