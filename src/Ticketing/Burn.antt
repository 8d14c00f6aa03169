-- ===== src/Ticketing/Burn.antt =====
-- The checks of the burn transaction in core_modules/masternode_ticketing.py.
--
-- cNode is a parameter: what its calls answer, `getrawtransaction` by the number of the call, so
-- that it can answer later what it could not at first. Amounts are in units of 10^-8; the
-- comparison of one with a multiple of the network fee is of Python's floats and a parameter.
-- While a loop sleeps other handlers run: what they do after a call is the parameter `meanwhile`. Both retry
-- loops run on fuel, one unit a call.
use stovacore.Prelude.{
  ℕ, zero, suc, ◌*◌, Bool, true, false, ◌&&◌, ◌||◌, Option, none, some, List, [], ◌∷◌, String, ltb,
  leb, if◌then◌else◌,
}
use stovacore.Prelude.Result.{Result, ok, err, type_error, out_of_fuel}
use stovacore.Prelude.Run.{Run, return, raise, call, modify, ◌>>=◌, ◌>>◌}
use stovacore.Ordering.{WorkerNode}
use stovacore.Ticketing.{Regticket, Node, save, ArtTicketData}
use stovacore.Ticketing.Models.{Wire, RegistrationTicket, unserialize_registration_ticket}

pub record RawTransaction : Type 0 where
  pub expiryheight : ℕ
  pub vout : List ℕ

-- What cNode and the floats answer.
pub record Cnode : Type 1 where
  pub getrawtransaction : ℕ → String → Result (Option RawTransaction)
  pub getnetworkfee : Result ℕ
  pub getlocalfee : Result ℕ
  pub getblockcount : Result ℕ
  pub getbestblockhash : Result String
  pub block_height : String → Result ℕ
  pub pastelid : String
  pub pastelid_sign : String → Result String
  pub pastelid_verify : String → String → String → Result Bool
  pub masternode_top : ℕ → Result (List WorkerNode)
  pub register_art_ticket : ArtTicketData → Result String
  pub Float : Type 0
  pub times_float : ℕ → String → Float
  pub float_le : Float → ℕ → Bool
  pub le_float : ℕ → Float → Bool

-- the answer of the loop, and the number of the next call
abbrev pub Answer : Type 0
Answer = Option RawTransaction × ℕ

-- `regticket.localfee * Decimal('0.099') <= tx_amount <= regticket.localfee * Decimal('0.101')`
unfoldable pub near_local_fee : ℕ → ℕ → Bool
near_local_fee localfee amount =
    leb (localfee * 99) (amount * 1000) && leb (amount * 1000) (localfee * 101)

-- the loop that stops at the first amount that is valid
unfoldable pub some_amount : (ℕ → Bool) → List ℕ → Bool
some_amount valid [] = false
some_amount valid (amount ∷ amounts) = valid amount || some_amount valid amounts

-- what a check returns
pub data Verdict : Type 0 where
  passed failed : Verdict

module _ (w : Wire) (cnode : Cnode) (meanwhile : ℕ → Node → Node) where
  open cnode use {getrawtransaction, getnetworkfee, times_float, float_le, le_float}

  -- The loop `while True`. `sleep_counter` is 0 at every test, so no exception leaves it.
  unfoldable pub fetch_transaction : ℕ → ℕ → String → Run Node Answer
  fetch_transaction zero called txid = raise out_of_fuel
  fetch_transaction (suc fuel) called txid =
      let again = fetch_transaction fuel (suc called) txid in
      elim (getrawtransaction called txid) [
        | ok raw_tx_data ↦ return (raw_tx_data, suc called)
        | err e ↦ modify (meanwhile called) >> again
      ]

  unfoldable pub check_height : RegistrationTicket → Answer → Verdict × ℕ
  check_height ticket (none, called) = (failed, called)
  check_height ticket (some raw, called) =
      (if ltb raw.expiryheight ticket.blocknum then failed else passed, called)

  unfoldable pub is_burn_10_tx_height_valid : ℕ → ℕ → Regticket → String → Run Node (Verdict × ℕ)
  unfolding fetch_transaction check_height
  is_burn_10_tx_height_valid fuel called r txid = do
    ticket ← call (unserialize_registration_ticket w r.regticket)
    answer ← fetch_transaction fuel called txid
    return (check_height ticket answer)

  unfoldable pub near_network_fee : ℕ → ℕ → Bool
  near_network_fee networkfee amount =
      float_le (times_float networkfee "0.09") amount
      && le_float amount (times_float networkfee "0.11")

  -- the check of the amounts: with a local fee this is MN0, and a valid amount is saved
  unfoldable pub check_amounts : ℕ → List ℕ → Regticket → Option ℕ → Run Node Verdict
  unfolding near_local_fee some_amount near_network_fee save
  check_amounts networkfee amounts r (some localfee) =
      if some_amount (near_local_fee localfee) amounts
      then (do save (record r { is_valid_mn0 = some true }); return passed)
      else return failed
  check_amounts networkfee amounts r none =
      return (if some_amount (near_network_fee networkfee) amounts then passed else failed)

  -- `raw_tx_data['vout']`, which no answer has
  unfoldable pub vout_of : Option RawTransaction → Result (List ℕ)
  vout_of none = err type_error
  vout_of (some raw) = ok raw.vout

  unfoldable pub is_burn_10_tx_amount_valid : ℕ → ℕ → Regticket → String → Run Node Verdict
  unfolding fetch_transaction check_amounts vout_of
  is_burn_10_tx_amount_valid fuel called r txid = do
    networkfee ← call getnetworkfee
    (raw, next) ← fetch_transaction fuel called txid
    amounts ← call (vout_of raw)
    check_amounts networkfee amounts r r.localfee

  unfoldable pub both_passed : Verdict → Verdict → Bool
  both_passed passed passed = true
  both_passed passed failed = false
  both_passed failed v = false

  -- `regticket.delete()` only makes a query, which nothing executes.
  unfoldable pub is_burn_tx_valid : ℕ → Regticket → String → Run Node Bool
  unfolding is_burn_10_tx_height_valid is_burn_10_tx_amount_valid both_passed
  is_burn_tx_valid fuel r txid = do
    (is_valid_height, called) ← is_burn_10_tx_height_valid fuel 0 r txid
    is_valid_amount ← is_burn_10_tx_amount_valid fuel called r txid
    return (both_passed is_valid_height is_valid_amount)
