-- ===== src/Wallet/Register.antt =====
-- What the success of `image_registration_step_3` in wallet/pastel_client.py rests on.
use stovacore.Prelude.{ℕ, ◌≡◌, ap, ◌∙◌, Bool, true, false, Option, some, List, if◌then◌else◌}
use stovacore.Prelude.Result.{Result, ok}
use stovacore.Prelude.Run.{return, step-eq-ok, query-eq-ok}
use stovacore.Ordering.{RpcClient, get_masternode_ordering}
use stovacore.Rpc.{Obj, Msgpack}
use stovacore.Wallet.{RegticketDb, get_row, three_clients, Outcome, success, save_row}
use stovacore.Wallet.Finish.{finish, IsRegistered, finish-IsRegistered}
use stovacore.Wallet.Sent.{AreSent, send_regticket-AreSent}
use stovacore.Wallet.Steps.{
  World, Step3, sent, not_sent, amount_of, send_to_address, send_txid_10_req_to_mn,
  send_regticket_to_mn2_mn3, burn_and_confirm, image_registration_step_3,
}

module _ (lib : Msgpack) (w : World lib) where
  open lib use {Float}

  -- A row of the id, the burn for its fee, and the answers of the three masternodes of its block.
  pub record IsConfirmed (id : ℕ) (rows : List (RegticketDb Float)) (txid : Obj Float)
      (fee : Option (Obj Float)) (blocknum : ℕ) : Type 0 where
    pub row : RegticketDb Float
    pub is_row : get_row id rows ≡ ok row
    pub same_fee : row.worker_fee ≡ fee
    pub same_block : row.blocknum ≡ blocknum
    pub amount : Obj Float
    pub due : amount_of lib w row.worker_fee ≡ ok amount
    pub burn : Obj Float
    pub burnt : send_to_address lib w amount ≡ ok burn
    pub clients : List RpcClient
    pub listed : get_masternode_ordering (w.workers (some row.blocknum)) ≡ ok clients
    pub mn0 : RpcClient
    pub mn1 : RpcClient
    pub mn2 : RpcClient
    pub first_three : three_clients clients ≡ ok (mn0, mn1, mn2)
    pub registered :
        IsRegistered w.in_text
          (send_txid_10_req_to_mn lib w mn0 burn row.upload_code_mn0)
          (send_txid_10_req_to_mn lib w mn1 burn row.upload_code_mn1)
          (send_txid_10_req_to_mn lib w mn2 burn row.upload_code_mn2)
          txid

  sent_inj :
      {s s' : List (RegticketDb Float)} {o o' : Outcome Float} {f f' : Option (Obj Float)}
      {b b' : ℕ}
      → Path
          (List (RegticketDb Float) × Result (Step3 Float))
          (s, ok (sent o f b))
          (s', ok (sent o' f' b'))
      → (o ≡ o') × (f ≡ f') × (b ≡ b')
  sent_inj h = (cc, cc, cc)

  burn_and_confirm-IsConfirmed :
      (id : ℕ) (rows rows' : List (RegticketDb Float)) (txid : Obj Float) (fee : Option (Obj Float))
      (blocknum : ℕ)
      → burn_and_confirm lib w id rows ≡ (rows', ok (sent (success txid) fee blocknum))
      → IsConfirmed id rows txid fee blocknum
  unfolding burn_and_confirm save_row
  burn_and_confirm-IsConfirmed id rows rows' txid fee blocknum h =
      let (row, e₁, h₁) = query-eq-ok rows (get_row id rows) _ h in
      let (amount, e₂, h₂) = query-eq-ok rows (amount_of lib w row.worker_fee) _ h₁ in
      let (burn, e₃, h₃) = query-eq-ok rows (send_to_address lib w amount) _ h₂ in
      let (column, e₄, h₄) = query-eq-ok rows (w.to_char burn) _ h₃ in
      let saved = (save_row (record row { burn_tx_id = some column }) rows).0 in
      let (clients, e₆, h₆) =
        query-eq-ok saved (get_masternode_ordering (w.workers (some row.blocknum))) _ h₄ in
      let ((mn0, mn1, mn2), e₇, h₇) = query-eq-ok saved (three_clients clients) _ h₆ in
      let (outcome, e₈, h₈) =
        query-eq-ok saved
          (finish w.in_text (send_txid_10_req_to_mn lib w mn0 burn row.upload_code_mn0)
            (send_txid_10_req_to_mn lib w mn1 burn row.upload_code_mn1)
            (send_txid_10_req_to_mn lib w mn2 burn row.upload_code_mn2))
          _ h₇ in
      let (same_outcome, same_fee, same_block) = sent_inj h₈ in
      record {
        row = row;
        is_row = e₁;
        same_fee = same_fee;
        same_block = same_block;
        amount = amount;
        due = e₂;
        burn = burn;
        burnt = e₃;
        clients = clients;
        listed = e₆;
        mn0 = mn0;
        mn1 = mn1;
        mn2 = mn2;
        first_three = e₇;
        registered = finish-IsRegistered w.in_text _ _ _ txid (e₈ ∙ ap ok same_outcome);
      }

  -- If step 3 reports success with a txid, a fee and a block: MN1 and MN2 each gave an upload code
  -- for the ticket and their request with the image raised nothing; the row of the ticket that this
  -- left holds the fee and the block, the burn of its tenth gave a txid or the text of an error, and
  -- no request with it to the first three masternodes of the block raised, where an unreadable reply
  -- counts as None, and the reply of MN1 or MN2 is a dictionary that holds the txid.
  pub image_registration_step_3-IsConfirmed :
      (id : ℕ) (rows rows' : List (RegticketDb Float)) (txid : Obj Float) (fee : Option (Obj Float))
      (blocknum : ℕ)
      → image_registration_step_3 lib w id rows ≡ (rows', ok (sent (success txid) fee blocknum))
      → (between : List (RegticketDb Float)) × (send_regticket_to_mn2_mn3 lib w id rows
          ≡ (between, ok true))
        × AreSent lib w id rows
        × IsConfirmed id between txid fee blocknum
  unfolding image_registration_step_3
  image_registration_step_3-IsConfirmed id rows rows' txid fee blocknum h =
      let (between, both, e, k) = step-eq-ok (send_regticket_to_mn2_mn3 lib w id rows) _ h in
      on_both between both e k
    where
      on_both :
          (between : List (RegticketDb Float)) (both : Bool)
          → send_regticket_to_mn2_mn3 lib w id rows ≡ (between, ok both)
          → (if both then burn_and_confirm lib w id else return not_sent) between
            ≡ (rows', ok (sent (success txid) fee blocknum))
          → (between : List (RegticketDb Float)) × (send_regticket_to_mn2_mn3 lib w id rows
              ≡ (between, ok true))
            × AreSent lib w id rows
            × IsConfirmed id between txid fee blocknum
      on_both between true e k = (
        between,
        e,
        send_regticket-AreSent lib w id rows between e,
        burn_and_confirm-IsConfirmed id between rows' txid fee blocknum k,
      )
      on_both between false e k = cc
