-- ===== src/Ticketing/Upload.antt =====
-- The handlers of core_modules/masternode_ticketing.py that the wallet calls: the registration
-- request, the uploads, the burn transaction and the status.
--
-- `upload_code` and `created` are what uuid4 and the clock give; the image classifier is a
-- parameter. The arguments have the shape that the clients send.
use stovacore.Prelude.{ℕ, Bool, not, Option, some, List, String, str_eq}
use stovacore.Prelude.Result.{Result, guard, value_error}
use stovacore.Prelude.Run.{Run, return, call, modify, lookup_state, ◌>>=◌, ◌>>◌}
use stovacore.Prelude.Bytes.{Bytes}
use stovacore.Validators.Tickets.{require_true, validate_registration_ticket}
use stovacore.Ticketing.{Regticket, Node, save, new_regticket, create_regticket, next_id}
use stovacore.Ticketing.Models.{Wire, unserialize_registration_ticket, unserialize_signature}
use stovacore.Ticketing.Burn.{Cnode, is_burn_tx_valid}
use stovacore.Ticketing.Checks.{own_upload, validate_ticket_signature, known_upload, answer_payment}

unfoldable pub set_regtickets : List Regticket → Run Node (Unit {0})
set_regtickets rows = modify (λ n. record n { regtickets = rows })

module _ (w : Wire) (cnode : Cnode) where
  open cnode use {getlocalfee, getbestblockhash, block_height}

  unfoldable pub masternode_validate_registration_ticket :
      Bytes → ℕ → Bytes → Bytes → String → Run Node Bytes
  unfolding validate_ticket_signature set_regtickets
  masternode_validate_registration_ticket upload_code now serialized signature sender_id = do
    ticket ← call (unserialize_registration_ticket w serialized)
    signed ← call (unserialize_signature w signature)
    same ← call (require_true (str_eq signed.pastelid ticket.author))
    valid ← call (validate_ticket_signature w cnode ticket signed)
    checked ← call (
        validate_registration_ticket block_height getbestblockhash (record {
          lubyhashes = ticket.lubyhashes;
          lubyseeds = ticket.lubyseeds;
          order_block_txid = ticket.order_block_txid;
        }))
    rows ← lookup_state (λ n.
        create_regticket
          (new_regticket (next_id n.regtickets) serialized upload_code signature now sender_id
            ticket.imagedata_hash)
          n.regtickets)
    set_regtickets rows
    return upload_code

  unfoldable pub masternode_image_upload_request_mn0 : Bytes → Bytes → String → Run Node ℕ
  unfolding own_upload save
  masternode_image_upload_request_mn0 upload_code image_data sender_id = do
    r ← lookup_state (λ n. own_upload w cnode sender_id upload_code n.regtickets)
    fee ← call getlocalfee
    save (record r { image_data = some image_data; localfee = some fee })
    return fee

  -- The handler returns nothing.
  unfoldable pub masternode_image_upload_request : Bytes → Bytes → String → Run Node (Unit {0})
  unfolding own_upload save
  masternode_image_upload_request upload_code image_data sender_id = do
    r ← lookup_state (λ n. own_upload w cnode sender_id upload_code n.regtickets)
    save (record r { image_data = some image_data })

  module _ (meanwhile : ℕ → Node → Node) (is_nsfw : Option Bytes → Result Bool) where
    unfoldable pub masternode_validate_txid_upload_code_image : ℕ → String → Bytes → Run Node String
    unfolding known_upload answer_payment
    masternode_validate_txid_upload_code_image fuel burn_10_txid upload_code = do
      r ← lookup_state (λ n. known_upload upload_code n.regtickets)
      is_valid ← is_burn_tx_valid w cnode meanwhile fuel r burn_10_txid
      paid ← call (guard is_valid value_error)
      ticket ← call (unserialize_registration_ticket w r.regticket)
      nsfw ← call (is_nsfw r.image_data)
      allowed ← call (guard (not nsfw) value_error)
      call (answer_payment w cnode ticket r.localfee)
