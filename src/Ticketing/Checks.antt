-- ===== src/Ticketing/Checks.antt =====
-- The steps of the handlers in core_modules/masternode_ticketing.py that change nothing.
use stovacore.Prelude.{ℕ, Option, none, some, List, [], ◌∷◌, String, str_eq, if◌then◌else◌}
use stovacore.Prelude.Result.{
  Result, ok, err, exception, value_error, type_error, index_error, ◌>>=◌,
}
use stovacore.Prelude.Bytes.{Bytes}
use stovacore.Validators.Tickets.{validate_signature}
use stovacore.Ordering.{RpcClient, get_masternode_ordering}
use stovacore.Ticketing.{Regticket, Status, get_by_code, get_own}
use stovacore.Ticketing.Models.{
  Wire, Signature, RegistrationTicket, unserialize_registration_ticket, serialize_base64,
}
use stovacore.Ticketing.Burn.{Cnode}

-- `[0]`
unfoldable pub first_client : List RpcClient → Result RpcClient
first_client [] = err index_error
first_client (client ∷ clients) = ok client

-- `Regticket.get(...)`, whose DoesNotExist becomes a ValueError
unfoldable pub known_upload : Bytes → List Regticket → Result Regticket
known_upload upload_code rows = elim (get_by_code upload_code rows) [
  | ok r ↦ ok r
  | err e ↦ err value_error
]

module _ (w : Wire) (cnode : Cnode) where
  open cnode use {pastelid, pastelid_sign, pastelid_verify, masternode_top}

  -- `signed_regticket.validate(regticket)`
  unfoldable pub validate_ticket_signature : RegistrationTicket → Signature → Result (Unit {0})
  validate_ticket_signature ticket s =
      validate_signature pastelid_verify (serialize_base64 w ticket) s.signature s.pastelid

  -- the row of the upload code, if its ticket is the sender's
  unfoldable pub own_upload : String → Bytes → List Regticket → Result Regticket
  own_upload sender_id upload_code rows = do
    r ← get_by_code upload_code rows
    ticket ← unserialize_registration_ticket w r.regticket
    if str_eq ticket.author sender_id then ok r else err exception

  -- Its first parameter is called `self` and has no use.
  unfoldable pub generate_signed_ticket : {A : Type 0} → A → RegistrationTicket → Result Signature
  unfolding validate_ticket_signature
  generate_signed_ticket self ticket = do
    signature ← pastelid_sign (serialize_base64 w ticket)
    let signed_ticket : Signature = record { signature = signature; pastelid = pastelid }
    valid ← validate_ticket_signature ticket signed_ticket
    ok signed_ticket

  -- `generate_signed_ticket(regticket)`: an argument is missing, so the call raises before the
  -- confirmation is sent to `mn0`.
  unfoldable pub confirm_at_mn0 : RegistrationTicket → Result String
  unfolding first_client
  confirm_at_mn0 ticket = do
    workers ← masternode_top ticket.blocknum
    clients ← get_masternode_ordering workers
    mn0 ← first_client clients
    err type_error

  -- the end of `masternode_validate_txid_upload_code_image`: on MN1 and MN2, which have no local
  -- fee, the confirmation, and on MN0 the answer
  unfoldable pub answer_payment : RegistrationTicket → Option ℕ → Result String
  unfolding confirm_at_mn0
  answer_payment ticket none = confirm_at_mn0 ticket
  answer_payment ticket (some localfee) = ok "Validation passed"

  unfoldable pub status_of : Regticket → Status × Option String
  status_of r = (r.status, r.error)

  unfoldable pub regticket_status :
      Bytes → String → List Regticket → Result (Status × Option String)
  unfolding get_own status_of
  regticket_status upload_code sender_id rows = elim (get_own sender_id upload_code rows) [
    | ok r ↦ ok (status_of r)
    | err e ↦ err exception
  ]
