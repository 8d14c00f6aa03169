-- ===== src/Ticketing/Ownership.antt =====
-- Who may upload an image for a registration, and what the request of a registration checks.
use mathlib.Core.Path.{Path}
use stovacore.Prelude.{
  ℕ, ◌≡◌, refl, sym, ap, ◌∙◌, inl, inr, Bool, true, false, some, List, [], ◌∷◌, ◌++◌, String,
  str_eq, eq_iff, Bool-cases, if◌then◌else◌,
}
use stovacore.Prelude.Result.{
  Result, ok, err, exception, assertion_error, value_error, integrity_error, Result-cases, ok_inj,
  >>=-eq-ok,
}
use stovacore.Prelude.Run.{query_outcome}
use stovacore.Prelude.Bytes.{Bytes}
use stovacore.Validators.Tickets.{require_true, validate_registration_ticket, validate_signature}
use stovacore.Ticketing.{
  Regticket, Node, get_by_code, save_regticket, save, new_regticket, next_id, create_regticket,
}
use stovacore.Ticketing.Models.{
  Wire, RegistrationTicket, Signature, unserialize_registration_ticket, unserialize_signature,
  serialize_base64,
}
use stovacore.Ticketing.Burn.{Cnode}
use stovacore.Ticketing.Checks.{own_upload, validate_ticket_signature}
use stovacore.Ticketing.Upload.{
  masternode_image_upload_request_mn0, masternode_validate_registration_ticket, set_regtickets,
}

module _ (w : Wire) (cnode : Cnode) where
  -- The row of the upload code, whose ticket has the sender as its author.
  pub record IsOwn (sender : String) (code : Bytes) (rows : List Regticket) (r : Regticket)
      : Type 0 where
    pub found : get_by_code code rows ≡ ok r
    pub ticket : RegistrationTicket
    pub parsed : unserialize_registration_ticket w r.regticket ≡ ok ticket
    pub same_author : ticket.author ≡ sender

  own_upload-IsOwn :
      (sender : String) (code : Bytes) (rows : List Regticket) (r : Regticket)
      → own_upload w cnode sender code rows ≡ ok r
      → IsOwn sender code rows r
  unfolding own_upload
  own_upload-IsOwn sender code rows r e =
      let (q, found, e₁) = >>=-eq-ok (get_by_code code rows) _ e in
      let (ticket, parsed, e₂) = >>=-eq-ok (unserialize_registration_ticket w q.regticket) _ e₁ in
      elim (Bool-cases (str_eq ticket.author sender)) [
        | inl same ↦
            let here : q ≡ r = ok_inj (rw same at e₂) in
            record {
              found = found ∙ ap ok here;
              ticket = ticket;
              parsed = rw (← here) parsed;
              same_author = (eq_iff _ _).0 same;
            }
        | inr other ↦ absurd (refused (rw other at e₂))
      ]
    where
      refused : err exception ≡ ok r → ⊥
      refused k = cc

  -- An upload to MN0: it raises and changes nothing, or the sender is the author of the ticket of
  -- the upload code, and its row gets the image and the fee of the node, which is returned.
  abbrev pub Uploads : String → Bytes → Bytes → Node → Node × Result ℕ → Type 0
  Uploads sender code image n (n', err e) = n' ≡ n
  Uploads sender code image n (n', ok fee) =
      (cnode.getlocalfee ≡ ok fee)
      × ((r : Regticket) × IsOwn sender code n.regtickets r
          × (n' ≡ record n {
            regtickets =
                save_regticket (record r { image_data = some image; localfee = some fee })
                  n.regtickets;
          }))

  -- An upload to MN0 raises and changes nothing, or the sender is the author of the ticket of the
  -- upload code, and its row gets the image and the fee of the node, which is returned.
  pub image_upload-Uploads :
      (sender : String) (code image : Bytes) (n : Node)
      → Uploads sender code image n
          (masternode_image_upload_request_mn0 w cnode code image sender n)
  unfolding masternode_image_upload_request_mn0 save
  image_upload-Uploads sender code image n =
      let Out = Uploads sender code image n in
      query_outcome Out n (own_upload w cnode sender code n.regtickets) _ (λ e missing. refl)
        λ r owned.
          query_outcome Out n cnode.getlocalfee _ (λ e unknown. refl)
            λ fee known. (known, (r, own_upload-IsOwn sender code n.regtickets r owned, refl))

  -- A registration request: it raises and changes nothing, or the ticket and the signature parse,
  -- the signer is the author, cNode verifies the signature of the package, the ticket is valid,
  -- and exactly one row is added, for the sender and under the new upload code.
  abbrev pub Registers : Bytes → ℕ → Bytes → Bytes → String → Node → Node × Result Bytes → Type 0
  Registers code now packed signature sender n (n', err e) = n' ≡ n
  Registers code now packed signature sender n (n', ok code') =
      (code' ≡ code)
      × ((ticket : RegistrationTicket) × (signed : Signature) × (unserialize_registration_ticket w
              packed
            ≡ ok ticket)
          × (unserialize_signature w signature ≡ ok signed)
          × (signed.pastelid ≡ ticket.author)
          × (cnode.pastelid_verify (serialize_base64 w ticket) signed.signature signed.pastelid
              ≡ ok true)
          × (validate_registration_ticket cnode.block_height cnode.getbestblockhash (record {
            lubyhashes = ticket.lubyhashes;
            lubyseeds = ticket.lubyseeds;
            order_block_txid = ticket.order_block_txid;
          })
              ≡ ok tt)
          × (n' ≡ record n {
            regtickets =
                n.regtickets
                ++ new_regticket (next_id n.regtickets) packed code signature now sender
                    ticket.imagedata_hash
                  ∷ [];
          }))

  signed_by : (pk author : String) → require_true (str_eq pk author) ≡ ok tt → pk ≡ author
  unfolding require_true
  signed_by pk author h = elim (Bool-cases (str_eq pk author)) [
    | inl same ↦ (eq_iff _ _).0 same
    | inr other ↦ absurd (refused (rw (other, require_true) at h))
  ]
    where
      refused : Path (Result (Unit {0})) (err assertion_error) (ok tt) → ⊥
      refused k = cc

  verified :
      (ticket : RegistrationTicket) (signed : Signature)
      → validate_ticket_signature w cnode ticket signed ≡ ok tt
      → cnode.pastelid_verify (serialize_base64 w ticket) signed.signature signed.pastelid ≡ ok true
  unfolding validate_ticket_signature validate_signature
  verified ticket signed h =
      let (valid, e, k) =
        >>=-eq-ok
          (cnode.pastelid_verify (serialize_base64 w ticket) signed.signature signed.pastelid) _
          h in
      e ∙ ap ok (accepted valid k)
    where
      accepted :
          (b : Bool)
          → Path (Result (Unit {0})) (if b then ok tt else err value_error) (ok tt)
          → b ≡ true
      accepted true k = refl
      accepted false k = cc

  created :
      (new : Regticket) (rows rows' : List Regticket)
      → create_regticket new rows ≡ ok rows'
      → rows' ≡ rows ++ new ∷ []
  unfolding create_regticket
  created new rows rows' h = elim (Result-cases (get_by_code new.upload_code rows)) [
    | inl (x, free) ↦ sym (ok_inj (rw (free, create_regticket) at h))
    | inr (old, taken) ↦ absurd (refused (rw (taken, create_regticket) at h))
  ]
    where
      refused : Path (Result (List Regticket)) (err integrity_error) (ok rows') → ⊥
      refused k = cc

  -- A registration request raises and changes nothing, or the ticket and its signature are those of
  -- its author, the ticket is valid, and exactly its row is added, under the upload code returned.
  pub registration-Registers :
      (code : Bytes) (now : ℕ) (packed signature : Bytes) (sender : String) (n : Node)
      → Registers code now packed signature sender n
          (masternode_validate_registration_ticket w cnode code now packed signature sender n)
  unfolding masternode_validate_registration_ticket set_regtickets
  registration-Registers code now packed signature sender n =
      let Out = Registers code now packed signature sender n in
      query_outcome Out n (unserialize_registration_ticket w packed) _ (λ e k. refl)
        λ ticket e₁.
          query_outcome Out n (unserialize_signature w signature) _ (λ e k. refl)
            λ signed e₂.
              query_outcome Out n (require_true (str_eq signed.pastelid ticket.author)) _
                (λ e k. refl)
                λ same e₃.
                  query_outcome Out n (validate_ticket_signature w cnode ticket signed) _
                    (λ e k. refl)
                    λ valid e₄.
                      query_outcome Out n (validate_registration_ticket _ _ _) _ (λ e k. refl)
                        λ checked e₅.
                          let new =
                            new_regticket (next_id n.regtickets) packed code signature now sender
                              ticket.imagedata_hash in
                          query_outcome Out n (create_regticket new n.regtickets) _ (λ e k. refl)
                            λ rows made. (
                              refl,
                              (
                                ticket,
                                signed,
                                e₁,
                                e₂,
                                signed_by signed.pastelid ticket.author e₃,
                                verified ticket signed e₄,
                                e₅,
                                ap (λ x. record n { regtickets = x })
                                    (created new n.regtickets rows made),
                              ),
                            )
