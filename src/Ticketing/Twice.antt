-- ===== src/Ticketing/Twice.antt =====
-- One masternode that confirms a ticket twice to `masternode_mn1_confirm` of
-- core_modules/masternode_ticketing.py.
use stovacore.Prelude.{
  ℕ, ◌≡◌, refl, Bool, true, Option, none, some, List, [], ◌∷◌, String, IsSetList, ◌==◌, ==_iff,
  Bool-cases, inl, inr, ap,
}
use stovacore.Prelude.Result.{ok}
use stovacore.Prelude.Bytes.{Bytes}
use stovacore.Ticketing.{Regticket, Node, select_tickets, save_regticket}
use stovacore.Ticketing.Burn.{Cnode}
use stovacore.Ticketing.Place.{Imaging}
use stovacore.Ticketing.Confirm.{
  masternode_mn1_confirm, confirm_ticket, confirmed_twice, pick_ticket,
}
use stovacore.Ticketing.Closed.{ids, pick-save, pick-second, confirms_second}

ids-save : (new : Regticket) (rows : List Regticket) → ids (save_regticket new rows) ≡ ids rows
unfolding save_regticket
ids-save new [] = refl
ids-save new (r ∷ rows) = elim (Bool-cases (new.id == r.id)) [
  | inl same ↦
      let e : new.id ≡ r.id = (==_iff new.id r.id).0 same in
      rw (same, ids-save new rows) (ap (λ i. i ∷ ids rows) e)
  | inr differ ↦ rw (differ, ids-save new rows) refl
]

module _ (im : Imaging) (fuel : ℕ) (cnode : Cnode) (blob : String → Bytes) where
  -- The ticket has both confirmations, and both are `sender`'s.
  pub record IsConfirmedTwice (artist : String) (hash : Bytes) (sender : String) (n : Node)
      : Type 0 where
    pub row : Regticket
    pub picked : pick_ticket (select_tickets artist hash n.regtickets) ≡ ok row
    pub first_valid : row.is_valid_mn1 ≡ some true
    pub second_valid : row.is_valid_mn2 ≡ some true
    pub first_sender : row.mn1_pk ≡ some sender
    pub second_sender : row.mn2_pk ≡ some sender

  abbrev confirmed_first : Regticket → String → Bytes → Regticket
  confirmed_first r sender signature = record r {
    is_valid_mn1 = some true;
    mn1_pk = some sender;
    mn1_serialized_signature = some signature;
  }

  confirms_first :
      (artist : String) (hash : Bytes) (r : Regticket) (n : Node) (signature : Bytes)
      (sender : String)
      → pick_ticket (select_tickets artist hash n.regtickets) ≡ ok r
      → r.is_valid_mn1 ≡ none
      → (masternode_mn1_confirm im fuel cnode blob artist hash signature sender n).0
        ≡ record n { regtickets = save_regticket (confirmed_first r sender signature) n.regtickets }
  unfolding masternode_mn1_confirm
  confirms_first artist hash r n signature sender p e = rw p (first r.is_valid_mn1 e)
    where
      first :
          (m : Option Bool)
          → m ≡ none
          → (confirm_ticket im fuel cnode blob m r.is_valid_mn2 r sender signature n).0 ≡ record n {
            regtickets = save_regticket (confirmed_first r sender signature) n.regtickets;
          }
      first m f = rw f refl

  -- If the ids of the table are distinct and a ticket has no confirmation, two confirmations of one
  -- sender leave it confirmed twice, by this sender both times, whatever placing and writing raise.
  pub confirm-IsConfirmedTwice :
      (artist : String) (hash : Bytes) (r : Regticket) (n : Node) (signature : Bytes)
      (sender : String) (again_signature : Bytes)
      → IsSetList (ids n.regtickets)
      → pick_ticket (select_tickets artist hash n.regtickets) ≡ ok r
      → r.is_valid_mn1 ≡ none
      → r.is_valid_mn2 ≡ none
      → IsConfirmedTwice artist hash sender
          (masternode_mn1_confirm im fuel cnode blob artist hash again_signature sender
            (masternode_mn1_confirm im fuel cnode blob artist hash signature sender n).0).0
  confirm-IsConfirmedTwice artist hash r n signature sender again_signature u p e₁ e₂ =
      let once = confirmed_first r sender signature in
      let n₁ : Node = record n { regtickets = save_regticket once n.regtickets } in
      let p₁ : pick_ticket (select_tickets artist hash n₁.regtickets) ≡ ok once =
        pick-save artist hash r once n.regtickets refl refl refl u p in
      let u₁ : IsSetList (ids n₁.regtickets) = rw (ids-save once n.regtickets) u in
      rw
        (
          confirms_first artist hash r n signature sender p e₁,
          confirms_second im fuel cnode blob artist hash once true n₁ again_signature sender p₁ refl
              e₂,
        )
        (record {
          row = confirmed_twice im fuel cnode blob once sender again_signature;
          picked = pick-second im fuel cnode blob artist hash once n₁ again_signature sender u₁ p₁;
          first_valid = refl;
          second_valid = refl;
          first_sender = refl;
          second_sender = refl;
        })
