-- ===== src/Ticketing/Closed.antt =====
-- After the second confirmation of a ticket `masternode_mn1_confirm` takes no other.
use stovacore.Prelude.{
  ℕ, suc, ◌≡◌, ◌≢◌, refl, sym, ap, ◌∙◌, inl, inr, Bool, true, false, ◌&&◌, Option, none, some, List,
  [], ◌∷◌, map, ltb, ◌==◌, ==_iff, String, str_eq, All, All-map, contains, IsSetList, length, arith,
  Bool-cases, if◌then◌else◌,
}
use stovacore.Prelude.Result.{ok, err, exception, ok_inj}
use stovacore.Prelude.Bytes.{Bytes}
use stovacore.Luby.Codec.{same_bytes}
use stovacore.Ticketing.{Regticket, Node, select_tickets, saved_over, save_regticket}
use stovacore.Ticketing.Burn.{Cnode}
use stovacore.Ticketing.Place.{Imaging}
use stovacore.Ticketing.Confirm.{
  masternode_mn1_confirm, confirm_ticket, confirmed_twice, second_confirmation, pick_ticket,
  last_of, is_sender_never,
}
use stovacore.Ticketing.Preserve.Confirmation.{second_confirmation-regtickets}
use stovacore.Ticketing.Rows.{pick-All}

abbrev pub ids : List Regticket → List ℕ
ids [] = []
ids (r ∷ rows) = r.id ∷ ids rows

-- `r` is the only row that has its id.
abbrev IsOnly : List Regticket → Regticket → Type 0
IsOnly rows r = All (λ q. r.id ≡ q.id → q ≡ r) rows

not_later :
    (x : Regticket) (rows : List Regticket)
    → contains x.id (ids rows) ≡ false
    → All (λ q. x.id ≢ q.id) rows
not_later x [] h = tt
not_later x (q ∷ rows) h = ground (arith, not_later x rows)

IsSetList-IsOnly : (rows : List Regticket) → IsSetList (ids rows) → All (IsOnly rows) rows
IsSetList-IsOnly [] h = tt
IsSetList-IsOnly (x ∷ rows) h =
    let away = not_later x rows h.0 in
    (
      (
        λ e. refl,
        All-map (λ q. x.id ≢ q.id) (λ q. x.id ≡ q.id → q ≡ x) rows (λ q n e. absurd (n e)) away,
      ),
      widen rows away (IsSetList-IsOnly rows h.1),
    )
  where
    widen :
        (qs : List Regticket)
        → All (λ q. x.id ≢ q.id) qs
        → All (IsOnly rows) qs
        → All (IsOnly (x ∷ rows)) qs
    widen [] a o = tt
    widen (q ∷ qs) a o = ((λ e. absurd (a.0 (sym e)), o.0), widen qs a.1 o.1)

abbrev has_key : String → Bytes → Regticket → Bool
has_key artist hash r = str_eq artist r.artist_pk && same_bytes hash r.image_hash

saved-key :
    (artist : String) (hash : Bytes) (old new q : Regticket)
    → new.id ≡ old.id
    → new.artist_pk ≡ old.artist_pk
    → new.image_hash ≡ old.image_hash
    → (old.id ≡ q.id → q ≡ old)
    → has_key artist hash (saved_over new q) ≡ has_key artist hash q
saved-key artist hash old new q e a k only = elim (Bool-cases (new.id == q.id)) [
  | inr differ ↦ rw differ refl
  | inl same ↦ rw (same, only (sym e ∙ (==_iff new.id q.id).0 same), a, k) refl
]

select_one :
    (f : Regticket → Regticket) (q : Regticket) (rest rest' : List Regticket) (w w' : Bool)
    → w' ≡ w
    → rest' ≡ map f rest
    → (if w' then f q ∷ rest' else rest') ≡ map f (if w then q ∷ rest else rest)
select_one f q rest rest' true w' e h = rw e (ap (λ qs. f q ∷ qs) h)
select_one f q rest rest' false w' e h = rw e h

-- Saving a row changes no key of the selection.
select-save :
    (artist : String) (hash : Bytes) (old new : Regticket) (rows : List Regticket)
    → new.id ≡ old.id
    → new.artist_pk ≡ old.artist_pk
    → new.image_hash ≡ old.image_hash
    → IsOnly rows old
    → select_tickets artist hash (save_regticket new rows)
      ≡ map (saved_over new) (select_tickets artist hash rows)
unfolding select_tickets save_regticket
select-save artist hash old new [] e a k h = refl
select-save artist hash old new (q ∷ rows) e a k h =
    select_one (saved_over new) q (select_tickets artist hash rows)
      (select_tickets artist hash (save_regticket new rows)) (has_key artist hash q)
      (has_key artist hash (saved_over new q)) (saved-key artist hash old new q e a k h.0)
      (select-save artist hash old new rows e a k h.1)

last_of-map :
    (f : Regticket → Regticket) (r : Regticket) (rows : List Regticket)
    → last_of (f r) (map f rows) ≡ f (last_of r rows)
unfolding last_of
last_of-map f r [] = refl
last_of-map f r (q ∷ rows) = last_of-map f q rows

length-map : (f : Regticket → Regticket) (rows : List Regticket) → length (map f rows) ≡ length rows
length-map f [] = refl
length-map f (r ∷ rows) = ap suc (length-map f rows)

pick-map :
    (f : Regticket → Regticket) (rows : List Regticket) (r : Regticket)
    → pick_ticket rows ≡ ok r
    → pick_ticket (map f rows) ≡ ok (f r)
unfolding pick_ticket
pick-map f [] r e = cc
pick-map f (q ∷ rows) r e = elim (Bool-cases (ltb 2 (length (q ∷ rows)))) [
  | inl many ↦
      rw (length-map f rows, many, last_of-map f q rows)
        (ap (λ x. ok (f x)) (ok_inj (rw many at e)))
  | inr few ↦ rw (length-map f rows, few) (ap (λ x. ok (f x)) (ok_inj (rw few at e)))
]

-- Saving the ticket that is picked, with the same key.
pub pick-save :
    (artist : String) (hash : Bytes) (old new : Regticket) (rows : List Regticket)
    → new.id ≡ old.id
    → new.artist_pk ≡ old.artist_pk
    → new.image_hash ≡ old.image_hash
    → IsSetList (ids rows)
    → pick_ticket (select_tickets artist hash rows) ≡ ok old
    → pick_ticket (select_tickets artist hash (save_regticket new rows)) ≡ ok new
pick-save artist hash old new rows e a k u p =
    let only = pick-All (IsOnly rows) artist hash rows old (IsSetList-IsOnly rows u) p in
    let itself : saved_over new old ≡ new = rw ((==_iff new.id old.id).1 e) refl in
    rw
      (
        select-save artist hash old new rows e a k only,
        pick-map (saved_over new) (select_tickets artist hash rows) old p,
        itself,
      )
      refl

module _ (im : Imaging) (fuel : ℕ) (cnode : Cnode) (blob : String → Bytes) where
  pub confirms_second :
      (artist : String) (hash : Bytes) (r : Regticket) (mn1 : Bool) (n : Node) (signature : Bytes)
      (sender : String)
      → pick_ticket (select_tickets artist hash n.regtickets) ≡ ok r
      → r.is_valid_mn1 ≡ some mn1
      → r.is_valid_mn2 ≡ none
      → masternode_mn1_confirm im fuel cnode blob artist hash signature sender n
        ≡ second_confirmation im fuel cnode blob r sender signature n
  unfolding masternode_mn1_confirm
  confirms_second artist hash r mn1 n signature sender p e₁ e₂ =
      rw p (second r.is_valid_mn1 r.is_valid_mn2 e₁ e₂)
    where
      second :
          (m₁ m₂ : Option Bool)
          → m₁ ≡ some mn1
          → m₂ ≡ none
          → confirm_ticket im fuel cnode blob m₁ m₂ r sender signature n
            ≡ second_confirmation im fuel cnode blob r sender signature n
      second m₁ m₂ f₁ f₂ = rw (f₁, f₂, is_sender_never blob r.mn1_pk sender) refl

  refuses :
      (artist : String) (hash : Bytes) (r : Regticket) (mn1 mn2 : Bool) (n : Node)
      (signature : Bytes) (sender : String)
      → pick_ticket (select_tickets artist hash n.regtickets) ≡ ok r
      → r.is_valid_mn1 ≡ some mn1
      → r.is_valid_mn2 ≡ some mn2
      → masternode_mn1_confirm im fuel cnode blob artist hash signature sender n
        ≡ (n, err exception)
  unfolding masternode_mn1_confirm
  refuses artist hash r mn1 mn2 n signature sender p e₁ e₂ =
      rw p (both r.is_valid_mn1 r.is_valid_mn2 e₁ e₂)
    where
      both :
          (m₁ m₂ : Option Bool)
          → m₁ ≡ some mn1
          → m₂ ≡ some mn2
          → confirm_ticket im fuel cnode blob m₁ m₂ r sender signature n ≡ (n, err exception)
      both m₁ m₂ f₁ f₂ = rw (f₁, f₂) refl

  -- What a second confirmation leaves of the ticket.
  pub pick-second :
      (artist : String) (hash : Bytes) (r : Regticket) (n : Node) (signature : Bytes)
      (sender : String)
      → IsSetList (ids n.regtickets)
      → pick_ticket (select_tickets artist hash n.regtickets) ≡ ok r
      → pick_ticket (
          select_tickets artist hash
            (second_confirmation im fuel cnode blob r sender signature n).0.regtickets)
        ≡ ok (confirmed_twice im fuel cnode blob r sender signature)
  pick-second artist hash r n signature sender u p =
      rw (second_confirmation-regtickets im fuel cnode blob r sender signature n) (
        pick-save artist hash r (confirmed_twice im fuel cnode blob r sender signature) n.regtickets
          refl refl refl u p)

  -- If the ids of the table are distinct and the ticket of an artist and an image has a first
  -- confirmation, not a second one: after one more confirmation, whatever it raised, the next one
  -- raises and changes nothing.
  pub confirm-closed :
      (artist : String) (hash : Bytes) (r : Regticket) (mn1 : Bool) (n : Node) (signature : Bytes)
      (sender : String) (later_signature : Bytes) (later_sender : String)
      → IsSetList (ids n.regtickets)
      → pick_ticket (select_tickets artist hash n.regtickets) ≡ ok r
      → r.is_valid_mn1 ≡ some mn1
      → r.is_valid_mn2 ≡ none
      → let n' = (masternode_mn1_confirm im fuel cnode blob artist hash signature sender n).0 in
        masternode_mn1_confirm im fuel cnode blob artist hash later_signature later_sender n'
        ≡ (n', err exception)
  confirm-closed artist hash r mn1 n signature sender later_signature later_sender u p e₁ e₂ =
      rw (confirms_second artist hash r mn1 n signature sender p e₁ e₂) (
        refuses artist hash (confirmed_twice im fuel cnode blob r sender signature) mn1 true
          (second_confirmation im fuel cnode blob r sender signature n).0 later_signature
          later_sender (pick-second artist hash r n signature sender u p) e₁ refl)
