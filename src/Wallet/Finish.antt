-- ===== src/Wallet/Finish.antt =====
-- The end of `image_registration_step_3` in wallet/pastel_client.py: what it makes of the three
-- answers.
use stovacore.Prelude.{◌≡◌, ◌≢◌, refl, ◌∙◌, inl, inr, ◌⊎◌, Bool, true, false, String, if◌then◌else◌}
use stovacore.Prelude.Result.{Result, ok, ◌>>=◌, >>=-eq-ok}
use stovacore.Rpc.{Obj, dict_obj, get_item, Items}
use stovacore.Wallet.{
  Response, answered, failed, raised, succeeded, has_txid, txid_of, Outcome, success, error,
}

module _ {F : Type 0} (in_text : String → Bool) where
  -- a txid that is read and returned
  unfoldable pub returned : Obj F → Result (Outcome F)
  unfolding txid_of
  returned v = do txid ← txid_of v; ok (success txid)

  -- the txid of the answer of MN1, else of MN2
  unfoldable pub found_txid : Obj F → Obj F → Result (Outcome F)
  unfolding has_txid returned
  found_txid v1 v2 = do
    in_first ← has_txid in_text v1
    if in_first
        then returned v1
        else (do in_second ← has_txid in_text v2; if in_second then returned v2 else ok error)

  -- The value is a dictionary that holds the txid.
  pub IsHeld : Obj F → Obj F → Type 0
  IsHeld v txid = (items : Items F) × (v ≡ dict_obj items) × (get_item "txid" items ≡ ok txid)

  -- the details of an error, for which each response is looked at
  unfoldable pub error_details : Response F → Response F → Response F → Result (Outcome F)
  unfolding succeeded
  error_details mn0 mn1 mn2 = do
    first ← succeeded mn0
    second ← succeeded mn1
    third ← succeeded mn2
    ok error

  -- unless all three succeeded, each response is looked at again
  unfoldable pub finish : Response F → Response F → Response F → Result (Outcome F)
  unfolding found_txid error_details
  finish (answered v0) (answered v1) (answered v2) = found_txid v1 v2
  finish mn0 mn1 mn2 = error_details mn0 mn1 mn2

  -- All three answered, and the answer of the second, or else of the third, is a dictionary that
  -- holds the txid.
  pub record IsRegistered (mn0 mn1 mn2 : Response F) (txid : Obj F) : Type 0 where
    pub first : Obj F
    pub second : Obj F
    pub third : Obj F
    pub first_answered : mn0 ≡ answered first
    pub second_answered : mn1 ≡ answered second
    pub third_answered : mn2 ≡ answered third
    pub found : IsHeld second txid ⊎ IsHeld third txid

  IsHeld-txid_of : (v txid : Obj F) → txid_of v ≡ ok txid → IsHeld v txid
  unfolding txid_of IsHeld
  IsHeld-txid_of (dict_obj items) txid h = (items, refl, h)
  IsHeld-txid_of v txid h = cc

  error_details-fails :
      (mn0 mn1 mn2 : Response F) (txid : Obj F) → error_details mn0 mn1 mn2 ≢ ok (success txid)
  unfolding error_details
  error_details-fails mn0 mn1 mn2 txid h =
      let (a, x, rest) =
        >>=-eq-ok (succeeded mn0) (λ a. do second ← succeeded mn1; third ← succeeded mn2; ok error)
          h in
      let (b, y, rest') =
        >>=-eq-ok (succeeded mn1) (λ b. do third ← succeeded mn2; ok error) rest in
      let (c, z, last) = >>=-eq-ok (succeeded mn2) (λ c. ok error) rest' in
      (let k : Path (Result (Outcome F)) (ok error) (ok (success txid)) = last in cc)

  IsHeld-returned : (v txid : Obj F) → returned v ≡ ok (success txid) → IsHeld v txid
  unfolding returned
  IsHeld-returned v txid h =
      let (t, e, k) = >>=-eq-ok (txid_of v) (λ t. ok (success t)) h in
      IsHeld-txid_of v txid
        (e ∙ (let k' : Path (Result (Outcome F)) (ok (success t)) (ok (success txid)) = k in cc))

  IsHeld-second :
      (v2 txid : Obj F) (b : Bool)
      → (if b then returned v2 else ok error) ≡ ok (success txid)
      → IsHeld v2 txid
  IsHeld-second v2 txid true h = IsHeld-returned v2 txid h
  IsHeld-second v2 txid false h = cc

  IsHeld-first :
      (v1 v2 txid : Obj F) (b : Bool)
      → (if b
          then returned v1
          else (do in_second ← has_txid in_text v2; if in_second then returned v2 else ok error))
        ≡ ok (success txid)
      → IsHeld v1 txid ⊎ IsHeld v2 txid
  IsHeld-first v1 v2 txid true h = inl (IsHeld-returned v1 txid h)
  IsHeld-first v1 v2 txid false h =
      let (b, e, k) =
        >>=-eq-ok (has_txid in_text v2) (λ b. if b then returned v2 else ok error) h in
      inr (IsHeld-second v2 txid b k)

  found_txid-held :
      (v1 v2 txid : Obj F) → found_txid v1 v2 ≡ ok (success txid) → IsHeld v1 txid ⊎ IsHeld v2 txid
  unfolding found_txid
  found_txid-held v1 v2 txid h =
      let (b, e, k) =
        >>=-eq-ok (has_txid in_text v1)
          (λ b.
            if b
            then returned v1
            else (do in_second ← has_txid in_text v2; if in_second then returned v2 else ok error))
          h in
      IsHeld-first v1 v2 txid b k

  -- Step 3 reports success with a txid only if all three masternodes answered and the answer of MN1,
  -- or that of MN2, is a dictionary that holds it: the text of a message never is.
  pub finish-IsRegistered :
      (mn0 mn1 mn2 : Response F) (txid : Obj F)
      → finish mn0 mn1 mn2 ≡ ok (success txid)
      → IsRegistered mn0 mn1 mn2 txid
  unfolding finish
  finish-IsRegistered (answered v0) (answered v1) (answered v2) txid h = record {
    first = v0;
    second = v1;
    third = v2;
    first_answered = refl;
    second_answered = refl;
    third_answered = refl;
    found = found_txid-held v1 v2 txid h;
  }
  finish-IsRegistered (answered v0) (answered v1) failed txid h =
      absurd (error_details-fails (answered v0) (answered v1) failed txid h)
  finish-IsRegistered (answered v0) (answered v1) (raised e) txid h =
      absurd (error_details-fails (answered v0) (answered v1) (raised e) txid h)
  finish-IsRegistered (answered v0) failed mn2 txid h =
      absurd (error_details-fails (answered v0) failed mn2 txid h)
  finish-IsRegistered (answered v0) (raised e) mn2 txid h =
      absurd (error_details-fails (answered v0) (raised e) mn2 txid h)
  finish-IsRegistered failed mn1 mn2 txid h = absurd (error_details-fails failed mn1 mn2 txid h)
  finish-IsRegistered (raised e) mn1 mn2 txid h =
      absurd (error_details-fails (raised e) mn1 mn2 txid h)
