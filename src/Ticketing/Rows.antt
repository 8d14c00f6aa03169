-- ===== src/Ticketing/Rows.antt =====
-- Registrations whose columns agree, and the queries and writes of the table.
use stovacore.Prelude.{
  ℕ, ◌≡◌, refl, inl, inr, ◌⊎◌, Bool, true, ◌&&◌, Option, none, some, List, [], ◌∷◌, ltb, ◌==◌,
  String, str_eq, All, All-append, length, Bool-cases, if◌then◌else◌,
}
use stovacore.Prelude.Result.{ok, err, Result-cases, ok_inj, integrity_error}
use stovacore.Prelude.Bytes.{Bytes}
use stovacore.Luby.Codec.{same_bytes}
use stovacore.Ticketing.{
  Regticket, Node, created_status, get_by_code, get_own, select_tickets, save_regticket,
  new_regticket, create_regticket,
}
use stovacore.Ticketing.Confirm.{pick_ticket, last_of}

abbrev pub IsNull : {A : Type 0} → Option A → Type 0
IsNull none = Unit
IsNull (some a) = ⊥

abbrev pub IsGiven : {A : Type 0} → Option A → Type 0
IsGiven none = ⊥
IsGiven (some a) = Unit

-- A confirmation: the masternode and its signature are there exactly if the flag is set.
abbrev pub IsConfirmation : Option Bool → Option String → Option Bytes → Type 0
IsConfirmation none pk signature = IsNull pk × IsNull signature
IsConfirmation (some v) pk signature = (v ≡ true) × IsGiven pk × IsGiven signature

-- A second confirmation comes after a first one.
abbrev pub IsSecond : Option Bool → Option Bool → Type 0
IsSecond mn1 none = Unit
IsSecond none (some v) = ⊥
IsSecond (some u) (some v) = Unit

pub record IsConsistentRow (r : Regticket) : Type 0 where
  pub first : IsConfirmation r.is_valid_mn1 r.mn1_pk r.mn1_serialized_signature
  pub second : IsConfirmation r.is_valid_mn2 r.mn2_pk r.mn2_serialized_signature
  pub later : IsSecond r.is_valid_mn1 r.is_valid_mn2
  -- only the node that has a local fee for an uploaded image validates the burn as MN0
  pub validated : IsNull r.is_valid_mn0 ⊎ IsGiven r.localfee
  pub uploaded : IsNull r.localfee ⊎ IsGiven r.image_data
  pub status_created : r.status ≡ created_status
  pub no_error : r.error ≡ none

abbrev pub IsConsistent : Node → Type 0
IsConsistent n = All IsConsistentRow n.regtickets

pub new_regticket-IsConsistentRow :
    (id : ℕ) (ticket code signature : Bytes) (now : ℕ) (artist : String) (hash : Bytes)
    → IsConsistentRow (new_regticket id ticket code signature now artist hash)
unfolding new_regticket
new_regticket-IsConsistentRow id ticket code signature now artist hash = record {
  first = (tt, tt);
  second = (tt, tt);
  later = tt;
  validated = inl tt;
  uploaded = inl tt;
  status_created = refl;
  no_error = refl;
}

module _ {ℓ} (P : Regticket → Type ℓ) where
  pub save_regticket-All :
      (new : Regticket) (rows : List Regticket)
      → P new
      → All P rows
      → All P (save_regticket new rows)
  unfolding save_regticket
  save_regticket-All new [] p h = tt
  save_regticket-All new (r ∷ rows) p h = (saved new.id r.id h.0, save_regticket-All new rows p h.1)
    where
      saved : (i j : ℕ) → P r → P (if i == j then new else r)
      saved i j q = elim (Bool-cases (i == j)) [ inl e ↦ rw e p | inr e ↦ rw e q ]

  pub get_by_code-All :
      (code : Bytes) (rows : List Regticket) (r : Regticket)
      → All P rows
      → get_by_code code rows ≡ ok r
      → P r
  unfolding get_by_code
  get_by_code-All code [] r h e = cc
  get_by_code-All code (q ∷ rows) r h e = elim (Bool-cases (same_bytes code q.upload_code)) [
    | inl hit ↦ rw (← ok_inj (rw hit at e)) h.0
    | inr miss ↦ get_by_code-All code rows r h.1 (rw miss at e)
  ]

  pub get_own-All :
      (artist : String) (code : Bytes) (rows : List Regticket) (r : Regticket)
      → All P rows
      → get_own artist code rows ≡ ok r
      → P r
  unfolding get_own
  get_own-All artist code [] r h e = cc
  get_own-All artist code (q ∷ rows) r h e =
      elim (Bool-cases (str_eq artist q.artist_pk && same_bytes code q.upload_code)) [
        | inl hit ↦ rw (← ok_inj (rw hit at e)) h.0
        | inr miss ↦ get_own-All artist code rows r h.1 (rw miss at e)
      ]

  select_tickets-All :
      (artist : String) (hash : Bytes) (rows : List Regticket)
      → All P rows
      → All P (select_tickets artist hash rows)
  unfolding select_tickets
  select_tickets-All artist hash [] h = tt
  select_tickets-All artist hash (r ∷ rows) h =
      elim (Bool-cases (str_eq artist r.artist_pk && same_bytes hash r.image_hash)) [
        | inl hit ↦ rw hit (h.0, select_tickets-All artist hash rows h.1)
        | inr miss ↦ rw miss (select_tickets-All artist hash rows h.1)
      ]

  last_of-All : (r : Regticket) (rows : List Regticket) → P r → All P rows → P (last_of r rows)
  unfolding last_of
  last_of-All r [] p h = p
  last_of-All r (q ∷ rows) p h = last_of-All q rows h.0 h.1

  pub pick-All :
      (artist : String) (hash : Bytes) (rows : List Regticket) (r : Regticket)
      → All P rows
      → pick_ticket (select_tickets artist hash rows) ≡ ok r
      → P r
  unfolding pick_ticket
  pick-All artist hash rows r h e =
      picked (select_tickets artist hash rows) (select_tickets-All artist hash rows h) e
    where
      picked : (rs : List Regticket) → All P rs → pick_ticket rs ≡ ok r → P r
      picked [] k f = cc
      picked (q ∷ rs) k f = elim (Bool-cases (ltb 2 (length (q ∷ rs)))) [
        | inl many ↦ rw (← ok_inj (rw many at f)) (last_of-All q rs k.0 k.1)
        | inr few ↦ rw (← ok_inj (rw few at f)) k.0
      ]

  pub create_regticket-All :
      (new : Regticket) (rows rows' : List Regticket)
      → P new
      → All P rows
      → create_regticket new rows ≡ ok rows'
      → All P rows'
  unfolding create_regticket
  create_regticket-All new rows rows' p h e =
      elim (Result-cases (get_by_code new.upload_code rows)) [
        | inl (x, free) ↦
            rw (← ok_inj (rw (free, create_regticket) at e))
              (All-append P rows (new ∷ []) h (p, tt))
        | inr (old, taken) ↦ absurd (refused (rw (taken, create_regticket) at e))
      ]
    where
      refused : err integrity_error ≡ ok rows' → ⊥
      refused k = cc
