-- ===== src/Tasks/Tickets/Confirmed.antt =====
-- Processing activation tickets: the rows of the chunks, and a second run.
use Prim.Native.String.{count}
use stovacore.Prelude.{
  ℕ, ◌≡◌, refl, sym, ap, ◌∙◌, inl, inr, Bool, true, false, not, ◌||◌, Option, none, some, List, [],
  ◌∷◌, ◌++◌, map, arith, String, eq_iff, contains, ◌==◌, ==_iff, Bool-cases, if◌then◌else◌,
}
use mathlib.Core.Path.{subst}
use stovacore.Prelude.Result.{Result, Error, ok, err, Result-cases, >>=-eq-ok, ok_inj}
use stovacore.Prelude.Bytes.{Bytes}
use stovacore.Tasks.Rows.{
  Chunk, ActivationTicket, find_chunk, create_chunk, create_from_hash, chunk_of_hash, get_by_hash,
  bytes_to_chunkid, find-save, find_chunk_id,
}
use stovacore.Tasks.Tickets.{
  RegistrationTicket, ActTicketData, Ledger, save_confirmed, confirm_chunk, confirm_chunks,
  is_processed, txid_length, is_json_rpc_exception, store_ticket, fetch_regticket, process_answer,
  process_txid, get_and_proccess_new_activation_tickets,
}

find-append :
    (id : ℕ) (chunks : List Chunk) (c : Chunk) (e : Error)
    → find_chunk c.chunk_id chunks ≡ err e
    → find_chunk id (chunks ++ c ∷ []) ≡ (if id == c.chunk_id then ok c else find_chunk id chunks)
unfolding find_chunk
find-append id [] c e h = refl
find-append id (d ∷ chunks) c e h = ground (arith, find-append id chunks c e)

-- The row of a chunk that was confirmed: the old one, or a new one.
abbrev pub confirmed_row : ℕ → Bytes → Result Chunk → Chunk
confirmed_row id artwork_hash (ok c) = record c { confirmed = true }
confirmed_row id artwork_hash (err e) = record {
  chunk_id = id;
  image_hash = artwork_hash;
  indexed = false;
  confirmed = true;
  stored = false;
  attempts_to_load = 0;
}

-- A table in which the chunks of some ids were confirmed.
pub record Confirms (wanted : ℕ → Bool) (artwork_hash : Bytes) (chunks : List Chunk)
    (r : Result (List Chunk)) : Type 0 where
  pub chunks' : List Chunk
  pub runs : r ≡ ok chunks'
  pub rows :
      (id : ℕ)
      → find_chunk id chunks' ≡ (
          if wanted id
          then ok (confirmed_row id artwork_hash (find_chunk id chunks))
          else find_chunk id chunks)

confirm_new :
    (h artwork_hash : Bytes) (chunks : List Chunk) (e : Error) (id : ℕ)
    → find_chunk (bytes_to_chunkid h) chunks ≡ err e
    → find_chunk id (
        save_confirmed
          (chunk_of_hash h artwork_hash false)
          (chunks ++ chunk_of_hash h artwork_hash false ∷ []))
      ≡ (if id == bytes_to_chunkid h
          then ok (confirmed_row id artwork_hash (find_chunk id chunks))
          else find_chunk id chunks)
unfolding save_confirmed chunk_of_hash
confirm_new h artwork_hash chunks e id missing =
    let new = chunk_of_hash h artwork_hash false in
    find-save id (record new { confirmed = true }) (chunks ++ new ∷ [])
    ∙ rw (find-append id chunks new e missing) (elim (Bool-cases (id == bytes_to_chunkid h)) [
      | inl same ↦
          let k = (==_iff id (bytes_to_chunkid h)).0 same in
          let missing' : find_chunk id chunks ≡ err e = rw k missing in rw (same, missing', k) refl
      | inr differ ↦ rw differ refl
    ])

confirm_old :
    (h artwork_hash : Bytes) (chunks : List Chunk) (c : Chunk) (id : ℕ)
    → find_chunk (bytes_to_chunkid h) chunks ≡ ok c
    → find_chunk id (save_confirmed c chunks) ≡ (
        if id == bytes_to_chunkid h
        then ok (confirmed_row id artwork_hash (find_chunk id chunks))
        else find_chunk id chunks)
unfolding save_confirmed
confirm_old h artwork_hash chunks c id there =
    let own = find_chunk_id (bytes_to_chunkid h) chunks c there in
    find-save id (record c { confirmed = true }) chunks
    ∙ elim (Bool-cases (id == bytes_to_chunkid h)) [
      | inl same ↦
          let k = (==_iff id (bytes_to_chunkid h)).0 same in
          let there' : find_chunk id chunks ≡ ok c = rw k there in
          let same' : (id == c.chunk_id) ≡ true = rw own same in rw (same', same, there') refl
      | inr differ ↦
          let differ' : (id == c.chunk_id) ≡ false = rw own differ in rw (differ', differ) refl
    ]

confirmed_twice :
    (id : ℕ) (artwork_hash : Bytes) (r : Result Chunk)
    → confirmed_row id artwork_hash (ok (confirmed_row id artwork_hash r))
      ≡ confirmed_row id artwork_hash r
confirmed_twice id artwork_hash (ok c) = refl
confirmed_twice id artwork_hash (err e) = refl

rows_then :
    (id : ℕ) (artwork_hash : Bytes) (w v : Bool) (r r₁ r₂ : Result Chunk)
    → r₁ ≡ (if w then ok (confirmed_row id artwork_hash r) else r)
    → r₂ ≡ (if v then ok (confirmed_row id artwork_hash r₁) else r₁)
    → r₂ ≡ (if w || v then ok (confirmed_row id artwork_hash r) else r)
rows_then id artwork_hash true true r r₁ r₂ e f =
    f ∙ rw e (ap ok (confirmed_twice id artwork_hash r))
rows_then id artwork_hash true false r r₁ r₂ e f = f ∙ e
rows_then id artwork_hash false true r r₁ r₂ e f = f ∙ rw e refl
rows_then id artwork_hash false false r r₁ r₂ e f = f ∙ e

confirm_chunk-Confirms :
    (h artwork_hash : Bytes) (chunks : List Chunk)
    → Confirms
        (λ id. id == bytes_to_chunkid h)
        artwork_hash
        chunks
        (confirm_chunk h artwork_hash chunks)
unfolding confirm_chunk create_from_hash create_chunk get_by_hash save_confirmed chunk_of_hash
confirm_chunk-Confirms h artwork_hash chunks =
    elim (Result-cases (find_chunk (bytes_to_chunkid h) chunks)) [
      | inl (e, missing) ↦ record {
        chunks' =
            save_confirmed (chunk_of_hash h artwork_hash false)
              (chunks ++ chunk_of_hash h artwork_hash false ∷ []);
        runs = rw (missing, confirm_chunk, create_from_hash, create_chunk) refl;
        rows = λ id. confirm_new h artwork_hash chunks e id missing;
      }
      | inr (c, there) ↦ record {
        chunks' = save_confirmed c chunks;
        runs =
            rw (there, confirm_chunk, create_from_hash, create_chunk)
              (rw (there, get_by_hash) refl);
        rows = λ id. confirm_old h artwork_hash chunks c id there;
      }
    ]

-- Confirming the chunks of a list of hashes always succeeds; after it each of them has a row that
-- is confirmed, which is new or keeps every other column, and no other row has changed.
pub confirm_chunks-Confirms :
    (hashes : List Bytes) (artwork_hash : Bytes) (chunks : List Chunk)
    → Confirms
        (λ id. contains id (map bytes_to_chunkid hashes))
        artwork_hash
        chunks
        (confirm_chunks hashes artwork_hash chunks)
unfolding confirm_chunks
confirm_chunks-Confirms [] artwork_hash chunks = record {
  chunks' = chunks;
  runs = refl;
  rows = λ id. refl;
}
confirm_chunks-Confirms (h ∷ hashes) artwork_hash chunks =
    let first = confirm_chunk-Confirms h artwork_hash chunks in
    let more = confirm_chunks-Confirms hashes artwork_hash first.chunks' in
    record {
      chunks' = more.chunks';
      runs = rw first.runs more.runs;
      rows = λ id.
          rows_then id artwork_hash (id == bytes_to_chunkid h)
            (contains id (map bytes_to_chunkid hashes)) (find_chunk id chunks)
            (find_chunk id first.chunks') (find_chunk id more.chunks') (first.rows id)
            (more.rows id);
    }

is_processed-append :
    (txid : String) (ts ts' : List ActivationTicket)
    → is_processed txid (ts ++ ts') ≡ (is_processed txid ts || is_processed txid ts')
is_processed-append txid [] ts' = refl
is_processed-append txid (t ∷ ts) ts' = ground (arith, is_processed-append txid ts ts')

-- A txid that needs no processing.
abbrev pub is_settled : Ledger → String → Bool
is_settled l txid = not (count txid == txid_length) || is_processed txid l.tickets

abbrev pub AllSettled : Ledger → List String → Type 0
AllSettled l [] = Unit
AllSettled l (txid ∷ txids) = (is_settled l txid ≡ true) × AllSettled l txids

module _ (get_ticket : String → Result ActTicketData)
    (get_regticket : String → Result RegistrationTicket) where
  -- Each answer that is processed records its txid, behind the tickets there were.
  process_answer-records :
      (txid : String) (answer : Result ActTicketData) (l l' : Ledger)
      → process_answer get_ticket get_regticket txid answer l ≡ ok l'
      → (height : Option ℕ) × (l'.tickets
          ≡ l.tickets ++ record { txid = txid; height = height } ∷ [])
  unfolding process_answer fetch_regticket store_ticket
  process_answer-records txid (ok act) l l' e =
      let (reg, is_reg, e₁) = >>=-eq-ok (get_regticket act.reg_txid) _ e in
      let (chunks₁, done₁, e₂) =
        >>=-eq-ok (confirm_chunk reg.thumbnailhash reg.thumbnailhash l.chunks) _ e₁ in
      let (chunks₂, done₂, e₃) =
        >>=-eq-ok (confirm_chunks reg.lubyhashes reg.imagedata_hash chunks₁) _ e₂ in
      (some act.height, ap (λ (m : Ledger). m.tickets) (sym (ok_inj e₃)))
  process_answer-records txid (err x) l l' e = elim (Bool-cases (is_json_rpc_exception x)) [
    | inl caught ↦ (none, ap (λ (m : Ledger). m.tickets) (sym (ok_inj (rw caught at e))))
    | inr raised ↦ absurd (ok_err (rw raised at e))
  ]
    where
      ok_err : err x ≡ ok l' → ⊥
      ok_err h = cc

  -- A round that succeeds settles its txid and keeps what was settled.
  process_txid-settles :
      (txid other : String) (l l' : Ledger)
      → process_txid get_ticket get_regticket txid l ≡ ok l'
      → (is_settled l' txid ≡ true) × (is_settled l other ≡ true → is_settled l' other ≡ true)
  unfolding process_txid
  process_txid-settles txid other l l' e = elim (Bool-cases (is_settled l txid)) [
    | inl settled ↦ let same = ok_inj (rw settled at e) in rw (← same) (settled, λ h. h)
    | inr new ↦
        let (height, tickets) = process_answer-records txid (get_ticket txid) l l' (rw new at e) in
        let last : List ActivationTicket = record { txid = txid; height = height } ∷ [] in
        (
          rw (tickets, is_processed-append txid l.tickets last)
              (or_last _ (is_processed txid l.tickets) ((eq_iff txid txid).1 refl)),
          λ h.
              rw (tickets, is_processed-append other l.tickets last)
                (or_keep _ (is_processed other l.tickets) _ h),
        )
  ]
    where
      or_last : (a b : Bool) {c : Bool} → c ≡ true → (a || (b || (c || false))) ≡ true
      or_last a b e = rw e (or_true a b)
        where
          or_true : (a b : Bool) → (a || (b || true)) ≡ true
          or_true true b = refl
          or_true false true = refl
          or_true false false = refl

      or_keep : (a b c : Bool) → (a || b) ≡ true → (a || (b || c)) ≡ true
      or_keep true b c h = refl
      or_keep false true c h = refl
      or_keep false false c h = cc

  run-settled :
      (txids : List String) (other : String) (l : Ledger)
      → is_settled l other ≡ true
      → is_settled
          (get_and_proccess_new_activation_tickets get_ticket get_regticket txids l).0
          other
        ≡ true
  unfolding get_and_proccess_new_activation_tickets
  run-settled [] other l h = h
  run-settled (txid ∷ txids) other l h =
      elim (Result-cases (process_txid get_ticket get_regticket txid l)) [
        | inl (e, raised) ↦ rw (raised, get_and_proccess_new_activation_tickets) h
        | inr (l', done) ↦
            rw (done, get_and_proccess_new_activation_tickets)
              (run-settled txids other l' ((process_txid-settles txid other l l' done).1 h))
      ]

  run-AllSettled :
      (txids : List String) (l : Ledger)
      → (get_and_proccess_new_activation_tickets get_ticket get_regticket txids l).1 ≡ none
      → AllSettled
          (get_and_proccess_new_activation_tickets get_ticket get_regticket txids l).0
          txids
  unfolding get_and_proccess_new_activation_tickets
  run-AllSettled [] l h = tt
  run-AllSettled (txid ∷ txids) l h =
      elim (Result-cases (process_txid get_ticket get_regticket txid l)) [
        | inl (e, raised) ↦
            absurd (some_none (rw (raised, get_and_proccess_new_activation_tickets) at h))
        | inr (l', done) ↦
            let step : get_and_proccess_new_activation_tickets get_ticket get_regticket
                  (txid ∷ txids) l
                ≡ get_and_proccess_new_activation_tickets get_ticket get_regticket txids l' =
              rw (done, get_and_proccess_new_activation_tickets) refl in
            subst (λ (r : Ledger × Option Error). AllSettled r.0 (txid ∷ txids)) (sym step)
              (
                run-settled txids txid l' (process_txid-settles txid txid l l' done).0,
                run-AllSettled txids l' (ap (λ (r : Ledger × Option Error). r.1) (sym step) ∙ h),
              )
      ]
    where
      some_none : {e : Error} → some e ≡ none → ⊥
      some_none p = cc

settled_run :
    (get_ticket : String → Result ActTicketData)
    (get_regticket : String → Result RegistrationTicket) (txids : List String) (l : Ledger)
    → AllSettled l txids
    → get_and_proccess_new_activation_tickets get_ticket get_regticket txids l ≡ (l, none)
unfolding get_and_proccess_new_activation_tickets process_txid
settled_run get_ticket get_regticket [] l h = refl
settled_run get_ticket get_regticket (txid ∷ txids) l (settled, h) =
    let skips : process_txid get_ticket get_regticket txid l ≡ ok l = rw settled refl in
    rw (skips, get_and_proccess_new_activation_tickets)
      (settled_run get_ticket get_regticket txids l h)

-- After a run over the listed txids that raised nothing, a second run over them changes nothing
-- and raises nothing, whatever cNode answers then.
pub process-again :
    (get_ticket again_ticket : String → Result ActTicketData)
    (get_regticket again_regticket : String → Result RegistrationTicket) (txids : List String)
    (l : Ledger)
    → (get_and_proccess_new_activation_tickets get_ticket get_regticket txids l).1 ≡ none
    → let l' = (get_and_proccess_new_activation_tickets get_ticket get_regticket txids l).0 in
      get_and_proccess_new_activation_tickets again_ticket again_regticket txids l' ≡ (l', none)
process-again get_ticket again_ticket get_regticket again_regticket txids l h =
    settled_run again_ticket again_regticket txids _
      (run-AllSettled get_ticket get_regticket txids l h)
