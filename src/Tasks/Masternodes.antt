-- ===== src/Tasks/Masternodes.antt =====
-- `update_masternode_list` and `refresh_masternode_list` of pynode/tasks.py.
--
-- `masternode_list` of cNode is a parameter: the list of its values. A dict keeps the position of
-- a key that is set again.
pub mod Refresh
use Prim.Native.String.{count}
use stovacore.Prelude.{
  ℕ, zero, suc, ◌+◌, ◌≤◌, ◌<◌, ◌≡◌, ◌≢◌, refl, sym, ap, ◌∙◌, inl, inr, ◌⊎◌, Bool, true, false, not,
  ◌&&◌, ◌||◌, Option, none, some, List, [], ◌∷◌, ◌++◌, map, append_assoc, append-nil, arith, String,
  str_eq, eq_iff, contains, ltb, ◌==◌, Bool-cases, if◌then◌else◌,
}
use stovacore.Prelude.Result.{Result, ok, err, integrity_error, Result-cases, ◌>>=◌, ok_inj}
use stovacore.Tasks.Rows.{Chunk, Masternode, ChunkMnDistance, ChunkMnRanked, get_active_nodes}
use stovacore.Tasks.Distance.{
  has_node, count_rows, count_rows-append, nodes_in, contains_text, ids_of, not_indexed,
  rows_of_nodes, count-rows_of_nodes, calculate_xor_distances_for_masternodes,
}
use stovacore.Tasks.Ranking.{recalculate_mn_chunk_ranking_table}
use stovacore.Tasks.Indexing.{Tables, index_new_chunks, index_new_chunks_complete}

-- The fields of a node of the list that are read.
pub record NodeInfo : Type 0 where
  pub ext_key : String
  pub ext_address : String

abbrev pub NodeDict : Type 0
NodeDict = List (String × String)

unfoldable pub set_address : String → String → NodeDict → NodeDict
set_address key address [] = (key, address) ∷ []
set_address key address ((k, a) ∷ d) =
    if str_eq key k then (k, address) ∷ d else (k, a) ∷ set_address key address d

-- the loop that parses the new list
unfoldable pub fresh_mn_list : List NodeInfo → NodeDict → NodeDict
unfolding set_address
fresh_mn_list [] d = d
fresh_mn_list (node ∷ nodes) d = fresh_mn_list nodes (
    if ltb 20 (count node.ext_key) && ltb 4 (count node.ext_address)
    then set_address node.ext_key node.ext_address d
    else d)

abbrev pub has_key : String → NodeDict → Bool
has_key key [] = false
has_key key ((k, a) ∷ d) = str_eq key k || has_key key d

abbrev pub keys_of : NodeDict → List String
keys_of [] = []
keys_of ((k, a) ∷ d) = k ∷ keys_of d

-- `fresh_mn_pastelids - existing_mn_pastelids`, with the addresses
unfoldable pub added_nodes : NodeDict → List Masternode → NodeDict
added_nodes [] existing = []
added_nodes ((k, a) ∷ fresh) existing =
    let rest = added_nodes fresh existing in if has_node k existing then rest else (k, a) ∷ rest

-- `existing_mn_pastelids - fresh_mn_pastelids`
unfoldable pub removed_pastelids : NodeDict → List Masternode → List String
removed_pastelids fresh [] = []
removed_pastelids fresh (mn ∷ existing) =
    let rest = removed_pastelids fresh existing in
    if has_key mn.pastel_id fresh then rest else mn.pastel_id ∷ rest

abbrev pub has_address : String → List Masternode → Bool
has_address address [] = false
has_address address (mn ∷ mns) = str_eq address mn.ext_address || has_address address mns

-- `Masternode.insert(data_for_insert).execute()`: both columns are unique, and the statement
-- inserts all rows or none
unfoldable pub insert_nodes : NodeDict → List Masternode → Result (List Masternode)
insert_nodes [] mns = ok mns
insert_nodes ((k, a) ∷ data_for_insert) mns =
    let rest =
      insert_nodes data_for_insert
        (mns ++ record { ext_address = a; pastel_id = k; active = true } ∷ []) in
    if has_node k mns || has_address a mns then err integrity_error else rest

-- An empty insertion is not executed; here it changes nothing.
unfoldable pub update_masternode_list :
    List NodeInfo → List Masternode → Result (List Masternode × List String × List String)
unfolding fresh_mn_list added_nodes removed_pastelids insert_nodes
update_masternode_list masternode_list masternodes = do
  let fresh = fresh_mn_list masternode_list []
  let existing = get_active_nodes masternodes
  let added = added_nodes fresh existing
  masternodes' ← insert_nodes added masternodes
  ok (masternodes', keys_of added, removed_pastelids fresh existing)

-- `if added`
unfoldable pub refresh_distances : (String → ℕ) → List String → Tables → Tables
refresh_distances node_digest [] t = t
refresh_distances node_digest (k ∷ added) t =
    let distances =
      calculate_xor_distances_for_masternodes node_digest (k ∷ added) t.masternodes t.chunks
        t.distances in
    record t { distances = distances; ranked = recalculate_mn_chunk_ranking_table distances }

unfoldable pub refresh_masternode_list : (String → ℕ) → List NodeInfo → Tables → Result Tables
unfolding update_masternode_list refresh_distances
refresh_masternode_list node_digest masternode_list t = do
  (masternodes', added, removed) ← update_masternode_list masternode_list t.masternodes
  ok (refresh_distances node_digest added (record t { masternodes = masternodes' }))

has_node-append :
    (p : String) (mns mns' : List Masternode)
    → has_node p (get_active_nodes (mns ++ mns'))
      ≡ (has_node p (get_active_nodes mns) || has_node p (get_active_nodes mns'))
unfolding get_active_nodes
has_node-append p [] mns' = refl
has_node-append p (mn ∷ mns) mns' = ground (arith, has_node-append p mns mns')

or_false : (b : Bool) → b ≡ (b || false)
or_false true = refl
or_false false = refl

or_regroup : (a b c : Bool) → ((a || (b || false)) || c) ≡ (a || (b || c))
or_regroup true b c = refl
or_regroup false true c = refl
or_regroup false false c = refl

-- Every insertion that succeeds has made its keys active masternodes.
has_node-insert_nodes :
    (p : String) (data_for_insert : NodeDict) (mns mns' : List Masternode)
    → insert_nodes data_for_insert mns ≡ ok mns'
    → has_node p (get_active_nodes mns')
      ≡ (has_node p (get_active_nodes mns) || has_key p data_for_insert)
unfolding insert_nodes get_active_nodes
has_node-insert_nodes p [] mns mns' e =
    rw (← ok_inj e) (or_false (has_node p (get_active_nodes mns)))
has_node-insert_nodes p ((k, a) ∷ rest) mns mns' e =
    elim (Bool-cases (has_node k mns || has_address a mns)) [
      | inl taken ↦ absurd (ok_err (rw taken at e))
      | inr free ↦
          let mn : Masternode = record { ext_address = a; pastel_id = k; active = true } in
          has_node-insert_nodes p rest (mns ++ mn ∷ []) mns' (rw free at e)
          ∙ ap (λ t. t || has_key p rest) (has_node-append p mns (mn ∷ []))
          ∙ or_regroup (has_node p (get_active_nodes mns)) (str_eq p k) (has_key p rest)
    ]
  where
    ok_err : err integrity_error ≡ ok mns' → ⊥
    ok_err h = cc

insert_nodes-err :
    (d : NodeDict) (mns : List Masternode) (e : _)
    → insert_nodes d mns ≡ err e
    → e ≡ integrity_error
unfolding insert_nodes
insert_nodes-err [] mns e h = cc
insert_nodes-err ((k, a) ∷ d) mns e h = ground (
  arith,
  insert_nodes-err d (mns ++ record { ext_address = a; pastel_id = k; active = true } ∷ []) e,
)

has_key-added_nodes :
    (p : String) (fresh : NodeDict) (existing : List Masternode)
    → (has_node p existing || has_key p (added_nodes fresh existing))
      ≡ (has_node p existing || has_key p fresh)
unfolding added_nodes
has_key-added_nodes p [] existing = refl
has_key-added_nodes p ((k, a) ∷ fresh) existing = elim (Bool-cases (has_node k existing)) [
  | inl known ↦ elim (Bool-cases (str_eq p k)) [
    | inl same ↦
        let there : has_node p existing ≡ true = rw ((eq_iff p k).0 same) known in
        rw (known, there) refl
    | inr differ ↦ rw (known, differ) (has_key-added_nodes p fresh existing)
  ]
  | inr new ↦ rw new (
      or_middle (has_node p existing) (str_eq p k) (has_key p (added_nodes fresh existing))
        (has_key p fresh) (has_key-added_nodes p fresh existing))
]
  where
    or_middle : (a b c d : Bool) → (a || c) ≡ (a || d) → (a || (b || c)) ≡ (a || (b || d))
    or_middle true b c d h = refl
    or_middle false true c d h = refl
    or_middle false false c d h = h

contains-added_nodes :
    (p : String) (fresh : NodeDict) (existing : List Masternode)
    → contains_text p (keys_of (added_nodes fresh existing))
      ≡ (has_key p fresh && not (has_node p existing))
unfolding added_nodes
contains-added_nodes p [] existing = refl
contains-added_nodes p ((k, a) ∷ fresh) existing = elim (Bool-cases (str_eq p k)) [
  | inl same ↦
      let e = (eq_iff p k).0 same in
      let kk : str_eq k k ≡ true = (eq_iff k k).1 refl in
      let more : contains_text k (keys_of (added_nodes fresh existing))
          ≡ (has_key k fresh && not (has_node k existing)) =
        rw (← e) (contains-added_nodes p fresh existing) in
      elim (Bool-cases (has_node k existing)) [
        | inl known ↦ rw (e, known, kk) (more ∙ rw known (and_false (has_key k fresh)))
        | inr new ↦ rw (e, new, kk) refl
      ]
  | inr differ ↦ elim (Bool-cases (has_node k existing)) [
    | inl known ↦ rw (known, differ) (contains-added_nodes p fresh existing)
    | inr new ↦ rw (new, differ) (contains-added_nodes p fresh existing)
  ]
]
  where
    and_false : (b : Bool) → (b && false) ≡ false
    and_false true = refl
    and_false false = refl

-- What an update says of a PastelID: without an IntegrityError the active masternodes are those
-- there were and those of the fresh list; the lists returned say which of them were added.
abbrev pub Updates :
    String
    → List NodeInfo
    → List Masternode
    → Result (List Masternode × List String × List String)
    → Type 0
Updates p infos mns (err e) = e ≡ integrity_error
Updates p infos mns (ok (mns', added, removed)) =
    (has_node p (get_active_nodes mns')
      ≡ (has_node p (get_active_nodes mns) || has_key p (fresh_mn_list infos [])))
    × (contains_text p added
        ≡ (has_key p (fresh_mn_list infos []) && not (has_node p (get_active_nodes mns))))

-- `update_masternode_list` raises nothing but the IntegrityError. Otherwise a PastelID is active
-- afterwards if it was before or is in the fresh list, and the added ones are those that are in
-- the fresh list and were not active.
pub update_masternode_list-Updates :
    (p : String) (infos : List NodeInfo) (mns : List Masternode)
    → Updates p infos mns (update_masternode_list infos mns)
unfolding update_masternode_list
update_masternode_list-Updates p infos mns =
    let fresh = fresh_mn_list infos [] in
    let existing = get_active_nodes mns in
    elim (Result-cases (insert_nodes (added_nodes fresh existing) mns)) [
      | inl (e, refused) ↦ rw refused (insert_nodes-err (added_nodes fresh existing) mns e refused)
      | inr (mns', done) ↦ rw done (
        has_node-insert_nodes p (added_nodes fresh existing) mns mns' done
            ∙ has_key-added_nodes p fresh existing,
        contains-added_nodes p fresh existing,
      )
    ]
