-- ===== src/Tasks/Masternodes/Refresh.antt =====
-- What `refresh_masternode_list` does to the distances, alone and before `index_new_chunks`, and
-- when the unique columns refuse an update.
use stovacore.Prelude.{
  ℕ, ◌+◌, ◌≤◌, ◌≡◌, refl, ◌∙◌, inl, inr, Bool, true, false, ◌&&◌, ◌||◌, List, [], ◌∷◌, ◌++◌, arith,
  String, str_eq, eq_iff, contains, Bool-cases,
}
use mathlib.Core.Path.{subst}
use stovacore.Prelude.Result.{ok, err, integrity_error, >>=-eq-ok, ok_inj}
use stovacore.Tasks.Rows.{Masternode, get_active_nodes}
use stovacore.Tasks.Distance.{
  has_node, count_rows, count_rows-append, nodes_in, contains_text, ids_of, not_indexed,
  rows_of_nodes, count-rows_of_nodes, not_indexed-contained,
  calculate_xor_distances_for_masternodes,
}
use stovacore.Tasks.Indexing.{Tables, index_new_chunks, index_new_chunks_complete}
use stovacore.Tasks.Masternodes.{
  NodeInfo, NodeDict, fresh_mn_list, has_key, has_address, insert_nodes, added_nodes,
  update_masternode_list, refresh_distances, refresh_masternode_list, Updates,
  update_masternode_list-Updates,
}

has_node-nodes_in :
    (p : String) (ids : List String) (mns : List Masternode)
    → contains_text p ids ≡ true
    → has_node p mns ≡ true
    → has_node p (nodes_in ids mns) ≡ true
unfolding nodes_in
has_node-nodes_in p ids [] h k = k
has_node-nodes_in p ids (mn ∷ mns) h k = elim (Bool-cases (str_eq p mn.pastel_id)) [
  | inl same ↦
      let kept : contains_text mn.pastel_id ids ≡ true = rw (← (eq_iff p mn.pastel_id).0 same) h in
      rw (kept, same) refl
  | inr differ ↦
      let more = has_node-nodes_in p ids mns h (rw differ at k) in
      elim (Bool-cases (contains_text mn.pastel_id ids)) [
        | inl kept ↦ rw (kept, differ) more
        | inr dropped ↦ rw dropped more
      ]
]

-- The distances of an added masternode.
refresh_distances-counts :
    (node_digest : String → ℕ) (added : List String) (t : Tables) (id : ℕ) (p : String)
    → contains_text p added ≡ true
    → has_node p (get_active_nodes t.masternodes) ≡ true
    → contains id (ids_of t.chunks) ≡ true
    → count_rows id p t.distances + 1
      ≤ count_rows id p (refresh_distances node_digest added t).distances
unfolding refresh_distances calculate_xor_distances_for_masternodes
refresh_distances-counts node_digest [] t id p h k c = cc
refresh_distances-counts node_digest (a ∷ added) t id p h k c =
    let nodes = nodes_in (a ∷ added) (get_active_nodes t.masternodes) in
    omega (
      arith,
      count_rows-append id p t.distances (rows_of_nodes node_digest nodes t.chunks),
      count-rows_of_nodes node_digest id p nodes t.chunks
          (has_node-nodes_in p (a ∷ added) (get_active_nodes t.masternodes) h k) c,
    )

refresh_distances-others :
    (node_digest : String → ℕ) (added : List String) (t : Tables)
    → ((refresh_distances node_digest added t).chunks ≡ t.chunks)
      × ((refresh_distances node_digest added t).masternodes ≡ t.masternodes)
unfolding refresh_distances
refresh_distances-others node_digest [] t = (refl, refl)
refresh_distances-others node_digest (a ∷ added) t = (refl, refl)

-- What a refresh that succeeds does for a PastelID of the fresh list that was not active.
pub refresh_masternode_list-counts :
    (node_digest : String → ℕ) (infos : List NodeInfo) (t t' : Tables) (id : ℕ) (p : String)
    → refresh_masternode_list node_digest infos t ≡ ok t'
    → has_key p (fresh_mn_list infos []) ≡ true
    → has_node p (get_active_nodes t.masternodes) ≡ false
    → contains id (ids_of t.chunks) ≡ true
    → (count_rows id p t.distances + 1 ≤ count_rows id p t'.distances)
      × (t'.chunks ≡ t.chunks)
      × (has_node p (get_active_nodes t'.masternodes) ≡ true)
unfolding refresh_masternode_list
refresh_masternode_list-counts node_digest infos t t' id p e fresh absent c =
    let ((mns', added, removed), updated, e') =
      >>=-eq-ok (update_masternode_list infos t.masternodes) _ e in
    let u : Updates p infos t.masternodes (ok (mns', added, removed)) =
      subst (Updates p infos t.masternodes) updated
        (update_masternode_list-Updates p infos t.masternodes) in
    let t₁ : Tables = record t { masternodes = mns' } in
    let there : has_node p (get_active_nodes mns') ≡ true = u.0 ∙ rw (fresh, absent) refl in
    let is_added : contains_text p added ≡ true = u.1 ∙ rw (fresh, absent) refl in
    let o = refresh_distances-others node_digest added t₁ in
    rw (← ok_inj e')
      (refresh_distances-counts node_digest added t₁ id p is_added there c, o.0, rw (o.1) there)

-- Let a refresh succeed that adds a masternode, while a chunk is not indexed yet. After the next
-- `index_new_chunks` the distance table has two rows more, at least, for the chunk and the
-- masternode.
pub index-refresh_twice :
    (node_digest : String → ℕ) (infos : List NodeInfo) (t t' : Tables) (id : ℕ) (p : String)
    → refresh_masternode_list node_digest infos t ≡ ok t'
    → has_key p (fresh_mn_list infos []) ≡ true
    → has_node p (get_active_nodes t.masternodes) ≡ false
    → contains id (ids_of (not_indexed t.chunks)) ≡ true
    → count_rows id p t.distances + 2 ≤ count_rows id p (index_new_chunks node_digest t').distances
index-refresh_twice node_digest infos t t' id p e fresh absent new =
    let (more, same_chunks, there) =
      refresh_masternode_list-counts node_digest infos t t' id p e fresh absent
        (not_indexed-contained id t.chunks new) in
    let new' : contains id (ids_of (not_indexed t'.chunks)) ≡ true = rw same_chunks new in
    let indexed = index_new_chunks_complete node_digest t' id p new' there in
    omega (arith, more, indexed.1)

-- A dict that has a key with an address.
abbrev pub has_item : String → String → NodeDict → Bool
has_item key address [] = false
has_item key address ((k, a) ∷ d) = str_eq key k && str_eq address a || has_item key address d

has_address-append :
    (a : String) (mns mns' : List Masternode)
    → has_address a mns ≡ true
    → has_address a (mns ++ mns') ≡ true
has_address-append a [] mns' h = cc
has_address-append a (mn ∷ mns) mns' h = ground (arith, has_address-append a mns mns')

insert_nodes-conflict :
    (key address : String) (d : NodeDict) (mns : List Masternode)
    → has_item key address d ≡ true
    → has_address address mns ≡ true
    → insert_nodes d mns ≡ err integrity_error
unfolding insert_nodes
insert_nodes-conflict key address [] mns h k = cc
insert_nodes-conflict key address ((i, a) ∷ d) mns h k =
    elim (Bool-cases (has_node i mns || has_address a mns)) [
      | inl taken ↦ rw taken refl
      | inr free ↦ elim (Bool-cases (str_eq address a)) [
        | inl same ↦
            let there : has_address a mns ≡ true = rw (← (eq_iff address a).0 same) k in
            absurd (ground arith)
        | inr differ ↦ rw free (
            insert_nodes-conflict key address d
              (mns ++ record { ext_address = a; pastel_id = i; active = true } ∷ []) (ground arith)
              (has_address-append address mns _ k))
      ]
    ]

has_item-added_nodes :
    (key address : String) (fresh : NodeDict) (existing : List Masternode)
    → has_item key address fresh ≡ true
    → has_node key existing ≡ false
    → has_item key address (added_nodes fresh existing) ≡ true
unfolding added_nodes
has_item-added_nodes key address [] existing h k = h
has_item-added_nodes key address ((i, a) ∷ fresh) existing h k = elim (Bool-cases (str_eq key i)) [
  | inl same ↦
      let new : has_node i existing ≡ false = rw (← (eq_iff key i).0 same) k in
      rw new (ground (arith, has_item-added_nodes key address fresh existing))
  | inr differ ↦
      let more = has_item-added_nodes key address fresh existing (ground arith) k in
      elim (Bool-cases (has_node i existing)) [
        | inl known ↦ rw known more
        | inr new ↦ rw (new, differ) more
      ]
]

-- If the fresh list has a PastelID that is not active, at an address that a row of the table has
-- already, `update_masternode_list` raises the IntegrityError and adds no masternode.
pub update_masternode_list-conflict :
    (key address : String) (infos : List NodeInfo) (mns : List Masternode)
    → has_item key address (fresh_mn_list infos []) ≡ true
    → has_node key (get_active_nodes mns) ≡ false
    → has_address address mns ≡ true
    → update_masternode_list infos mns ≡ err integrity_error
unfolding update_masternode_list
update_masternode_list-conflict key address infos mns h k a =
    let refused =
      insert_nodes-conflict key address
        (added_nodes (fresh_mn_list infos []) (get_active_nodes mns)) mns
        (has_item-added_nodes key address (fresh_mn_list infos []) (get_active_nodes mns) h k) a in
    rw refused refl
