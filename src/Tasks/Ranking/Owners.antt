-- ===== src/Tasks/Ranking/Owners.antt =====
-- What the ranking table says of a chunk.
use mathlib.Core.List.{Perm, append-nil}
use mathlib.Core.List.Perm
use stovacore.Prelude.{
  ℕ, suc, ◌≡◌, refl, sym, ap, ◌∙◌, inl, inr, Bool, true, false, List, [], ◌∷◌, ◌++◌, arith, All,
  All-take, All-map, take, contains, IsSetList, ◌==◌, ==_iff, Bool-cases, if◌then◌else◌,
}
use stovacore.Tasks.Rows.{ChunkMnDistance, ChunkMnRanked}
use stovacore.Tasks.Text.{text_leb, text_leb_total, text_leb_trans}
use stovacore.Tasks.Ranking.{
  rows_for, partitions, insert_by_distance, order_by_distance, number_rows, rank_chunk, rank_chunks,
  recalculate_mn_chunk_ranking_table, ranked_for, replication_factor,
}

-- Each row is followed only by rows whose distance is not before its own.
abbrev pub IsOrdered : List ChunkMnDistance → Type 0
IsOrdered [] = Unit
IsOrdered (r ∷ rows) =
    All (λ (s : ChunkMnDistance). text_leb r.distance s.distance ≡ true) rows × IsOrdered rows

insert-Perm :
    (r : ChunkMnDistance) (rows : List ChunkMnDistance)
    → Perm (insert_by_distance r rows) (r ∷ rows)
unfolding insert_by_distance
insert-Perm r [] = Perm.refl (r ∷ [])
insert-Perm r (s ∷ rows) = elim (Bool-cases (text_leb r.distance s.distance)) [
  | inl first ↦ rw first (Perm.refl (r ∷ s ∷ rows))
  | inr later ↦ rw later (Perm.trans (Perm.cons s (insert-Perm r rows)) (Perm.swap r s rows))
]

order-Perm : (rows : List ChunkMnDistance) → Perm (order_by_distance rows) rows
unfolding order_by_distance
order-Perm [] = Perm.refl []
order-Perm (r ∷ rows) =
    Perm.trans (insert-Perm r (order_by_distance rows)) (Perm.cons r (order-Perm rows))

insert-All :
    (P : ChunkMnDistance → Type 0) (r : ChunkMnDistance) (rows : List ChunkMnDistance)
    → P r
    → All P rows
    → All P (insert_by_distance r rows)
unfolding insert_by_distance
insert-All P r [] p h = (p, tt)
insert-All P r (s ∷ rows) p (q, h) = elim (Bool-cases (text_leb r.distance s.distance)) [
  | inl first ↦ rw first (p, (q, h))
  | inr later ↦ rw later (q, insert-All P r rows p h)
]

order-All :
    (P : ChunkMnDistance → Type 0) (rows : List ChunkMnDistance)
    → All P rows
    → All P (order_by_distance rows)
unfolding order_by_distance
order-All P [] h = tt
order-All P (r ∷ rows) (p, h) = insert-All P r (order_by_distance rows) p (order-All P rows h)

insert-IsOrdered :
    (r : ChunkMnDistance) (rows : List ChunkMnDistance)
    → IsOrdered rows
    → IsOrdered (insert_by_distance r rows)
unfolding insert_by_distance
insert-IsOrdered r [] h = (tt, tt)
insert-IsOrdered r (s ∷ rows) (h, o) = elim (Bool-cases (text_leb r.distance s.distance)) [
  | inl first ↦ rw first (
    (
      first,
      All-map (λ (t : ChunkMnDistance). text_leb s.distance t.distance ≡ true)
          (λ (t : ChunkMnDistance). text_leb r.distance t.distance ≡ true) rows
          (λ t k. text_leb_trans r.distance s.distance t.distance first k) h,
    ),
    (h, o),
  )
  | inr later ↦ rw later (
    insert-All (λ t. text_leb s.distance t.distance ≡ true) r rows
        (text_leb_total r.distance s.distance later) h,
    insert-IsOrdered r rows o,
  )
]

order-IsOrdered : (rows : List ChunkMnDistance) → IsOrdered (order_by_distance rows)
unfolding order_by_distance
order-IsOrdered [] = tt
order-IsOrdered (r ∷ rows) = insert-IsOrdered r (order_by_distance rows) (order-IsOrdered rows)

rows_for-All : (c : ℕ) (rows : List ChunkMnDistance) → All (λ r. c ≡ r.chunk) (rows_for c rows)
unfolding rows_for
rows_for-All c [] = tt
rows_for-All c (r ∷ rows) = elim (Bool-cases (c == r.chunk)) [
  | inl same ↦ rw same ((==_iff c r.chunk).0 same, rows_for-All c rows)
  | inr differ ↦ rw differ (rows_for-All c rows)
]

ranked_for-append :
    (c : ℕ) (xs ys : List ChunkMnRanked)
    → ranked_for c (xs ++ ys) ≡ ranked_for c xs ++ ranked_for c ys
unfolding ranked_for
ranked_for-append c [] ys = refl
ranked_for-append c (r ∷ xs) ys = elim (Bool-cases (c == r.chunk)) [
  | inl same ↦ rw same (ap (λ t. r ∷ t) (ranked_for-append c xs ys))
  | inr differ ↦ rw differ (ranked_for-append c xs ys)
]

ranked_for-number_rows :
    (c k n : ℕ) (rows : List ChunkMnDistance)
    → All (λ r. c ≡ r.chunk) rows
    → ranked_for k (number_rows n rows) ≡ (if k == c then number_rows n rows else [])
unfolding ranked_for number_rows
ranked_for-number_rows c k n [] h = ground arith
ranked_for-number_rows c k n (r ∷ rows) (e, h) = elim (Bool-cases (k == c)) [
  | inl same ↦
      let same' : (k == r.chunk) ≡ true = rw (← e) same in
      rw (same', ranked_for-number_rows c k (suc n) rows h, same) refl
  | inr differ ↦
      let differ' : (k == r.chunk) ≡ false = rw (← e) differ in
      rw (differ', ranked_for-number_rows c k (suc n) rows h, differ) refl
]

ranked_for-rank_chunk :
    (c k : ℕ) (rows : List ChunkMnDistance)
    → ranked_for k (rank_chunk c rows) ≡ (if k == c then rank_chunk c rows else [])
unfolding rank_chunk
ranked_for-rank_chunk c k rows =
    ranked_for-number_rows c k 1 (take replication_factor (order_by_distance (rows_for c rows))) (
      All-take (λ r. c ≡ r.chunk) replication_factor _
        (order-All (λ r. c ≡ r.chunk) (rows_for c rows) (rows_for-All c rows)))

ranked_for-rank_chunks :
    (k : ℕ) (cs : List ℕ) (rows : List ChunkMnDistance)
    → IsSetList cs
    → ranked_for k (rank_chunks cs rows) ≡ (if contains k cs then rank_chunk k rows else [])
unfolding rank_chunks ranked_for
ranked_for-rank_chunks k [] rows h = refl
ranked_for-rank_chunks k (c ∷ cs) rows (fresh, h) = elim (Bool-cases (k == c)) [
  | inl same ↦
      let e = (==_iff k c).0 same in
      let fresh' : contains k cs ≡ false = rw e fresh in
      rw
        (
          ranked_for-append k (rank_chunk c rows) (rank_chunks cs rows),
          ranked_for-rank_chunk c k rows,
          same,
          ranked_for-rank_chunks k cs rows h,
          fresh',
          e,
        )
        (append-nil (rank_chunk c rows))
  | inr differ ↦
      rw
        (
          ranked_for-append k (rank_chunk c rows) (rank_chunks cs rows),
          ranked_for-rank_chunk c k rows,
          differ,
        )
        (ranked_for-rank_chunks k cs rows h)
]

partitions-IsSetList : (rows : List ChunkMnDistance) → IsSetList (partitions rows)
unfolding partitions
partitions-IsSetList [] = tt
partitions-IsSetList (r ∷ rows) = elim (Bool-cases (contains r.chunk (partitions rows))) [
  | inl old ↦ rw old (partitions-IsSetList rows)
  | inr new ↦ rw new (new, partitions-IsSetList rows)
]

no_partition :
    (c : ℕ) (rows : List ChunkMnDistance)
    → contains c (partitions rows) ≡ false
    → rows_for c rows ≡ []
unfolding partitions rows_for
no_partition c [] h = refl
no_partition c (r ∷ rows) h = elim (Bool-cases (contains r.chunk (partitions rows))) [
  | inl old ↦
      let h' = rw old at h in
      elim (Bool-cases (c == r.chunk)) [
        | inl same ↦ let e = (==_iff c r.chunk).0 same in absurd (clash (rw e at h') old)
        | inr differ ↦ rw differ (no_partition c rows h')
      ]
  | inr new ↦
      let h' = rw new at h in
      elim (Bool-cases (c == r.chunk)) [
        | inl same ↦ absurd (ground arith)
        | inr differ ↦ rw differ (no_partition c rows (ground arith))
      ]
]
  where
    clash : {b : Bool} → b ≡ false → b ≡ true → ⊥
    clash f t = cc

no_rank : (c : ℕ) (rows : List ChunkMnDistance) → rows_for c rows ≡ [] → rank_chunk c rows ≡ []
unfolding rank_chunk order_by_distance number_rows
no_rank c rows e = rw e refl

-- For every chunk, the rows of the new ranking are the first seven, numbered from one, of the
-- chunk's distance rows in an order in which no distance is after a later one as a text.
pub recalculate-ranks :
    (c : ℕ) (distances : List ChunkMnDistance)
    → (ordered : List ChunkMnDistance) × Perm ordered (rows_for c distances)
      × IsOrdered ordered
      × (ranked_for c (recalculate_mn_chunk_ranking_table distances)
          ≡ number_rows 1 (take replication_factor ordered))
unfolding recalculate_mn_chunk_ranking_table rank_chunk
recalculate-ranks c distances = (
  order_by_distance (rows_for c distances),
  order-Perm (rows_for c distances),
  order-IsOrdered (rows_for c distances),
  rank_of_chunk,
)
  where
    rank_of_chunk :
        ranked_for c (rank_chunks (partitions distances) distances) ≡ rank_chunk c distances
    rank_of_chunk = elim (Bool-cases (contains c (partitions distances))) [
      | inl there ↦
          ranked_for-rank_chunks c (partitions distances) distances (partitions-IsSetList distances)
          ∙ rw there refl
      | inr missing ↦
          ranked_for-rank_chunks c (partitions distances) distances (partitions-IsSetList distances)
          ∙ rw missing (sym (no_rank c distances (no_partition c distances missing)))
    ]
