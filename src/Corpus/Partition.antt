-- ===== src/Corpus/Partition.antt =====
-- `partition` of benchmarks/validate.py: for each origin, some of the duplicate clusters of its
-- tasks become development tasks and the others are held out. The key that orders the clusters, a
-- SHA-256 digest, is a parameter, as the number that its hexadecimal digits write.
pub mod Choice
use grepglint.Base.{
  ℕ, ◌+◌, String, Bool, not, ◌&&◌, Option, none, some, List, [], ◌∷◌, ◌++◌, ◌==◌, leb, eqb,
  if◌then◌else◌, length, any,
}
use grepglint.Base.Dict.{Dict, contains, lookup, keys, insert}
use grepglint.Base.Result.{Result, ◌>>=◌, ◌>>◌, value_error, err, ok}

pub record Task : Type 0 where
  pub id : String
  pub origin : String
  pub duplicate_cluster : String

pub data Split : Type 0 where
  development held_out : Split

-- `clusters.setdefault(key, []).append(id)`
add_id : String → String → Dict (List String) → Dict (List String)
add_id cluster id [] = (cluster, id ∷ []) ∷ []
add_id cluster id ((c, ids) ∷ clusters) =
    let rest = add_id cluster id clusters in
    if c == cluster then (c, ids ++ id ∷ []) ∷ clusters else (c, ids) ∷ rest

-- The first loop over the tasks.
group_by : String → List Task → Dict (List String) → Dict (List String)
unfolding add_id
group_by origin [] clusters = clusters
group_by origin (t ∷ ts) clusters =
    if t.origin == origin
    then group_by origin ts (add_id t.duplicate_cluster t.id clusters)
    else group_by origin ts clusters

-- `clusters[cluster]`, for a cluster of the dict.
ids_of : Dict (List String) → String → List String
unfolding lookup
ids_of clusters c = elim (lookup c clusters) [ none ↦ [] | some ids ↦ ids ]

pub size_of : Dict (List String) → String → ℕ
unfolding ids_of
size_of clusters c = length (ids_of clusters c)

-- Totals, each with clusters that reach it.
abbrev pub Possibilities : Type 0
Possibilities = List (ℕ × List String)

-- `total in possibilities`, and `possibilities[total]`.
abbrev pub reaches : ℕ → Possibilities → Bool
reaches total = any (λ p. eqb p.0 total)

pub chosen_for : ℕ → Possibilities → Option (List String)
chosen_for total [] = none
chosen_for total ((n, chosen) ∷ rest) = if eqb n total then some chosen else chosen_for total rest

-- The body of the inner loop.
pub extend_one : ℕ → ℕ → String → Possibilities → ℕ × List String → Possibilities
extend_one count size cluster found (n, chosen) =
    if leb (n + size) count && not (reaches (n + size) found)
    then found ++ (n + size, chosen ++ cluster ∷ []) ∷ []
    else found

-- The inner loop, over a copy of the items.
pub extend : ℕ → ℕ → String → Possibilities → Possibilities → Possibilities
unfolding extend_one
extend count size cluster found [] = found
extend count size cluster found (p ∷ ps) =
    extend count size cluster (extend_one count size cluster found p) ps

-- The loop over the clusters in their order.
pub possibilities : ℕ → (String → ℕ) → Possibilities → List String → Possibilities
unfolding extend
possibilities count size found [] = found
possibilities count size found (c ∷ cs) =
    possibilities count size (extend count (size c) c found found) cs

-- The clusters that make up the development tasks.
unfoldable pub choose : ℕ → (String → ℕ) → List String → Option (List String)
unfolding possibilities chosen_for
choose count size ordered = chosen_for count (possibilities count size ((0, []) ∷ []) ordered)

module _ (key : String → ℕ) where
  -- `sorted(clusters, key=…)`, which keeps the order of equal keys.
  insert_by : String → List String → List String
  insert_by c [] = c ∷ []
  insert_by c (d ∷ ds) = if leb (key c) (key d) then c ∷ d ∷ ds else d ∷ insert_by c ds

  sort_by : List String → List String
  unfolding insert_by
  sort_by [] = []
  sort_by (c ∷ cs) = insert_by c (sort_by cs)

  development_ids : Dict (List String) → List String → List String
  unfolding ids_of
  development_ids clusters [] = []
  development_ids clusters (c ∷ cs) = ids_of clusters c ++ development_ids clusters cs

  -- The last loop over the tasks.
  assign : String → List String → List Task → Dict Split → Dict Split
  unfolding insert
  assign origin dev [] result = result
  assign origin dev (t ∷ ts) result =
      if t.origin == origin
      then assign origin dev ts
          (insert t.id (if contains t.id dev then development else held_out) result)
      else assign origin dev ts result

  -- The body of the loop over the origins.
  allot : List Task → Dict Split → String × ℕ → Result (Dict Split)
  unfolding group_by sort_by size_of choose development_ids assign
  allot tasks result (origin, count) =
      let clusters = group_by origin tasks [] in
      elim (choose count (size_of clusters) (sort_by (keys clusters))) [
        | none ↦ err value_error
        | some chosen ↦ ok (assign origin (development_ids clusters chosen) tasks result)
      ]

  unfoldable pub partition : List Task → Result (Dict Split)
  unfolding allot
  partition tasks = do result ← allot tasks [] ("published", 6); allot tasks result ("authored", 2)
