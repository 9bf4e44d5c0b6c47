-- ===== src/Commands/Edges.antt =====
-- Each command finds an edge.
use spi_nnfront_end_common.Common.{
  ℕ, ◌≡◌, sym, ◌⊎◌, inl, inr, Bool, true, some, List, [], ◌∷◌, ◌==◌, Bool-cases, All, arith,
}
use spi_nnfront_end_common.Common.Numbers.{member}
use spi_nnfront_end_common.Common.Maps.{lookup}
use spi_nnfront_end_common.Commands.Sender.{Sender, Edge}
use spi_nnfront_end_common.Commands.Partitioned.{HasPartition}

abbrev AllHave : Sender → List ℕ → Type 0
AllHave s keys = (k : ℕ) → member k keys ≡ true → HasPartition s k

-- The keys of each vertex have partitions.
abbrev IsMapped : Sender → List (ℕ × List ℕ) → Type 0
IsMapped s items = All (λ item. AllHave s item.1) items

IsMapped-lookup :
    (s : Sender) (vertex : ℕ) (keys : List ℕ) (items : List (ℕ × List ℕ))
    → IsMapped s items
    → lookup vertex items ≡ some keys
    → AllHave s keys
unfolding lookup
IsMapped-lookup s vertex keys [] m e = cc
IsMapped-lookup s vertex keys (item ∷ items) m e = elim (Bool-cases (vertex == item.0)) [
  | inl same ↦ let e' : item.1 ≡ keys = ground arith in rw (sym e') m.0
  | inr other ↦ IsMapped-lookup s vertex keys items m.1 (rw other at e)
]

-- The edge is one of the edges.
abbrev pub HasEdge : Edge → List Edge → Type 0
HasEdge x [] = ⊥
HasEdge x (e ∷ es) = (e ≡ x) ⊎ HasEdge x es

-- One of the items has the vertex, of the wanted type, and the key among its keys.
abbrev pub IsTarget : (ℕ → Bool) → List (ℕ × List ℕ) → ℕ → ℕ → Type 0
IsTarget is_vertex_type [] v k = ⊥
IsTarget is_vertex_type (item ∷ items) v k =
    ((item.0 ≡ v) × (is_vertex_type v ≡ true) × (member k item.1 ≡ true))
    ⊎ IsTarget is_vertex_type items v k

-- An edge leads to a vertex for which `T` holds, in the partition of the key.
abbrev pub IsServedBy : (ℕ → ℕ → Type 0) → Sender → ℕ → List Edge → Type 0
IsServedBy T s k es =
    (n : ℕ) × (v : ℕ) × (lookup k s.keys_to_partition_id ≡ some n) × T v k × HasEdge (v, n) es

-- The keys that were added have edges.
abbrev Cover : (ℕ → ℕ → Type 0) → Sender → List ℕ → List Edge → Type 0
Cover T s added es = (k : ℕ) → member k added ≡ true → IsServedBy T s k es

-- What a loop that goes on from `added` and `es` comes to.
abbrev Extends : (ℕ → ℕ → Type 0) → Sender → List ℕ → List ℕ → List ℕ → List Edge → Type 0
Extends T s keys added added' es' =
    Cover T s added' es'
    × ((k : ℕ) → member k added ≡ true → member k added' ≡ true)
    × ((k : ℕ) → member k keys ≡ true → member k added' ≡ true)

module _ (in_set_order : List ℕ → List ℕ)
    (in_set_order-member : (k : ℕ) (s : List ℕ) → member k (in_set_order s) ≡ member k s)
    (is_vertex_type : ℕ → Bool) where
  -- The keys of the vertices of the wanted type have edges.
  abbrev AllServed : (ℕ → ℕ → Type 0) → Sender → List (ℕ × List ℕ) → List Edge → Type 0
  AllServed T s items es =
      (v k : ℕ) (keys : List ℕ)
      → lookup v items ≡ some keys
      → is_vertex_type v ≡ true
      → member k keys ≡ true
      → IsServedBy T s k es
